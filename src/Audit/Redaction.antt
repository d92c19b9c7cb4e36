-- ===== src/Audit/Redaction.antt =====
-- What `redact` of admin-api/app/audit.py hides, at any depth.
use mqtt_broker_stack.Common.{Text, ◌≡◌, Bool, true, false, if◌then◌else◌}
use mqtt_broker_stack.Models.{
  Json, null, bool, number, minus, string, array, object, Items, end, item, Fields, done, field,
}
use mqtt_broker_stack.Audit.{redacted, is_sensitive, redact, redact_items, redact_fields}

-- Somewhere inside a value the key `k` stands with the value `x`.
mutual
  pub data HasField (k : Text) (x : Json) : Json → Type 0 where
    in_array : {is : Items} → ItemsHave k x is → HasField k x (array is)
    in_object : {fs : Fields} → FieldsHave k x fs → HasField k x (object fs)

  pub data ItemsHave (k : Text) (x : Json) : Items → Type 0 where
    in_item : {v : Json} {is : Items} → HasField k x v → ItemsHave k x (item v is)
    in_rest : {v : Json} {is : Items} → ItemsHave k x is → ItemsHave k x (item v is)

  pub data FieldsHave (k : Text) (x : Json) : Fields → Type 0 where
    here : {j : Text} {v : Json} {fs : Fields} → k ≡ j → x ≡ v → FieldsHave k x (field j v fs)
    under : {j : Text} {v : Json} {fs : Fields} → HasField k x v → FieldsHave k x (field j v fs)
    beside : {j : Text} {v : Json} {fs : Fields} → FieldsHave k x fs → FieldsHave k x (field j v fs)

module _ (lower : Text → Text) (k : Text) (x : Json) (sensitive : is_sensitive lower k ≡ true) where
  hidden_here :
      (j : Text) (v : Json)
      → k ≡ j
      → x ≡ (if is_sensitive lower j then string redacted else redact lower v)
      → x ≡ string redacted
  hidden_here j v e q = let s : is_sensitive lower j ≡ true = rw (← e) sensitive in rw s at q

  hidden_under :
      (b : Bool) (v : Json)
      → (HasField k x (redact lower v) → x ≡ string redacted)
      → HasField k x (if b then string redacted else redact lower v)
      → x ≡ string redacted
  hidden_under true v ih h = elim h [ ]
  hidden_under false v ih h = ih h

  mutual
    unfolding redact

    hides : (v : Json) → HasField k x (redact lower v) → x ≡ string redacted
    hides null h = elim h [ ]
    hides (bool b) h = elim h [ ]
    hides (number n) h = elim h [ ]
    hides (minus n) h = elim h [ ]
    hides (string t) h = elim h [ ]
    hides (array is) (in_array h) = hides_items is h
    hides (object fs) (in_object h) = hides_fields fs h

    hides_items : (is : Items) → ItemsHave k x (redact_items lower is) → x ≡ string redacted
    hides_items end h = elim h [ ]
    hides_items (item v is) (in_item h) = hides v h
    hides_items (item v is) (in_rest h) = hides_items is h

    hides_fields : (fs : Fields) → FieldsHave k x (redact_fields lower fs) → x ≡ string redacted
    hides_fields done h = elim h [ ]
    hides_fields (field j v fs) (here e q) = hidden_here j v e q
    hides_fields (field j v fs) (under h) = hidden_under (is_sensitive lower j) v (hides v) h
    hides_fields (field j v fs) (beside h) = hides_fields fs h

-- At any depth of what `redact` gives, under arrays and objects, a key whose lower-case form contains
-- a sensitive word has the value "[REDACTED]".
pub redact_hides :
    (lower : Text → Text) (k : Text) (x v : Json)
    → is_sensitive lower k ≡ true
    → HasField k x (redact lower v)
    → x ≡ string redacted
redact_hides lower k x v s h = hides lower k x s v h
