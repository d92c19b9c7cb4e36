-- ===== src/Audit/Tests.antt =====
-- A run of admin-api/app/audit.py with a JSON text that keeps only a value's size, and the theorems there.
use mqtt_broker_stack.Common.{
  Text, codes, ◌≡◌, refl, ap, ◌↔◌, true, none, List, [], ◌∷◌, ◌++◌, length, contains, starts_with,
  sort_by,
}
use mqtt_broker_stack.Models.{Json, string, array, object, end, item, Fields, done, field}
use mqtt_broker_stack.Samples.{size, size_fields, sample, start}
use mqtt_broker_stack.Audit.{
  redacted, is_sensitive, redact, no_hash, Entry, latest, content_for, event_of, append_event,
  valid, verify_chain, sequence_before,
}
use mqtt_broker_stack.Audit.Redaction.{
  HasField, in_array, in_object, in_item, here, under, redact_hides,
}
use mqtt_broker_stack.Audit.Chain.{
  append_fields, IsCodec, Links, append_all, last_hash, verify_chain-valid_iff,
  verify_chain-append_event, verify_chain-append_all,
}

same_fields :
    (before : Fields) (k : Text) (v : Json) (after : Fields)
    → size_fields (append_fields before (field k (string (size v)) after))
      ≡ size_fields (append_fields before (field k v after))
unfolding size
same_fields done k v after = refl
same_fields (field j u before) k v after = ap (λ t. size u ++ t) (same_fields before k v after)

sample-IsCodec : IsCodec sample
sample-IsCodec = record { reload = λ before k v after. unfold size in same_fields before k v after }

abbrev entry : Text → Entry
entry action = record {
  actor_id = none;
  actor_role = none;
  source_ip = codes "10.0.0.1";
  correlation_id = codes "c";
  action = action;
  target = codes "client:a";
  result = codes "success";
  metadata = field (codes "old_password") (string (codes "hunter2")) done;
}

abbrev two_entries : List Entry
two_entries = entry (codes "client.create") ∷ entry (codes "client.delete") ∷ []

verify_chain-append_all_example :
    verify_chain sample (append_all sample two_entries start).db
    ≡ valid 2 (last_hash no_hash (append_all sample two_entries start).db.events)
verify_chain-append_all_example =
    verify_chain-append_all sample sample-IsCodec two_entries start refl

verify_chain-append_event_example :
    verify_chain sample (append_event sample (entry (codes "a")) start).1.db
    ≡ valid 1 (event_of sample (content_for sample (entry (codes "a")) (latest []) 100)).event_hash
verify_chain-append_event_example =
    verify_chain-append_event sample sample-IsCodec (entry (codes "a")) start tt

verify_chain-valid_iff_example :
    (verify_chain sample start.db
      ≡ valid
          (length (sort_by sequence_before []))
          (last_hash no_hash (sort_by sequence_before [])))
    ↔ Links sample 1 no_hash (sort_by sequence_before [])
verify_chain-valid_iff_example = verify_chain-valid_iff sample start.db

abbrev nested : Json
nested = object (
    field (codes "before")
      (array (item (object (field (codes "old_password") (string (codes "hunter2")) done)) end))
      done)

nested_sensitive : is_sensitive (λ t. t) (codes "old_password") ≡ true
unfolding is_sensitive contains starts_with
nested_sensitive = refl

nested-HasField : HasField (codes "old_password") (string redacted) (redact (λ t. t) nested)
unfolding redact is_sensitive contains starts_with
nested-HasField = in_object (under (in_array (in_item (in_object (here refl refl)))))

redact_hides_example : string redacted ≡ string redacted
redact_hides_example =
    redact_hides (λ t. t) (codes "old_password") (string redacted) nested nested_sensitive
      nested-HasField
