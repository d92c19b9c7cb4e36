-- ===== src/Migration/Acls/Unique.antt =====
-- What `deduplicate_acls` of scripts/migrate_dynsec.py makes of a list of rules.
use mqtt_broker_stack.Common.{
  ◌≡◌, ◌≢◌, ◌↔◌, ◌⊎◌, inl, inr, refl, ◌∙◌, Bool, true, false, List, [], ◌∷◌, Memᴰ, arith, eq_iff,
  All, All-of_mem, All-at, IsSorted, sort_by-IsSorted, mem-sort_by, mem_of_mem-sort_by,
  text_leb_total, text_leb_trans, text_leb_antisym, Bool-cases, if◌then◌else◌, IsDistinct,
  SameMembers, mem-cons_cases, sort_by-IsDistinct, eq_of_SameMembers,
}
use mqtt_broker_stack.Migration.Acls.{
  Rule, bool_eq, rule_eq, add_unique, add_all, rule_before, deduplicate_acls,
}

bool_eq-eq : (a b : Bool) → bool_eq a b ≡ true → a ≡ b
bool_eq-eq true true h = refl
bool_eq-eq true false h = cc
bool_eq-eq false true h = cc
bool_eq-eq false false h = refl

bool_eq_refl : (a : Bool) → bool_eq a a ≡ true
bool_eq_refl true = refl
bool_eq_refl false = refl

rule_eq-eq : (a b : Rule) → rule_eq a b ≡ true → a ≡ b
rule_eq-eq a b h =
    ground (arith, eq_iff a.acltype b.acltype, eq_iff a.topic b.topic, bool_eq-eq a.allow b.allow)

rule_eq_refl : (a : Rule) → rule_eq a a ≡ true
rule_eq_refl a =
    ground (arith, eq_iff a.acltype a.acltype, eq_iff a.topic a.topic, bool_eq_refl a.allow)

rule_before_total : (a b : Rule) → rule_before a b ≡ false → rule_before b a ≡ true
unfolding rule_before
rule_before_total a b h = ground (
  arith,
  text_leb_total a.acltype b.acltype,
  text_leb_total a.topic b.topic,
  eq_iff a.topic b.topic,
  eq_iff b.topic a.topic,
)

rule_before_trans :
    (a b c : Rule) → rule_before a b ≡ true → rule_before b c ≡ true → rule_before a c ≡ true
unfolding rule_before
rule_before_trans a b c h k = ground (
  arith,
  text_leb_trans a.acltype b.acltype c.acltype,
  text_leb_trans a.topic b.topic c.topic,
  text_leb_antisym a.topic b.topic,
  eq_iff a.topic b.topic,
  eq_iff b.topic c.topic,
  eq_iff a.topic c.topic,
)

-- The priority of a rule is that of its kind, as `parse_acl_line` sets it.
abbrev pub IsRanked : Rule → Type 0
IsRanked r = r.priority ≡ (if r.allow then 10 else 100)

rule_before_antisym :
    (a b : Rule) → IsRanked a → IsRanked b → rule_before a b ≡ true → rule_before b a ≡ true → a ≡ b
unfolding rule_before
rule_before_antisym a b ra rb h k = ground (
  arith,
  text_leb_antisym a.acltype b.acltype,
  text_leb_antisym a.topic b.topic,
  eq_iff a.topic b.topic,
  eq_iff b.topic a.topic,
)

add_unique-cases : {x r : Rule} (rs : List Rule) → Memᴰ x (add_unique r rs) → (x ≡ r) ⊎ Memᴰ x rs
unfolding add_unique
add_unique-cases [] m = mem-cons_cases m
add_unique-cases {x} {r} (s ∷ rs) m = elim (Bool-cases (rule_eq s r)) [
  | inl e ↦ elim (mem-cons_cases {xs = rs} (rw e at m)) [
    | inl q ↦ inl q
    | inr n ↦ inr (Memᴰ.tail n)
  ]
  | inr e ↦ elim (mem-cons_cases {xs = add_unique r rs} (rw e at m)) [
    | inl q ↦ inr (Memᴰ.head q)
    | inr n ↦ elim (add_unique-cases rs n) [ inl q ↦ inl q | inr n' ↦ inr (Memᴰ.tail n') ]
  ]
]

mem-add_unique_self : (r : Rule) (rs : List Rule) → Memᴰ r (add_unique r rs)
unfolding add_unique
mem-add_unique_self r [] = Memᴰ.head refl
mem-add_unique_self r (s ∷ rs) = elim (Bool-cases (rule_eq s r)) [
  | inl e ↦ rw e (Memᴰ.head refl)
  | inr e ↦ rw e (Memᴰ.tail (mem-add_unique_self r rs))
]

mem-add_unique : {x : Rule} (r : Rule) (rs : List Rule) → Memᴰ x rs → Memᴰ x (add_unique r rs)
unfolding add_unique
mem-add_unique r [] m = elim m [ ]
mem-add_unique r (s ∷ rs) m = elim (Bool-cases (rule_eq s r)) [
  | inl e ↦ elim (mem-cons_cases m) [
    | inl q ↦ rw e (Memᴰ.head (q ∙ rule_eq-eq s r e))
    | inr n ↦ rw e (Memᴰ.tail n)
  ]
  | inr e ↦ elim (mem-cons_cases m) [
    | inl q ↦ rw e (Memᴰ.head q)
    | inr n ↦ rw e (Memᴰ.tail (mem-add_unique r rs n))
  ]
]

add_unique-IsDistinct : (r : Rule) (rs : List Rule) → IsDistinct rs → IsDistinct (add_unique r rs)
unfolding add_unique
add_unique-IsDistinct r [] d = (tt, tt)
add_unique-IsDistinct r (s ∷ rs) d = elim (Bool-cases (rule_eq s r)) [
  | inl e ↦ let same = rule_eq-eq s r e in rw e (rw (← same) d)
  | inr e ↦ rw e (
    All-of_mem (λ y. s ≢ y) (add_unique r rs)
        (λ y m. elim (add_unique-cases rs m) [
          | inl q ↦ λ p. let f : rule_eq s r ≡ true = rw (p ∙ q) (rule_eq_refl r) in cc
          | inr n ↦ All-at (λ z. s ≢ z) rs d.0 n
        ]),
    add_unique-IsDistinct r rs d.1,
  )
]

add_all-IsDistinct : (rs unique : List Rule) → IsDistinct unique → IsDistinct (add_all rs unique)
unfolding add_all
add_all-IsDistinct [] unique d = d
add_all-IsDistinct (r ∷ rs) unique d =
    add_all-IsDistinct rs (add_unique r unique) (add_unique-IsDistinct r unique d)

add_all-cases :
    {x : Rule} (rs unique : List Rule) → Memᴰ x (add_all rs unique) → Memᴰ x rs ⊎ Memᴰ x unique
unfolding add_all
add_all-cases [] unique m = inr m
add_all-cases (r ∷ rs) unique m = elim (add_all-cases rs (add_unique r unique) m) [
  | inl n ↦ inl (Memᴰ.tail n)
  | inr n ↦ elim (add_unique-cases unique n) [ inl q ↦ inl (Memᴰ.head q) | inr n' ↦ inr n' ]
]

mem-add_all_unique : {x : Rule} (rs unique : List Rule) → Memᴰ x unique → Memᴰ x (add_all rs unique)
unfolding add_all
mem-add_all_unique [] unique m = m
mem-add_all_unique (r ∷ rs) unique m =
    mem-add_all_unique rs (add_unique r unique) (mem-add_unique r unique m)

mem-add_all : {x : Rule} (rs unique : List Rule) → Memᴰ x rs → Memᴰ x (add_all rs unique)
unfolding add_all
mem-add_all [] unique m = elim m [ ]
mem-add_all {x} (r ∷ rs) unique m = elim (mem-cons_cases m) [
  | inl q ↦ mem-add_all_unique rs (add_unique r unique) (rw q (mem-add_unique_self r unique))
  | inr n ↦ mem-add_all rs (add_unique r unique) n
]

pub mem-deduplicate_acls : {x : Rule} (rs : List Rule) → Memᴰ x rs → Memᴰ x (deduplicate_acls rs)
unfolding deduplicate_acls
mem-deduplicate_acls rs m = mem-sort_by rule_before (add_all rs []) (mem-add_all rs [] m)

pub mem_of_mem-deduplicate_acls :
    {x : Rule} (rs : List Rule) → Memᴰ x (deduplicate_acls rs) → Memᴰ x rs
unfolding deduplicate_acls
mem_of_mem-deduplicate_acls rs m =
    elim (add_all-cases rs [] (mem_of_mem-sort_by rule_before (add_all rs []) m)) [
      | inl n ↦ n
      | inr n ↦ elim n [ ]
    ]

deduplicate_acls-IsDistinct : (rs : List Rule) → IsDistinct (deduplicate_acls rs)
unfolding deduplicate_acls
deduplicate_acls-IsDistinct rs =
    sort_by-IsDistinct rule_before (add_all rs []) (add_all-IsDistinct rs [] tt)

deduplicate_acls-IsSorted : (rs : List Rule) → IsSorted rule_before (deduplicate_acls rs)
unfolding deduplicate_acls
deduplicate_acls-IsSorted rs =
    sort_by-IsSorted rule_before rule_before_total rule_before_trans (add_all rs [])

-- What the result of `deduplicate_acls` is for a list of rules.
pub record IsCanonical (rs out : List Rule) : Type 0 where
  pub members : SameMembers rs out
  pub distinct : IsDistinct out
  pub sorted : IsSorted rule_before out

deduplicate_acls-IsCanonical : (rs : List Rule) → IsCanonical rs (deduplicate_acls rs)
deduplicate_acls-IsCanonical rs = record {
  members = λ a. (λ m. mem-deduplicate_acls rs m, λ m. mem_of_mem-deduplicate_acls rs m);
  distinct = deduplicate_acls-IsDistinct rs;
  sorted = deduplicate_acls-IsSorted rs;
}

deduplicate_acls_unique :
    (rs out : List Rule) → All IsRanked rs → IsCanonical rs out → out ≡ deduplicate_acls rs
deduplicate_acls_unique rs out h c =
    let mine = deduplicate_acls-IsCanonical rs in
    let ranked = λ (x : Rule) (m : Memᴰ x out). All-at IsRanked rs h ((c.members x).1 m) in
    eq_of_SameMembers rule_before out (deduplicate_acls rs)
      (λ x y mx my p q. rule_before_antisym x y (ranked x mx) (ranked y my) p q)
      (λ a.
        (λ m. (mine.members a).0 ((c.members a).1 m), λ m. (c.members a).0 ((mine.members a).1 m)))
      c.sorted mine.sorted c.distinct mine.distinct

-- For rules with the priorities that the parser gives, `deduplicate_acls` gives the one list that is
-- sorted by priority, topic and type, has the given rules as its members and names each of them once;
-- so it does not depend on the order of the rules or on how often each one stands.
pub deduplicate_acls-IsCanonical_iff :
    (rs out : List Rule) → All IsRanked rs → IsCanonical rs out ↔ (out ≡ deduplicate_acls rs)
deduplicate_acls-IsCanonical_iff rs out h =
    (λ c. deduplicate_acls_unique rs out h c, λ e. rw e (deduplicate_acls-IsCanonical rs))
