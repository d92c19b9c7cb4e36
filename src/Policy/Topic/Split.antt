-- ===== src/Policy/Topic/Split.antt =====
-- `str.split("/")` and `"/".join` by levels: the first level of a text, and what follows it.
use mqtt_broker_stack.Common.{
  ℕ, Text, codes, ◌≡◌, refl, ap, ◌∙◌, ◌⊎◌, Bool, false, ◌||◌, List, [], ◌∷◌, ◌++◌, arith, ◌==◌,
  eq_iff, All, nat_eq, if◌then◌else◌, Bool-cases, inl, inr, ends_with, split_on, join, append-nil,
}
use mqtt_broker_stack.Policy.Topic.{slash}
use mqtt_broker_stack.Policy.Topic.Filter.{NoSlash, NoNewline}

unfoldable pub first_level : Text → Text
first_level [] = []
first_level (c ∷ s) = let rest = first_level s in if nat_eq c slash then [] else c ∷ rest

unfoldable pub after_level : Text → Text
after_level [] = []
after_level (c ∷ s) = let rest = after_level s in if nat_eq c slash then c ∷ s else rest

abbrev pub split_rest : Text → List Text
split_rest [] = []
split_rest (c ∷ r) = split_on slash r

pub split_on-eq-cons : (s : Text) → split_on slash s ≡ first_level s ∷ split_rest (after_level s)
unfolding split_on first_level after_level
split_on-eq-cons [] = refl
split_on-eq-cons (c ∷ s) = ground (arith, split_on-eq-cons s)

-- What follows the first level is nothing or begins with a slash.
pub after_level_cases :
    (s : Text)
    → NoNewline s
    → (after_level s ≡ []) ⊎ ((r : Text) × (after_level s ≡ slash ∷ r) × NoNewline r)
unfolding after_level
after_level_cases [] h = inl refl
after_level_cases (c ∷ s) h = elim (Bool-cases (nat_eq c slash)) [
  | inl e ↦ inr (s, rw e (ground arith), h.1)
  | inr e ↦ rw e (after_level_cases s h.1)
]

pub split_on-NoSlash : (s : Text) → All NoSlash (split_on slash s)
unfolding split_on
split_on-NoSlash [] = (tt, tt)
split_on-NoSlash (c ∷ s) = elim (Bool-cases (nat_eq c slash)) [
  | inl e ↦ rw e (tt, split_on-NoSlash s)
  | inr e ↦
      rw (e, split_on-eq-cons s)
        (let h = rw (split_on-eq-cons s) at (split_on-NoSlash s) in ((e, h.0), h.1))
]

-- A text without a slash is its only level.
pub split_on_of_NoSlash : (s : Text) → NoSlash s → split_on slash s ≡ s ∷ []
unfolding split_on
split_on_of_NoSlash [] h = refl
split_on_of_NoSlash (c ∷ s) h = ground (arith, split_on_of_NoSlash s h.1)

split_on-append : (s t : Text) → NoSlash s → split_on slash (s ++ slash ∷ t) ≡ s ∷ split_on slash t
unfolding split_on
split_on-append [] t h = refl
split_on-append (c ∷ s) t h = ground (arith, split_on-append s t h.1)

-- Levels that hold no slash come back from `join` and `split`.
pub split_on-join :
    (l : Text) (ls : List Text)
    → All NoSlash (l ∷ ls)
    → split_on slash (join (codes "/") (l ∷ ls)) ≡ l ∷ ls
unfolding join
split_on-join l [] h = split_on_of_NoSlash l h.0
split_on-join l (m ∷ ls) h =
    split_on-append l (join (codes "/") (m ∷ ls)) h.0 ∙ ap (λ ms. l ∷ ms) (split_on-join m ls h.1)

-- Whether the last of at least two levels is "#".
unfoldable pub hash_tail : List Text → Bool
hash_tail [] = false
hash_tail (l ∷ []) = false
hash_tail (l ∷ m ∷ []) = m == codes "#"
hash_tail (l ∷ m ∷ n ∷ ls) = hash_tail (m ∷ n ∷ ls)

hash_tail-cons : (c : ℕ) (f : Text) (ls : List Text) → hash_tail ((c ∷ f) ∷ ls) ≡ hash_tail (f ∷ ls)
unfolding hash_tail
hash_tail-cons c f [] = refl
hash_tail-cons c f (m ∷ []) = refl
hash_tail-cons c f (m ∷ n ∷ ls) = refl

first_level-append-after_level : (s : Text) → s ≡ first_level s ++ after_level s
unfolding first_level after_level
first_level-append-after_level [] = refl
first_level-append-after_level (c ∷ s) = ground (arith, first_level-append-after_level s)

-- A slash in front makes a final "#" count.
hash_tail-nil :
    (s a : Text)
    → after_level s ≡ a
    → hash_tail ([] ∷ first_level s ∷ split_rest a)
      ≡ (s == codes "#" || hash_tail (first_level s ∷ split_rest a))
unfolding hash_tail
hash_tail-nil s [] e =
    let whole : s ≡ first_level s =
      first_level-append-after_level s ∙ ap (λ t. first_level s ++ t) e ∙ append-nil _ in
    ground (arith, eq_iff s (codes "#"), eq_iff (first_level s) (codes "#"))
hash_tail-nil s (d ∷ r) e = rw split_on-eq-cons (elim (Bool-cases (s == codes "#")) [
  | inl h ↦ absurd (not_hash (ap after_level ((eq_iff s (codes "#")).0 h)))
  | inr h ↦ rw h refl
])
  where
    not_hash : after_level s ≡ after_level (codes "#") → ⊥
    not_hash p = let q : after_level s ≡ [] = unfold after_level in p in cc (q, e)

-- The test `pattern.endswith("/#")` on levels.
pub ends_with-eq-hash_tail : (s : Text) → ends_with s (codes "/#") ≡ hash_tail (split_on slash s)
unfolding ends_with split_on ◌==◌
ends_with-eq-hash_tail [] = unfold hash_tail in refl
ends_with-eq-hash_tail (c ∷ s) =
    rw (ends_with-eq-hash_tail s, split_on-eq-cons s)
      (elim (Bool-cases (nat_eq c slash)) [
        | inl e ↦ ground (arith, hash_tail-nil s (after_level s) refl)
        | inr e ↦ ground (arith, hash_tail-cons c (first_level s) (split_rest (after_level s)))
      ])
