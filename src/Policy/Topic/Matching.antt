-- ===== src/Policy/Topic/Matching.antt =====
-- What policy.py's `topic_matches` decides: the filter relation on levels, behind the `$` boundary.
use mqtt_broker_stack.Common.{
  ℕ, nat_eq, sym, Text, codes, ◌≡◌, refl, ap, ◌∙◌, true, false, ◌&&◌, List, [], ◌∷◌, arith, ◌==◌,
  All, Bool-cases, inl, inr, split_on,
}
use mqtt_broker_stack.Policy.Topic.{
  slash, newline, level_piece, separator, tail, at_end, matches, topic_expression,
}
use mqtt_broker_stack.Policy.Topic.Filter.{level_fits, fits, IsFilter, NoSlash, NoNewline}
use mqtt_broker_stack.Policy.Topic.Split.{
  first_level, after_level, split_rest, split_on-eq-cons, after_level_cases, split_on-NoSlash,
}
use mqtt_broker_stack.Policy.Topic.Expression.{
  pieces, topic_expression-eq-pieces, matches-level, any_then-at_end,
}

-- After the last level the topic must be at its end.
end_of_topic :
    (s : Text) → NoNewline s → matches [] (after_level s) ≡ fits [] (split_rest (after_level s))
unfolding matches fits
end_of_topic s n = elim (after_level_cases s n) [
  | inl e ↦ rw e
  | inr (r, e, m) ↦ rw (e, split_on-eq-cons r) (slash_not_end r)
]
  where
    slash_not_end : (r : Text) → at_end (slash ∷ r) ≡ false
    slash_not_end [] = refl
    slash_not_end (c ∷ r) = refl

-- "/#" at the end takes what is left.
tail_of_topic :
    (m s : Text)
    → NoNewline s
    → m == codes "#" ≡ true
    → (matches (tail ∷ []) (after_level s) ≡ true)
      × (fits (m ∷ []) (split_rest (after_level s)) ≡ true)
unfolding matches fits
tail_of_topic m s n h = elim (after_level_cases s n) [
  | inl e ↦ rw e (refl, h)
  | inr (r, e, nr) ↦ rw (e, split_on-eq-cons r, h) (ground (arith, any_then-at_end r nr), refl)
]

-- A slash, and then the levels that are left.
separator_of_topic :
    (m : Text) (ls : List Text) (s : Text)
    → m == codes "#" ≡ false
    → NoNewline s
    → ((r : Text) → NoNewline r → matches (pieces (m ∷ ls)) r ≡ fits (m ∷ ls) (split_on slash r))
    → matches (separator ∷ pieces (m ∷ ls)) (after_level s)
      ≡ fits (m ∷ ls) (split_rest (after_level s))
separator_of_topic m ls s h n ih = elim (after_level_cases s n) [
  | inl e ↦ rw e (unfold matches fits in rw h refl)
  | inr (r, e, nr) ↦ rw e (unfold matches in rw (ih r nr) refl)
]

first_of_levels :
    (l : Text) (ls : List Text) (s : Text)
    → l == codes "#" ≡ false
    → fits (l ∷ ls) (split_on slash s)
      ≡ (level_fits l (first_level s) && fits ls (split_rest (after_level s)))
first_of_levels l ls s f = rw split_on-eq-cons (unfold fits in rw f refl)

-- A last level.
last_level :
    (l s : Text)
    → NoSlash l
    → NoNewline s
    → matches (pieces (l ∷ [])) s ≡ fits (l ∷ []) (split_on slash s)
last_level l s ns n = elim (Bool-cases (l == codes "#")) [
  | inl e ↦ rw split_on-eq-cons (unfold pieces matches fits in rw e (any_then-at_end s n))
  | inr e ↦ rw (first_of_levels l [] s e) (
      unfold pieces in
      (matches-level l s [] e ns n stops
        ∙ ap (λ b. level_fits l (first_level s) && b) (end_of_topic s n)))
]
  where
    stops :
        (c : ℕ) (t : Text)
        → nat_eq c slash ≡ false
        → nat_eq c newline ≡ false
        → matches [] (c ∷ t) ≡ false
    stops c [] p q = unfold matches in q
    stops c (d ∷ t) p q = unfold matches in refl

-- A level before a final "#".
level_before_hash :
    (l m s : Text)
    → m == codes "#" ≡ true
    → l == codes "#" ≡ false
    → NoSlash l
    → NoNewline s
    → matches (pieces (l ∷ m ∷ [])) s ≡ fits (l ∷ m ∷ []) (split_on slash s)
level_before_hash l m s h f ns n =
    let both = tail_of_topic m s n h in
    rw (first_of_levels l (m ∷ []) s f) (
      unfold pieces in
      rw h (
        matches-level l s (tail ∷ []) f ns n stops
        ∙ ap (λ b. level_fits l (first_level s) && b) (both.0 ∙ sym both.1)))
  where
    stops :
        (c : ℕ) (t : Text)
        → nat_eq c slash ≡ false
        → nat_eq c newline ≡ false
        → matches (tail ∷ []) (c ∷ t) ≡ false
    stops c [] p q = unfold matches in ground arith
    stops c (d ∷ t) p q = unfold matches in ground arith

-- Any other level that is not the last.
inner_level :
    (l m : Text) (ls : List Text) (s : Text)
    → m == codes "#" ≡ false
    → l == codes "#" ≡ false
    → NoSlash l
    → NoNewline s
    → ((r : Text) → NoNewline r → matches (pieces (m ∷ ls)) r ≡ fits (m ∷ ls) (split_on slash r))
    → matches (level_piece l ∷ separator ∷ pieces (m ∷ ls)) s ≡ fits (l ∷ m ∷ ls) (split_on slash s)
inner_level l m ls s h f ns n ih = rw (first_of_levels l (m ∷ ls) s f) (
    matches-level l s (separator ∷ pieces (m ∷ ls)) f ns n (λ c t p q. unfold matches in rw p refl)
    ∙ ap (λ b. level_fits l (first_level s) && b) (separator_of_topic m ls s h n ih))

matches-pieces :
    (l : Text) (ls : List Text) (s : Text)
    → IsFilter (l ∷ ls)
    → All NoSlash (l ∷ ls)
    → NoNewline s
    → matches (pieces (l ∷ ls)) s ≡ fits (l ∷ ls) (split_on slash s)
unfolding pieces
matches-pieces l [] s f ns n = last_level l s ns.0 n
matches-pieces l (m ∷ []) s f ns n = elim (Bool-cases (m == codes "#")) [
  | inl h ↦ level_before_hash l m s h f.0 ns.0 n
  | inr h ↦
      let whole = inner_level l m [] s h f.0 ns.0 n (λ r nr. matches-pieces m [] r tt ns.1 nr) in
      rw h (rw h at whole)
]
matches-pieces l (m ∷ k ∷ ls) s f ns n =
    let whole =
      inner_level l m (k ∷ ls) s f.1.0 f.0 ns.0 n
        (λ r nr. matches-pieces m (k ∷ ls) r f.1 ns.1 nr) in
    whole

-- On filters, and topics without a newline, the regular expression decides the filter relation.
pub matches-topic_expression :
    (p s : Text)
    → IsFilter (split_on slash p)
    → NoNewline s
    → matches (topic_expression p) s ≡ fits (split_on slash p) (split_on slash s)
matches-topic_expression p s f n = rw (topic_expression-eq-pieces p f) (
    let ns = split_on-NoSlash p in
    rw split_on-eq-cons
      (matches-pieces _ _ s (rw split_on-eq-cons at f) (rw split_on-eq-cons at ns) n))
