-- ===== src/Policy/Topic/Expression.antt =====
-- The regular expression of policy.py's `topic_matches`, taken level by level.
use mqtt_broker_stack.Common.{
  ℕ, Text, codes, ◌≡◌, refl, Bool, true, false, ◌&&◌, not, List, [], ◌∷◌, arith, ◌==◌, nat_eq,
  is_empty, if◌then◌else◌, Bool-cases, inl, inr, strip_prefix, split_on,
}
use mqtt_broker_stack.Policy.Topic.{
  slash, newline, Piece, separator, tail, level_piece, join_pieces, replace_tail, topic_expression,
  at_end, any_then, level_then, level_plus_then, rest_then, matches,
}
use mqtt_broker_stack.Policy.Topic.Filter.{level_fits, IsFilter, NoSlash, NoNewline}
use mqtt_broker_stack.Policy.Topic.Split.{
  first_level, after_level, hash_tail, ends_with-eq-hash_tail,
}

-- The pieces of a filter, built directly.
abbrev pub final_pieces : Bool → Text → List Text → List Piece → List Piece
final_pieces h l [] more = if h then level_piece l ∷ tail ∷ [] else level_piece l ∷ separator ∷ more
final_pieces h l (n ∷ ls) more = level_piece l ∷ separator ∷ more

unfoldable pub pieces : List Text → List Piece
pieces [] = []
pieces (l ∷ []) = level_piece l ∷ []
pieces (l ∷ m ∷ ls) = final_pieces (m == codes "#") l ls (pieces (m ∷ ls))

join_pieces-eq-pieces : (ls : List Text) → hash_tail ls ≡ false → join_pieces ls ≡ pieces ls
unfolding join_pieces pieces hash_tail
join_pieces-eq-pieces [] h = refl
join_pieces-eq-pieces (l ∷ []) h = refl
join_pieces-eq-pieces (l ∷ m ∷ []) h = rw h refl
join_pieces-eq-pieces (l ∷ m ∷ n ∷ ls) h = rw (join_pieces-eq-pieces (m ∷ n ∷ ls) h) refl

replace_tail-level :
    (l : Text) (p q : Piece) (ps : List Piece)
    → l == codes "#" ≡ false
    → replace_tail (level_piece l ∷ separator ∷ p ∷ q ∷ ps)
      ≡ level_piece l ∷ separator ∷ replace_tail (p ∷ q ∷ ps)
unfolding replace_tail
replace_tail-level l p q ps h = ground arith

replace_tail-pieces :
    (ls : List Text) → IsFilter ls → hash_tail ls ≡ true → replace_tail (join_pieces ls) ≡ pieces ls
unfolding join_pieces pieces hash_tail
replace_tail-pieces [] f h = cc
replace_tail-pieces (l ∷ []) f h = cc
replace_tail-pieces (l ∷ m ∷ []) f h = unfold replace_tail in ground arith
replace_tail-pieces (l ∷ m ∷ n ∷ []) f h =
    rw (replace_tail-level l _ _ _ f.0, replace_tail-pieces (m ∷ n ∷ []) f.1 h) refl
replace_tail-pieces (l ∷ m ∷ n ∷ o ∷ ls) f h =
    rw (replace_tail-level l _ _ _ f.0, replace_tail-pieces (m ∷ n ∷ o ∷ ls) f.1 h) refl

pub topic_expression-eq-pieces :
    (p : Text) → IsFilter (split_on slash p) → topic_expression p ≡ pieces (split_on slash p)
unfolding topic_expression
topic_expression-eq-pieces p f =
    rw (ends_with-eq-hash_tail p) (elim (Bool-cases (hash_tail (split_on slash p))) [
      | inl h ↦ rw h (replace_tail-pieces _ f h)
      | inr h ↦ rw h (join_pieces-eq-pieces _ h)
    ])

-- A test that fails inside a level.
abbrev pub StopsInside : (Text → Bool) → Type 0
StopsInside k =
    (c : ℕ) (s : Text) → nat_eq c slash ≡ false → nat_eq c newline ≡ false → k (c ∷ s) ≡ false

literal_level :
    (k : Text → Bool) (l s : Text)
    → StopsInside k
    → NoSlash l
    → NoNewline s
    → rest_then k (strip_prefix l s) ≡ ((l == first_level s) && k (after_level s))
unfolding strip_prefix first_level after_level ◌==◌
literal_level k [] [] b h n = refl
literal_level k [] (c ∷ s) b h n = ground (arith, b c s)
literal_level k (a ∷ l) [] b h n = refl
literal_level k (a ∷ l) (c ∷ s) b h n = ground (arith, literal_level k l s b)

rest_of_level :
    (k : Text → Bool) (s : Text) → StopsInside k → NoNewline s → level_then k s ≡ k (after_level s)
unfolding level_then after_level
rest_of_level k [] b n = refl
rest_of_level k (c ∷ s) b n = ground (arith, b c s, rest_of_level k s b)

plus_level :
    (k : Text → Bool) (s : Text)
    → StopsInside k
    → NoNewline s
    → level_plus_then k s ≡ (not (is_empty (first_level s)) && k (after_level s))
unfolding first_level after_level
plus_level k [] b n = refl
plus_level k (c ∷ s) b n = ground (arith, rest_of_level k s b)

-- One level of the filter against one level of the topic.
pub matches-level :
    (l s : Text) (ps : List Piece)
    → l == codes "#" ≡ false
    → NoSlash l
    → NoNewline s
    → StopsInside (matches ps)
    → matches (level_piece l ∷ ps) s ≡ (level_fits l (first_level s) && matches ps (after_level s))
unfolding matches level_fits
matches-level l s ps h ns n b = rw h (elim (Bool-cases (l == codes "+")) [
  | inl e ↦ rw e (plus_level (matches ps) s b n)
  | inr e ↦ rw e (literal_level (matches ps) l s b ns n)
])

pub any_then-at_end : (s : Text) → NoNewline s → any_then at_end s ≡ true
unfolding any_then
any_then-at_end [] n = refl
any_then-at_end (c ∷ s) n = ground (arith, any_then-at_end s n.1)
