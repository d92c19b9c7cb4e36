-- ===== src/Policy/Topic.antt =====
-- `topic_matches` of admin-api/app/policy.py: the expansion of %u and %c, the `$` boundary, and the
-- regular expression that a filter becomes, with Python's meaning of `re.match`.
pub mod Filter
mod Split
mod Expression
pub mod Matching
pub mod Laws
mod Tests
use mqtt_broker_stack.Common.{
  ℕ, Text, codes, Bool, true, false, ◌&&◌, ◌||◌, not, Option, none, some, List, [], ◌∷◌, ◌==◌,
  nat_eq, is_empty, if◌then◌else◌, starts_with, ends_with, strip_prefix, split_on, join,
}

abbrev pub slash : ℕ
slash = b'/'

abbrev pub newline : ℕ
newline = 10

abbrev cons_level : Text → Option (List Text) → Option (List Text)
cons_level l none = none
cons_level l (some ls) = some (l ∷ ls)

-- The loop over `levels`; `none` is its `return False`.
unfoldable pub expand_levels : Text → Text → List Text → Option (List Text)
expand_levels username clientid [] = some []
expand_levels username clientid (level ∷ levels) =
    let rest = expand_levels username clientid levels in
    if level == codes "%u"
    then (if is_empty username then none else cons_level username rest)
    else if level == codes "%c"
    then (if is_empty clientid then none else cons_level clientid rest)
    else cons_level level rest

-- The parts that the expression is joined from. `tail` is what replaces a final "/.*".
pub data Piece : Type 0 where
  anything : Piece
  one_level : Piece
  escaped : Text → Piece
  separator : Piece
  tail : Piece

-- ".*", "[^/]+" or `re.escape(level)`
abbrev pub level_piece : Text → Piece
level_piece level =
    if level == codes "#" then anything else if level == codes "+" then one_level else escaped level

-- `"/".join(...)` of the pieces
unfoldable pub join_pieces : List Text → List Piece
join_pieces [] = []
join_pieces (l ∷ []) = level_piece l ∷ []
join_pieces (l ∷ m ∷ ls) = level_piece l ∷ separator ∷ join_pieces (m ∷ ls)

-- `expression.replace("/.*$", "(?:/.*)?$")`: the `$` stands only at the end.
unfoldable pub replace_tail : List Piece → List Piece
replace_tail [] = []
replace_tail (separator ∷ anything ∷ []) = tail ∷ []
replace_tail (p ∷ ps) = p ∷ replace_tail ps

unfoldable pub topic_expression : Text → List Piece
unfolding join_pieces replace_tail
topic_expression pattern =
    let pieces = join_pieces (split_on slash pattern) in
    if ends_with pattern (codes "/#") then replace_tail pieces else pieces

-- `$` matches at the end and before a final newline.
abbrev pub at_end : Text → Bool
at_end [] = true
at_end (c ∷ []) = nat_eq c newline
at_end (c ∷ d ∷ s) = false

-- ".*" followed by `k`: the dot takes no newline.
unfoldable pub any_then : (Text → Bool) → Text → Bool
any_then k [] = k []
any_then k (c ∷ s) = k (c ∷ s) || (not (nat_eq c newline) && any_then k s)

-- "[^/]*" followed by `k`
unfoldable pub level_then : (Text → Bool) → Text → Bool
level_then k [] = k []
level_then k (c ∷ s) = k (c ∷ s) || (not (nat_eq c slash) && level_then k s)

abbrev pub level_plus_then : (Text → Bool) → Text → Bool
level_plus_then k [] = false
level_plus_then k (c ∷ s) = not (nat_eq c slash) && level_then k s

abbrev pub slash_then : (Text → Bool) → Text → Bool
slash_then k [] = false
slash_then k (c ∷ s) = nat_eq c slash && k s

abbrev pub rest_then : (Text → Bool) → Option Text → Bool
rest_then k none = false
rest_then k (some s) = k s

-- `re.match(expression, topic) is not None`: some way of matching exists.
unfoldable pub matches : List Piece → Text → Bool
unfolding any_then level_then strip_prefix
matches [] s = at_end s
matches (anything ∷ ps) s = any_then (matches ps) s
matches (one_level ∷ ps) s = level_plus_then (matches ps) s
matches (escaped t ∷ ps) s = rest_then (matches ps) (strip_prefix t s)
matches (separator ∷ ps) s = slash_then (matches ps) s
matches (tail ∷ ps) s = matches ps s || slash_then (any_then (matches ps)) s

-- What follows the expansion in `topic_matches`.
unfoldable pub matches_expanded : Text → Text → Bool → Bool
unfolding matches topic_expression
matches_expanded pattern topic literal =
    if starts_with topic (codes "$") && not (starts_with pattern (codes "$"))
    then false
    else if literal
    then pattern == topic
    else matches (topic_expression pattern) topic

abbrev matches_levels : Text → Bool → Option (List Text) → Bool
matches_levels topic literal none = false
matches_levels topic literal (some levels) =
    matches_expanded (join (codes "/") levels) topic literal

unfoldable pub topic_matches : Text → Text → Text → Text → Bool → Bool
unfolding expand_levels matches_expanded
topic_matches pattern topic username clientid literal =
    matches_levels topic literal (expand_levels username clientid (split_on slash pattern))
