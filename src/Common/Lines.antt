-- ===== src/Common/Lines.antt =====
-- Python's `str` methods that split and trim text by white space and lines.
use Prim.Native.Nat.{ℕ}
use mathlib.Core.Bool.{Bool, ◌&&◌, ◌||◌, not}
use mathlib.Core.Option.{Option, none, some}
use mathlib.Core.List.{List, [], ◌∷◌}
use mqtt_broker_stack.Common.Tests.{if◌then◌else◌, nat_eq, leb}
use mqtt_broker_stack.Common.Lists.{is_empty, keep}
use mqtt_broker_stack.Common.Strings.{Text, starts_with, push_head}

abbrev within : ℕ → ℕ → ℕ → Bool
within low high c = leb low c && leb c high

-- `c.isspace()`
unfoldable pub is_space : ℕ → Bool
is_space c =
    within 9 13 c
    || within 28 32 c
    || nat_eq c 133
    || nat_eq c 160
    || nat_eq c 5760
    || within 8192 8202 c
    || within 8232 8233 c
    || nat_eq c 8239
    || nat_eq c 8287
    || nat_eq c 12288

-- A line ends at each of these for `splitlines`.
unfoldable pub is_line_break : ℕ → Bool
is_line_break c = within 10 13 c || within 28 30 c || nat_eq c 133 || within 8232 8233 c

unfoldable pub drop_spaces : Text → Text
drop_spaces [] = []
drop_spaces (c ∷ s) = let rest = drop_spaces s in if is_space c then rest else c ∷ s

unfoldable pub trim_end : Text → Text
trim_end [] = []
trim_end (c ∷ s) = let rest = trim_end s in if is_space c && is_empty rest then [] else c ∷ rest

-- `s.strip()`
unfoldable pub strip : Text → Text
unfolding drop_spaces trim_end is_space
strip s = trim_end (drop_spaces s)

unfoldable pub split_where : (ℕ → Bool) → Text → List Text
split_where p [] = [] ∷ []
split_where p (c ∷ s) = let rest = split_where p s in if p c then [] ∷ rest else push_head c rest

-- `s.split()`
unfoldable pub split_words : Text → List Text
unfolding split_where is_space
split_words s = keep (λ w. not (is_empty w)) (split_where is_space s)

-- `s.splitlines()`; a carriage return before a line feed is part of one line end.
unfoldable pub splitlines : Text → List Text
unfolding is_line_break starts_with
splitlines [] = []
splitlines (c ∷ s) =
    let rest = splitlines s in
    if nat_eq c 13 && starts_with s (10 ∷ [])
    then rest
    else if is_line_break c
    then [] ∷ rest
    else push_head c rest

-- The lines of a file that is opened with `newline=""`, each with its line end.
unfoldable pub file_lines : Text → List Text
unfolding starts_with
file_lines [] = []
file_lines (c ∷ s) =
    let rest = file_lines s in
    if nat_eq c 10 || (nat_eq c 13 && not (starts_with s (10 ∷ [])))
    then (c ∷ []) ∷ rest
    else push_head c rest

abbrev push_left : ℕ → Option (Text × Text) → Option (Text × Text)
push_left c none = none
push_left c (some (a, b)) = some (c ∷ a, b)

-- `s.split(sep, 1)` for one separator character, or `none` if it is not there.
unfoldable pub split_once : ℕ → Text → Option (Text × Text)
split_once sep [] = none
split_once sep (c ∷ s) =
    let rest = push_left c (split_once sep s) in if nat_eq c sep then some ([], s) else rest
