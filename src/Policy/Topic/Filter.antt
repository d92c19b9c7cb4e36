-- ===== src/Policy/Topic/Filter.antt =====
-- An independent description of topic filters, on levels: what policy.py's `topic_matches` is compared
-- with. As in MQTT, a level "+" stands for one level, which may be empty, and a final "#" for any number
-- of levels, none included.
use mqtt_broker_stack.Common.{
  refl, inl, inr, Bool-cases, arith, Text, codes, Bool, true, false, ◌≡◌, ◌&&◌, ◌||◌, not, List, [],
  ◌∷◌, ◌==◌, All, nat_eq, is_empty, if◌then◌else◌,
}
use mqtt_broker_stack.Policy.Topic.{slash, newline}

unfoldable pub level_accepts : Text → Text → Bool
level_accepts f t = f == codes "+" || f == t

unfoldable pub accepts : List Text → List Text → Bool
unfolding level_accepts
accepts [] [] = true
accepts [] (t ∷ ts) = false
accepts (f ∷ fs) [] = f == codes "#"
accepts (f ∷ fs) (t ∷ ts) = f == codes "#" || (level_accepts f t && accepts fs ts)

-- Before a final "#", some level "+" of the filter stands against an empty level.
unfoldable pub meets_empty : List Text → List Text → Bool
meets_empty [] ts = false
meets_empty (f ∷ fs) [] = false
meets_empty (f ∷ fs) (t ∷ ts) =
    not (f == codes "#") && ((f == codes "+" && is_empty t) || meets_empty fs ts)

-- The filters of policy.py, where "+" stands for one level that is not empty.
unfoldable pub level_fits : Text → Text → Bool
level_fits f t = if f == codes "+" then not (is_empty t) else f == t

unfoldable pub fits : List Text → List Text → Bool
fits [] [] = true
fits [] (t ∷ ts) = false
fits (f ∷ fs) [] = f == codes "#"
fits (f ∷ fs) (t ∷ ts) = f == codes "#" || (level_fits f t && fits fs ts)

pub fits-accepts : (fs ts : List Text) → fits fs ts ≡ (accepts fs ts && not (meets_empty fs ts))
unfolding fits level_fits accepts meets_empty
fits-accepts [] [] = refl
fits-accepts [] (t ∷ ts) = refl
fits-accepts (f ∷ fs) [] = ground arith
fits-accepts (f ∷ fs) (t ∷ ts) = elim (Bool-cases (f == codes "#")) [
  | inl h ↦ rw h refl
  | inr h ↦ ground (arith, fits-accepts fs ts)
]

-- "#" stands only at the end.
abbrev pub IsFilter : List Text → Type 0
IsFilter [] = Unit
IsFilter (f ∷ []) = Unit
IsFilter (f ∷ g ∷ fs) = (f == codes "#" ≡ false) × IsFilter (g ∷ fs)

abbrev pub NoSlash : Text → Type 0
NoSlash = All (λ c. nat_eq c slash ≡ false)

abbrev pub NoNewline : Text → Type 0
NoNewline = All (λ c. nat_eq c newline ≡ false)
