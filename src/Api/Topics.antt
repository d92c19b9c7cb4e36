-- ===== src/Api/Topics.antt =====
-- The validation of a topic filter in admin-api/app/schemas.py, `ACLCreate.validate_topic`.
use mqtt_broker_stack.Common.{
  Text, codes, ◌≡◌, refl, ◌⊎◌, inl, inr, Bool, true, false, ◌&&◌, ◌||◌, not, Option, none, some,
  List, [], ◌∷◌, ◌==◌, eq_iff, one_of, contains, split_on, is_empty, All, if◌then◌else◌, Bool-cases,
  arith,
}
use mqtt_broker_stack.Policy.Topic.{slash}
use mqtt_broker_stack.Policy.Topic.Filter.{IsFilter}

-- The message of the `ValueError` that a level raises, if any; `last` tells whether it is the last one.
unfoldable pub level_error : Text → Bool → Option Text
level_error level last =
    if contains level (codes "#") && (not (level == codes "#") || not last)
    then some (codes "# must occupy the final topic level")
    else if contains level (codes "+") && not (level == codes "+")
    then some (codes "+ must occupy an entire topic level")
    else if (contains level (codes "%u") || contains level (codes "%c"))
        && not (one_of level (codes "%u" ∷ codes "%c" ∷ []))
    then some (codes "%u and %c must occupy an entire topic level")
    else none

abbrev pub first_error : Option Text → Option Text → Option Text
first_error none later = later
first_error (some t) later = some t

unfoldable pub levels_error : List Text → Option Text
levels_error [] = none
levels_error (l ∷ ls) = first_error (level_error l (is_empty ls)) (levels_error ls)

-- `none` when the topic is accepted.
unfoldable pub validate_topic : Text → Option Text
validate_topic value =
    if contains value (0 ∷ []) || contains value (codes "//")
    then some (codes "topic filter contains an invalid level")
    else levels_error (split_on slash value)

-- A level in which no wildcard or placeholder stands beside anything else.
pub record IsWholeLevel (l : Text) : Type 0 where
  pub hash : (contains l (codes "#") ≡ false) ⊎ (l ≡ codes "#")
  pub plus : (contains l (codes "+") ≡ false) ⊎ (l ≡ codes "+")
  pub placeholder :
      ((contains l (codes "%u") ≡ false) × (contains l (codes "%c") ≡ false))
      ⊎ ((l ≡ codes "%u") ⊎ (l ≡ codes "%c"))

level_error-IsWholeLevel : (l : Text) (last : Bool) → level_error l last ≡ none → IsWholeLevel l
unfolding level_error
level_error-IsWholeLevel l last e = record {
  hash = elim (Bool-cases (contains l (codes "#"))) [
    | inl t ↦ inr ((eq_iff l (codes "#")).0 (ground arith))
    | inr f ↦ inl f
  ];
  plus = elim (Bool-cases (contains l (codes "+"))) [
    | inl t ↦ inr ((eq_iff l (codes "+")).0 (ground arith))
    | inr f ↦ inl f
  ];
  placeholder = elim (Bool-cases (l == codes "%u")) [
    | inl t ↦ inr (inl ((eq_iff l (codes "%u")).0 t))
    | inr n ↦ elim (Bool-cases (l == codes "%c")) [
      | inl t ↦ inr (inr ((eq_iff l (codes "%c")).0 t))
      | inr m ↦ inl (ground arith, ground arith)
    ]
  ];
}

level_error-hash : (l : Text) → level_error l false ≡ none → l == codes "#" ≡ false
unfolding level_error
level_error-hash l e = elim (Bool-cases (l == codes "#")) [
  | inl t ↦
      let has : contains l (codes "#") ≡ true =
        rw ((eq_iff l (codes "#")).0 t) (unfold contains in refl) in
      ground arith
  | inr n ↦ n
]

first_error-none : (a b : Option Text) → first_error a b ≡ none → (a ≡ none) × (b ≡ none)
first_error-none none b e = (refl, e)
first_error-none (some t) b e = ground arith

levels_error-IsFilter :
    (ls : List Text) → levels_error ls ≡ none → IsFilter ls × All IsWholeLevel ls
unfolding levels_error
levels_error-IsFilter [] e = (tt, tt)
levels_error-IsFilter (l ∷ []) e =
    (tt, (level_error-IsWholeLevel l true (first_error-none (level_error l true) none e).0, tt))
levels_error-IsFilter (l ∷ m ∷ ls) e =
    let (here, later) = first_error-none (level_error l false) (levels_error (m ∷ ls)) e in
    let (filter, whole) = levels_error-IsFilter (m ∷ ls) later in
    ((level_error-hash l here, filter), (level_error-IsWholeLevel l false here, whole))

-- If `validate_topic` accepts a topic, it is a well-formed filter: "#" stands only as the last level,
-- and no "#", "+", "%u" or "%c" shares its level with anything else.
pub validate_topic-IsFilter :
    (value : Text)
    → validate_topic value ≡ none
    → IsFilter (split_on slash value) × All IsWholeLevel (split_on slash value)
unfolding validate_topic
validate_topic-IsFilter value e = levels_error-IsFilter (split_on slash value) (ground arith)
