-- ===== src/Common/Dicts.antt =====
-- Python's `dict` with text keys: its items in the order of insertion. An assignment to a key that
-- is there keeps the key's place.
use mathlib.Core.Path.{◌≡◌, refl}
use mathlib.Core.Logic.{inl, inr}
use mathlib.Core.Bool.{Bool, false, ◌||◌}
use mathlib.Core.Option.{Option, none, some}
use mathlib.Core.List.{List, [], ◌∷◌}
use native.Mathlib.Omega.{arith}
use mqtt_broker_stack.Common.Tests.{if◌then◌else◌, Bool-cases}
use mqtt_broker_stack.Common.Strings.{Text, ◌==◌, eq_iff}

abbrev pub Dict {ℓ} : Type ℓ → Type ℓ
Dict V = List (Text × V)

module _ {ℓ} {V : Type ℓ} where
  -- `d.get(k)`
  unfoldable pub get : Text → Dict V → Option V
  get k [] = none
  get k ((j, v) ∷ d) = if j == k then some v else get k d

  -- `d[k] = v`
  unfoldable pub put : Text → V → Dict V → Dict V
  put k v [] = (k, v) ∷ []
  put k v ((j, w) ∷ d) = let rest = (j, w) ∷ put k v d in if j == k then (j, v) ∷ d else rest

  -- `k in d`
  unfoldable pub has_key : Text → Dict V → Bool
  has_key k [] = false
  has_key k ((j, v) ∷ d) = j == k || has_key k d

  abbrev pub keys : Dict V → List Text
  keys [] = []
  keys ((k, v) ∷ d) = k ∷ keys d

  abbrev pub values : Dict V → List V
  values [] = []
  values ((k, v) ∷ d) = v ∷ values d

  pub get-put :
      (k j : Text) (v : V) (d : Dict V) → get j (put k v d) ≡ (if k == j then some v else get j d)
  unfolding get put
  get-put k j v [] = refl
  get-put k j v ((i, w) ∷ d) = ground (arith, eq_iff k j, eq_iff i k, eq_iff i j, get-put k j v d)

  pub has_key-put :
      (k j : Text) (v : V) (d : Dict V) → has_key j (put k v d) ≡ (k == j || has_key j d)
  unfolding has_key put
  has_key-put k j v [] = refl
  has_key-put k j v ((i, w) ∷ d) =
      ground (arith, eq_iff k j, eq_iff i k, eq_iff i j, has_key-put k j v d)

  -- A key is listed exactly if it has a value.
  pub get-eq-none_of_not-has_key : (k : Text) (d : Dict V) → has_key k d ≡ false → get k d ≡ none
  unfolding get has_key
  get-eq-none_of_not-has_key k [] h = refl
  get-eq-none_of_not-has_key k ((j, v) ∷ d) h = ground (arith, get-eq-none_of_not-has_key k d)

  -- The dict keeps each key once.
  abbrev pub HasUniqueKeys : Dict V → Type 0
  HasUniqueKeys [] = Unit
  HasUniqueKeys ((k, v) ∷ d) = (has_key k d ≡ false) × HasUniqueKeys d

  pub put-HasUniqueKeys :
      (k : Text) (v : V) (d : Dict V) → HasUniqueKeys d → HasUniqueKeys (put k v d)
  unfolding has_key put
  put-HasUniqueKeys k v [] h = (refl, tt)
  put-HasUniqueKeys k v ((j, w) ∷ d) h = elim (Bool-cases (j == k)) [
    | inl e ↦ rw e h
    | inr e ↦
        rw e
          (ground (arith, has_key-put k j v d, eq_iff k j, eq_iff j k), put-HasUniqueKeys k v d h.1)
  ]
