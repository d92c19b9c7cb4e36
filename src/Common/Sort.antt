-- ===== src/Common/Sort.antt =====
-- Python's stable `sorted` for an order test: insertion of each item before the first that is
-- not smaller.
use mathlib.Core.Path.{◌≡◌, refl}
use mathlib.Core.Logic.{inl, inr}
use mathlib.Core.Bool.{Bool, true, false}
use mathlib.Core.List.{List, [], ◌∷◌, Memᴰ}
use mqtt_broker_stack.Common.Tests.{if◌then◌else◌, Bool-cases}
use mqtt_broker_stack.Common.Lists.{All, All-at, All-of_mem}

module _ {ℓ} {A : Type ℓ} (before : A → A → Bool) where
  unfoldable pub insert_by : A → List A → List A
  insert_by x [] = x ∷ []
  insert_by x (y ∷ ys) = let later = y ∷ insert_by x ys in if before x y then x ∷ y ∷ ys else later

  unfoldable pub sort_by : List A → List A
  unfolding insert_by
  sort_by [] = []
  sort_by (x ∷ xs) = insert_by x (sort_by xs)

  -- Every item stands before all that follow it.
  abbrev pub IsSorted : List A → Type ℓ
  IsSorted [] = Unit
  IsSorted (x ∷ xs) = All (λ y. before x y ≡ true) xs × IsSorted xs

  insert_by_cases {κ} :
      (P : List A → Type κ) (x y : A) (ys : List A)
      → (before x y ≡ true → P (x ∷ y ∷ ys))
      → (before x y ≡ false → P (y ∷ insert_by x ys))
      → P (insert_by x (y ∷ ys))
  unfolding insert_by
  insert_by_cases P x y ys f g = elim (Bool-cases (before x y)) [
    | inl e ↦ rw e (f e)
    | inr e ↦ rw e (g e)
  ]

  module _ {κ} (P : A → Type κ) where
    pub All-insert_by : (x : A) (ys : List A) → P x → All P ys → All P (insert_by x ys)
    unfolding insert_by
    All-insert_by x [] p h = (p, tt)
    All-insert_by x (y ∷ ys) p h =
        insert_by_cases (All P) x y ys (λ _. (p, h)) (λ _. (h.0, All-insert_by x ys p h.1))

    All-of_insert_by : (x : A) (ys : List A) → All P (insert_by x ys) → P x × All P ys
    unfolding insert_by
    All-of_insert_by x [] h = h
    All-of_insert_by x (y ∷ ys) h =
        insert_by_cases (λ l. All P l → P x × All P (y ∷ ys)) x y ys (λ _ h'. h')
          (λ _ h'. let (p, rest) = All-of_insert_by x ys h'.1 in (p, (h'.0, rest))) h

    pub All-sort_by : (xs : List A) → All P xs → All P (sort_by xs)
    unfolding sort_by
    All-sort_by [] h = h
    All-sort_by (x ∷ xs) (p, h) = All-insert_by x (sort_by xs) p (All-sort_by xs h)

    pub All-of_sort_by : (xs : List A) → All P (sort_by xs) → All P xs
    unfolding sort_by
    All-of_sort_by [] h = h
    All-of_sort_by (x ∷ xs) h =
        let (p, rest) = All-of_insert_by x (sort_by xs) h in (p, All-of_sort_by xs rest)

  -- Sorting keeps the items.
  pub mem_of_mem-sort_by : {a : A} (xs : List A) → Memᴰ a (sort_by xs) → Memᴰ a xs
  mem_of_mem-sort_by xs m =
      All-at (λ a. Memᴰ a xs) (sort_by xs)
        (All-sort_by (λ a. Memᴰ a xs) xs (All-of_mem (λ a. Memᴰ a xs) xs (λ a h. h))) m

  pub mem-sort_by : {a : A} (xs : List A) → Memᴰ a xs → Memᴰ a (sort_by xs)
  mem-sort_by xs m =
      All-at (λ a. Memᴰ a (sort_by xs)) xs
        (All-of_sort_by (λ a. Memᴰ a (sort_by xs)) xs
          (All-of_mem (λ a. Memᴰ a (sort_by xs)) (sort_by xs) (λ a h. h)))
        m

  insert_by-eq_cons :
      (x : A) (ys : List A) → All (λ y. before x y ≡ true) ys → insert_by x ys ≡ x ∷ ys
  unfolding insert_by
  insert_by-eq_cons x [] h = refl
  insert_by-eq_cons x (y ∷ ys) h = rw h.0 refl

  -- A list in order is left as it is.
  pub sort_by-eq_self : (xs : List A) → IsSorted xs → sort_by xs ≡ xs
  unfolding sort_by
  sort_by-eq_self [] s = refl
  sort_by-eq_self (x ∷ xs) s = rw (sort_by-eq_self xs s.1) (insert_by-eq_cons x xs s.0)

  module _ (before_total : (x y : A) → before x y ≡ false → before y x ≡ true)
      (before_trans : (x y z : A) → before x y ≡ true → before y z ≡ true → before x z ≡ true) where
    All-before :
        (x y : A) (ys : List A)
        → before x y ≡ true
        → All (λ z. before y z ≡ true) ys
        → All (λ z. before x z ≡ true) ys
    All-before x y [] e h = tt
    All-before x y (z ∷ zs) e (p, h) = (before_trans x y z e p, All-before x y zs e h)

    insert_by-IsSorted : (x : A) (ys : List A) → IsSorted ys → IsSorted (insert_by x ys)
    unfolding insert_by
    insert_by-IsSorted x [] h = (tt, tt)
    insert_by-IsSorted x (y ∷ ys) (p, h) =
        insert_by_cases IsSorted x y ys (λ e. ((e, All-before x y ys e p), (p, h)))
          (λ e. (
            All-insert_by (λ z. before y z ≡ true) x ys (before_total x y e) p,
            insert_by-IsSorted x ys h,
          ))

    -- The result is in order.
    pub sort_by-IsSorted : (xs : List A) → IsSorted (sort_by xs)
    unfolding sort_by
    sort_by-IsSorted [] = tt
    sort_by-IsSorted (x ∷ xs) = insert_by-IsSorted x (sort_by xs) (sort_by-IsSorted xs)
