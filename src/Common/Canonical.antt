-- ===== src/Common/Canonical.antt =====
-- A list that is in order and names each item once is determined by its members.
use mathlib.Core.Path.{◌≡◌, refl, sym, ap₂, ◌∙◌}
use mathlib.Core.Logic.{◌≢◌, ◌↔◌, ◌⊎◌, inl, inr}
use mathlib.Core.Bool.{Bool, true, false}
use mathlib.Core.List.{List, [], ◌∷◌, Memᴰ}
use mqtt_broker_stack.Common.Tests.{if◌then◌else◌}
use mqtt_broker_stack.Common.Lists.{All, All-at}
use mqtt_broker_stack.Common.Sort.{insert_by, sort_by, IsSorted, All-insert_by, All-sort_by}

module _ {ℓ} {A : Type ℓ} where
  abbrev pub IsDistinct : List A → Type ℓ
  IsDistinct [] = Unit
  IsDistinct (x ∷ xs) = All (λ y. x ≢ y) xs × IsDistinct xs

  abbrev pub SameMembers : List A → List A → Type ℓ
  SameMembers xs ys = (a : A) → Memᴰ a xs ↔ Memᴰ a ys

  pub mem-cons_cases : {a x : A} {xs : List A} → Memᴰ a (x ∷ xs) → (a ≡ x) ⊎ Memᴰ a xs
  mem-cons_cases (Memᴰ.head e) = inl e
  mem-cons_cases (Memᴰ.tail m) = inr m

  module _ (before : A → A → Bool) where
    insert_by-IsDistinct :
        (x : A) (ys : List A)
        → All (λ y. x ≢ y) ys
        → IsDistinct ys
        → IsDistinct (insert_by before x ys)
    unfolding insert_by
    insert_by-IsDistinct x [] h d = (tt, tt)
    insert_by-IsDistinct x (y ∷ ys) h d =
        elim (before x y)
          as (λ b. IsDistinct (if b then x ∷ y ∷ ys else y ∷ insert_by before x ys)) [
            | true ↦ (h, d)
            | false ↦ (
              All-insert_by before (λ z. y ≢ z) x ys (λ e. h.0 (sym e)) d.0,
              insert_by-IsDistinct x ys h.1 d.1,
            )
          ]

    pub sort_by-IsDistinct : (xs : List A) → IsDistinct xs → IsDistinct (sort_by before xs)
    unfolding sort_by
    sort_by-IsDistinct [] d = tt
    sort_by-IsDistinct (x ∷ xs) d =
        insert_by-IsDistinct x (sort_by before xs) (All-sort_by before (λ y. x ≢ y) xs d.0)
          (sort_by-IsDistinct xs d.1)

    -- The order tells apart any two items of the lists.
    abbrev pub Separates : List A → Type ℓ
    Separates xs = (x y : A) → Memᴰ x xs → Memᴰ y xs → before x y ≡ true → before y x ≡ true → x ≡ y

    head-eq :
        (x y : A) (xs ys : List A)
        → Separates (x ∷ xs)
        → SameMembers (x ∷ xs) (y ∷ ys)
        → IsSorted before (x ∷ xs)
        → IsSorted before (y ∷ ys)
        → x ≡ y
    head-eq x y xs ys s m hx hy = elim (mem-cons_cases ((m x).0 (Memᴰ.head refl))) [
      | inl e ↦ e
      | inr mx ↦ elim (mem-cons_cases ((m y).1 (Memᴰ.head refl))) [
        | inl e ↦ sym e
        | inr my ↦
            s x y (Memᴰ.head refl) (Memᴰ.tail my) (All-at (λ z. before x z ≡ true) xs hx.0 my)
              (All-at (λ z. before y z ≡ true) ys hy.0 mx)
      ]
    ]

    tail_member :
        (a x y : A) (xs ys : List A)
        → x ≡ y
        → All (λ z. x ≢ z) xs
        → Memᴰ a xs
        → Memᴰ a (y ∷ ys)
        → Memᴰ a ys
    tail_member a x y xs ys e d m h = elim (mem-cons_cases h) [
      | inl f ↦ absurd (All-at (λ z. x ≢ z) xs d m (e ∙ sym f))
      | inr n ↦ n
    ]

    pub eq_of_SameMembers :
        (xs ys : List A)
        → Separates xs
        → SameMembers xs ys
        → IsSorted before xs
        → IsSorted before ys
        → IsDistinct xs
        → IsDistinct ys
        → xs ≡ ys
    eq_of_SameMembers [] [] s m hx hy dx dy = refl
    eq_of_SameMembers [] (y ∷ ys) s m hx hy dx dy = elim ((m y).1 (Memᴰ.head refl)) [ ]
    eq_of_SameMembers (x ∷ xs) [] s m hx hy dx dy = elim ((m x).0 (Memᴰ.head refl)) [ ]
    eq_of_SameMembers (x ∷ xs) (y ∷ ys) s m hx hy dx dy =
        let e = head-eq x y xs ys s m hx hy in
        ap₂ (λ z zs. z ∷ zs) e
          (eq_of_SameMembers xs ys (λ a b ma mb. s a b (Memᴰ.tail ma) (Memᴰ.tail mb))
            (λ a. (
              λ h. tail_member a x y xs ys e dx.0 h ((m a).0 (Memᴰ.tail h)),
              λ h. tail_member a y x ys xs (sym e) dy.0 h ((m a).1 (Memᴰ.tail h)),
            ))
            hx.1 hy.1 dx.1 dy.1)
