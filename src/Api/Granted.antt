-- ===== src/Api/Granted.antt =====
-- Which role an operator gets from the claims of OpenID Connect, in the callback of Oidc.
use mqtt_broker_stack.Common.{
  ℕ, ◌≤◌, Text, codes, ◌≡◌, refl, subst, sym, ap, ◌∙◌, ◌⊎◌, inl, inr, Bool, true, false, Option,
  none, some, ◌==◌, eq_iff, eq_refl, Bool-cases, Option-cases, arith, if◌then◌else◌,
}
use mqtt_broker_stack.Models.{
  World, Json, null, bool, number, minus, string, array, object, Items, Result, ok, raised,
}
use mqtt_broker_stack.Auth.{role_rank, is_some}
use mqtt_broker_stack.Api.Oidc.{viewer, roles_down, has_text, first_claimed, claimed_role}

-- The provider claims the role.
abbrev pub claims_role : Option Json → Text → Bool
claims_role (some (array is)) t = has_text t is
claims_role (some (string s)) t = s == t
claims_role _ t = false

-- The role is one of the four, is claimed unless it is the lowest, and no claimed role is higher.
pub record IsGranted (claim : Option Json) (role : Text) : Type 0 where
  pub rank : ℕ
  pub has_rank : role_rank role ≡ some rank
  pub claimed : (claims_role claim role ≡ true) ⊎ (role ≡ viewer)
  pub highest : (t : Text) (m : ℕ) → claims_role claim t ≡ true → role_rank t ≡ some m → m ≤ rank

-- The names of the four roles.
role_rank_cases :
    (t : Text) (m : ℕ)
    → role_rank t ≡ some m
    → ((t ≡ viewer) × (m ≡ 0))
      ⊎ (((t ≡ codes "operator") × (m ≡ 1))
          ⊎ (((t ≡ codes "security_admin") × (m ≡ 2)) ⊎ ((t ≡ codes "super_admin") × (m ≡ 3))))
unfolding role_rank
role_rank_cases t m e = elim (Bool-cases (t == viewer)) [
  | inl h ↦ inl ((eq_iff t viewer).0 h, ground arith)
  | inr a ↦ elim (Bool-cases (t == codes "operator")) [
    | inl h ↦ inr (inl ((eq_iff t (codes "operator")).0 h, ground arith))
    | inr b ↦ elim (Bool-cases (t == codes "security_admin")) [
      | inl h ↦ inr (inr (inl ((eq_iff t (codes "security_admin")).0 h, ground arith)))
      | inr c ↦ elim (Bool-cases (t == codes "super_admin")) [
        | inl h ↦ inr (inr (inr ((eq_iff t (codes "super_admin")).0 h, ground arith)))
        | inr d ↦ ground arith
      ]
    ]
  ]
]

rank_viewer : role_rank viewer ≡ some 0
unfolding role_rank ◌==◌
rank_viewer = refl

-- If no role is claimed, the lowest is granted.
none-IsGranted :
    (claim : Option Json) → ((t : Text) → claims_role claim t ≡ false) → IsGranted claim viewer
none-IsGranted claim h = record {
  rank = 0;
  has_rank = rank_viewer;
  claimed = inr refl;
  highest = λ t m c r. let n : claims_role claim t ≡ false = h t in ground arith;
}

-- No claimed role is above `n`, if those above it are not claimed.
rank_le :
    (is : Items) (n : ℕ)
    → (has_text (codes "super_admin") is ≡ true → 3 ≤ n)
    → (has_text (codes "security_admin") is ≡ true → 2 ≤ n)
    → (has_text (codes "operator") is ≡ true → 1 ≤ n)
    → (t : Text) (m : ℕ) → has_text t is ≡ true
    → role_rank t ≡ some m
    → m ≤ n
rank_le is n f g h t m c r = elim (role_rank_cases t m r) [
  | inl (e, k) ↦ omega (arith, k)
  | inr (inl (e, k)) ↦ omega (arith, k, h (ap (λ u. has_text u is) (sym e) ∙ c))
  | inr (inr (inl (e, k))) ↦ omega (arith, k, g (ap (λ u. has_text u is) (sym e) ∙ c))
  | inr (inr (inr (e, k))) ↦ omega (arith, k, f (ap (λ u. has_text u is) (sym e) ∙ c))
]

list-IsGranted : (is : Items) → IsGranted (some (array is)) (first_claimed roles_down is)
unfolding first_claimed
list-IsGranted is = elim (Bool-cases (has_text (codes "super_admin") is)) [
  | inl a ↦ rw a (record {
    rank = 3;
    has_rank = unfold role_rank ◌==◌ in refl;
    claimed = inl a;
    highest = rank_le is 3 (λ _. omega arith) (λ _. omega arith) (λ _. omega arith);
  })
  | inr a ↦ elim (Bool-cases (has_text (codes "security_admin") is)) [
    | inl b ↦
        rw (a, b)
          (record {
            rank = 2;
            has_rank = unfold role_rank ◌==◌ in refl;
            claimed = inl b;
            highest = rank_le is 2 (λ x. ground arith) (λ _. omega arith) (λ _. omega arith);
          })
    | inr b ↦ elim (Bool-cases (has_text (codes "operator") is)) [
      | inl c ↦
          rw (a, b, c)
            (record {
              rank = 1;
              has_rank = unfold role_rank ◌==◌ in refl;
              claimed = inl c;
              highest = rank_le is 1 (λ x. ground arith) (λ x. ground arith) (λ _. omega arith);
            })
      | inr c ↦ rw (a, b, c) (lowest a b c)
    ]
  ]
]
  where
    lowest :
        has_text (codes "super_admin") is ≡ false
        → has_text (codes "security_admin") is ≡ false
        → has_text (codes "operator") is ≡ false
        → IsGranted (some (array is)) (if has_text viewer is then viewer else viewer)
    lowest a b c = elim (Bool-cases (has_text viewer is)) [
      | inl d ↦ rw d (record {
        rank = 0;
        has_rank = rank_viewer;
        claimed = inr refl;
        highest = rank_le is 0 (λ x. ground arith) (λ x. ground arith) (λ x. ground arith);
      })
      | inr d ↦ rw d (record {
        rank = 0;
        has_rank = rank_viewer;
        claimed = inr refl;
        highest = rank_le is 0 (λ x. ground arith) (λ x. ground arith) (λ x. ground arith);
      })
    ]

text-IsGranted :
    (s : Text) → IsGranted (some (string s)) (if is_some (role_rank s) then s else viewer)
text-IsGranted s = elim (Option-cases (role_rank s)) [
  | inl n ↦ rw n (record {
    rank = 0;
    has_rank = rank_viewer;
    claimed = inr refl;
    highest = λ t m c r.
        let same : s ≡ t = (eq_iff s t).0 c in
        let has : role_rank s ≡ some m = ap role_rank same ∙ r in ground arith;
  })
  | inr (k, h) ↦ rw h (record {
    rank = k;
    has_rank = h;
    claimed = inl (eq_refl s);
    highest = λ t m c r.
        let same : s ≡ t = (eq_iff s t).0 c in
        let has : role_rank s ≡ some m = ap role_rank same ∙ r in ground arith;
  })
]

abbrev value_or : Text → Result Text → Text
value_or d (ok t) = t
value_or d (raised e) = d

ok-IsGranted :
    {claim : Option Json} {t role : Text} {w v : World}
    → IsGranted claim t
    → Path (Result Text × World) (ok t, w) (ok role, v)
    → IsGranted claim role
ok-IsGranted {claim} g e =
    subst (IsGranted claim) (ap (λ (r : Result Text × World). value_or viewer r.0) e) g

pub claimed_role-IsGranted :
    (claim : Option Json) (role : Text) (w v : World)
    → claimed_role claim w ≡ (ok role, v)
    → IsGranted claim role × (w ≡ v)
unfolding claimed_role
claimed_role-IsGranted none role w v e =
    (ok-IsGranted (none-IsGranted none (λ t. refl)) e, ap (λ (r : Result Text × World). r.1) e)
claimed_role-IsGranted (some (array is)) role w v e =
    (ok-IsGranted (list-IsGranted is) e, ap (λ (r : Result Text × World). r.1) e)
claimed_role-IsGranted (some (string s)) role w v e =
    (ok-IsGranted (text-IsGranted s) e, ap (λ (r : Result Text × World). r.1) e)
claimed_role-IsGranted (some (object fs)) role w v e = cc
claimed_role-IsGranted (some null) role w v e = (
  ok-IsGranted (none-IsGranted (some null) (λ t. refl)) e,
  ap (λ (r : Result Text × World). r.1) e,
)
claimed_role-IsGranted (some (bool b)) role w v e = (
  ok-IsGranted (none-IsGranted (some (bool b)) (λ t. refl)) e,
  ap (λ (r : Result Text × World). r.1) e,
)
claimed_role-IsGranted (some (number n)) role w v e = (
  ok-IsGranted (none-IsGranted (some (number n)) (λ t. refl)) e,
  ap (λ (r : Result Text × World). r.1) e,
)
claimed_role-IsGranted (some (minus n)) role w v e = (
  ok-IsGranted (none-IsGranted (some (minus n)) (λ t. refl)) e,
  ap (λ (r : Result Text × World). r.1) e,
)
