-- ===== src/Policy/Evaluate/Search.antt =====
-- The two loops of policy.py's `evaluate_permission`: which rule they find.
use mqtt_broker_stack.Common.{
  Text, Dict, ◌≡◌, refl, sym, ◌∙◌, ◌⊎◌, inl, inr, true, false, Option, none, some, List, [], ◌∷◌,
  ◌++◌, Bool-cases, Option-cases, All, All-at, All-keep, Memᴰ, IsSorted, keep, none-ne-some,
  some_inj, false≢true, ap,
}
use mqtt_broker_stack.Policy.Evaluate.Order.{acl_before_refl}
use mqtt_broker_stack.Policy.Evaluate.{
  Acl, Role, RoleCheck, Decision, acl_before, relevant_acls, acl_matches, first_match, decided,
  first_decision,
}

module _ (username clientid topic action : Text) where
  abbrev Matching : Acl → Type 0
  Matching acl = acl_matches username clientid topic action acl ≡ true

  first_match_cons :
      (acl : Acl) (acls : List Acl)
      → (Matching acl × (first_match username clientid topic action (acl ∷ acls) ≡ some acl))
        ⊎ ((acl_matches username clientid topic action acl ≡ false)
            × (first_match username clientid topic action (acl ∷ acls)
                ≡ first_match username clientid topic action acls))
  unfolding first_match
  first_match_cons acl acls = elim (Bool-cases (acl_matches username clientid topic action acl)) [
    | inl e ↦ inl (e, rw e refl)
    | inr e ↦ inr (e, rw e refl)
  ]

  -- An ACL that is found is listed and matches, and no matching ACL goes before it.
  pub first_match_sound :
      (acls : List Acl) (acl : Acl)
      → IsSorted acl_before acls
      → first_match username clientid topic action acls ≡ some acl
      → Memᴰ acl acls
        × Matching acl
        × All
            (λ b. acl_before acl b ≡ true)
            (keep (acl_matches username clientid topic action) acls)
  first_match_sound [] acl s e =
      let e' : none ≡ some acl = unfold first_match in e in absurd (none-ne-some e')
  first_match_sound (x ∷ xs) acl s e = elim (first_match_cons x xs) [
    | inl (m, f) ↦
        let same : acl ≡ x = some_inj (sym e ∙ f) in
        rw (same, m)
          (
            Memᴰ.head refl,
            refl,
            (
              acl_before_refl x,
              All-keep (λ b. acl_before x b ≡ true) (acl_matches username clientid topic action) xs
                  s.0,
            ),
          )
    | inr (m, f) ↦
        let (listed, matching, first) = first_match_sound xs acl s.1 (sym f ∙ e) in
        (Memᴰ.tail listed, matching, rw m first)
  ]

  -- Nothing is found exactly if no ACL matches.
  pub first_match-none :
      (acls : List Acl)
      → first_match username clientid topic action acls ≡ none
      → All (λ acl. acl_matches username clientid topic action acl ≡ false) acls
  first_match-none [] e = tt
  first_match-none (x ∷ xs) e = elim (first_match_cons x xs) [
    | inl (m, f) ↦ absurd (none-ne-some (sym e ∙ f))
    | inr (m, f) ↦ (m, first_match-none xs (sym f ∙ e))
  ]

  pub first_match-some :
      (acls : List Acl) (acl : Acl)
      → Memᴰ acl acls
      → Matching acl
      → (found : Acl) × (first_match username clientid topic action acls ≡ some found)
  first_match-some acls acl m h =
      elim (Option-cases (first_match username clientid topic action acls)) [
        | inl e ↦ absurd (
            false≢true (
              sym (
                All-at (λ b. acl_matches username clientid topic action b ≡ false) acls
                  (first_match-none acls e) m)
              ∙ h))
        | inr found ↦ found
      ]

  -- The rule that a role gives, if it gives one.
  abbrev pub rule_of : Dict Role → RoleCheck → Option Acl
  rule_of roles check =
      first_match username clientid topic action (relevant_acls action roles check.assignment)

  first_decision_cons :
      (roles : Dict Role) (check : RoleCheck) (checks : List RoleCheck)
      → ((rule_of roles check ≡ none)
          × (first_decision username clientid topic action roles (check ∷ checks)
              ≡ first_decision username clientid topic action roles checks))
        ⊎ ((acl : Acl) × (rule_of roles check ≡ some acl)
            × (first_decision username clientid topic action roles (check ∷ checks)
                ≡ some (decided check acl)))
  first_decision_cons roles check checks = elim (Option-cases (rule_of roles check)) [
    | inl e ↦ inl (e, unfold first_decision in rw (e, first_decision) refl)
    | inr (acl, e) ↦ inr (acl, e, unfold first_decision in rw (e, first_decision) refl)
  ]

  -- The decision comes from the first check whose role gives a rule.
  pub record IsFirst (roles : Dict Role) (checks : List RoleCheck) (d : Decision) : Type 0 where
    pub earlier : List RoleCheck
    pub check : RoleCheck
    pub later : List RoleCheck
    pub rule : Acl
    pub listed : checks ≡ earlier ++ check ∷ later
    pub skipped : All (λ c. rule_of roles c ≡ none) earlier
    pub gives : rule_of roles check ≡ some rule
    pub decision : d ≡ decided check rule

  pub first_decision_sound :
      (roles : Dict Role) (checks : List RoleCheck) (d : Decision)
      → first_decision username clientid topic action roles checks ≡ some d
      → IsFirst roles checks d
  first_decision_sound roles [] d e =
      let e' : none ≡ some d = unfold first_decision in e in absurd (none-ne-some e')
  first_decision_sound roles (x ∷ xs) d e = elim (first_decision_cons roles x xs) [
    | inl (n, f) ↦
        let ih = first_decision_sound roles xs d (sym f ∙ e) in
        record {
          earlier = x ∷ ih.earlier;
          check = ih.check;
          later = ih.later;
          rule = ih.rule;
          listed = ap (λ l. x ∷ l) ih.listed;
          skipped = (n, ih.skipped);
          gives = ih.gives;
          decision = ih.decision;
        }
    | inr (acl, g, f) ↦ record {
      earlier = [];
      check = x;
      later = xs;
      rule = acl;
      listed = refl;
      skipped = tt;
      gives = g;
      decision = some_inj (sym e ∙ f);
    }
  ]

  pub first_decision-none :
      (roles : Dict Role) (checks : List RoleCheck)
      → first_decision username clientid topic action roles checks ≡ none
      → All (λ c. rule_of roles c ≡ none) checks
  first_decision-none roles [] e = tt
  first_decision-none roles (x ∷ xs) e = elim (first_decision_cons roles x xs) [
    | inl (n, f) ↦ (n, first_decision-none roles xs (sym f ∙ e))
    | inr (acl, g, f) ↦ absurd (none-ne-some (sym e ∙ f))
  ]

  pub first_decision-append :
      (roles : Dict Role) (xs ys : List RoleCheck) (d : Decision)
      → first_decision username clientid topic action roles xs ≡ some d
      → first_decision username clientid topic action roles (xs ++ ys) ≡ some d
  first_decision-append roles [] ys d e =
      let e' : none ≡ some d = unfold first_decision in e in absurd (none-ne-some e')
  first_decision-append roles (x ∷ xs) ys d e = elim (first_decision_cons roles x xs) [
    | inl (n, f) ↦ elim (first_decision_cons roles x (xs ++ ys)) [
      | inl (n', f') ↦ f' ∙ first_decision-append roles xs ys d (sym f ∙ e)
      | inr (acl, g, f') ↦ absurd (none-ne-some (sym n ∙ g))
    ]
    | inr (acl, g, f) ↦ elim (first_decision_cons roles x (xs ++ ys)) [
      | inl (n', f') ↦ absurd (none-ne-some (sym n' ∙ g))
      | inr (acl', g', f') ↦ f' ∙ ap (λ r. some (decided x r)) (some_inj (sym g' ∙ g)) ∙ sym f ∙ e
    ]
  ]
