-- ===== src/Migration/Decision.antt =====
-- What policy.py's `evaluate_permission` decides for a client whose only role is one that
-- scripts/migrate_dynsec.py has made.
use mqtt_broker_stack.Common.{
  Text, Dict, get, ◌≡◌, refl, sym, ap, ◌∙◌, inl, inr, Bool, true, false, ◌&&◌, not, some, List, [],
  ◌∷◌, map, Memᴰ, arith, ◌==◌, All, All-at, SameMembers, all, keep, mem-keep, mem_of_mem-keep,
  mem-map, mem-map_cases, mem-append_left, mem-sort_by, is_empty, is_empty_of_mem, sort_by,
  Bool-cases, subst, false≢true,
}
use mqtt_broker_stack.Common.Int.{pos}
use mqtt_broker_stack.Policy.Topic.{topic_matches}
use mqtt_broker_stack.Policy.Evaluate.{
  Acl, Assignment, Role, Group, Client, SourceType, RoleCheck, Decision, or_default, name_of,
  check_of, is_type, is_literal, assignment_before, acl_before, role_checks, relevant_acls,
  acl_matches, default_key, evaluate_permission,
}
use mqtt_broker_stack.Policy.Evaluate.Laws.{
  role_acls, group_roles, mem-relevant_acls, IsAssigned, own, by_group, IsJustified,
}
use mqtt_broker_stack.Policy.Evaluate.Decisions.{
  evaluate_permission-IsJustified, evaluate_permission_default,
}
use mqtt_broker_stack.Migration.Acls.{Rule}
use mqtt_broker_stack.Migration.Acls.Unique.{IsRanked}

module _ {ℓ} {A : Type ℓ} (p : A → Bool) where
  all-eq_true : (xs : List A) → ((x : A) → Memᴰ x xs → p x ≡ true) → all p xs ≡ true
  all-eq_true [] h = refl
  all-eq_true (x ∷ xs) h = rw (h x (Memᴰ.head refl)) (all-eq_true xs (λ y m. h y (Memᴰ.tail m)))

  all-eq_false : {x : A} (xs : List A) → Memᴰ x xs → p x ≡ false → all p xs ≡ false
  all-eq_false [] m e = elim m [ ]
  all-eq_false (y ∷ xs) (Memᴰ.head q) e = rw (← q, e) refl
  all-eq_false (y ∷ xs) (Memᴰ.tail m) e = elim (Bool-cases (p y)) [
    | inl t ↦ rw t (all-eq_false xs m e)
    | inr f ↦ rw f refl
  ]

  keep-eq_nil : (xs : List A) → ((x : A) → Memᴰ x xs → p x ≡ false) → keep p xs ≡ []
  keep-eq_nil [] h = refl
  keep-eq_nil (x ∷ xs) h = rw (h x (Memᴰ.head refl)) (keep-eq_nil xs (λ y m. h y (Memᴰ.tail m)))

-- A migrated rule as the evaluation sees it.
abbrev pub to_acl : Rule → Acl
to_acl r = record {
  acltype = some r.acltype;
  topic = some r.topic;
  priority = some (pos r.priority);
  allow = some r.allow;
}

module _ (username clientid topic action : Text) where
  -- The rule is for the action, and its topic filter matches.
  abbrev pub covers : Rule → Bool
  covers r =
      r.acltype == action && topic_matches r.topic topic username clientid (is_literal action)

  -- Some rule covers the topic, and none that does denies.
  abbrev pub permits : List Rule → Bool
  permits rs = not (is_empty (keep covers rs)) && all (λ r. r.allow) (keep covers rs)

  permits-eq_allow :
      (rs : List Rule) (r : Rule)
      → Memᴰ r rs
      → covers r ≡ true
      → ((s : Rule) → Memᴰ s (keep covers rs) → r.allow ≡ true → s.allow ≡ true)
      → permits rs ≡ r.allow
  permits-eq_allow rs r m c h = elim (Bool-cases r.allow) [
    | inl t ↦
        rw (is_empty_of_mem (keep covers rs) (mem-keep covers rs m c), t)
          (all-eq_true (λ s. s.allow) (keep covers rs) (λ s n. h s n t))
    | inr f ↦
        rw (is_empty_of_mem (keep covers rs) (mem-keep covers rs m c), f)
          (all-eq_false (λ s. s.allow) (keep covers rs) (mem-keep covers rs m c) f)
  ]

  module _ (rs out : List Rule) (name : Text) (c : Client) (groups : Dict Group) (roles : Dict Role)
      (defaults : Dict Bool) where
    -- The client has one role, with the given rules in any order; the groups have no roles; the default is denial.
    pub record IsConfined : Type 0 where
      pub assignment : Assignment
      pub only : c.roles ≡ assignment ∷ []
      pub named : name_of assignment ≡ name
      pub rules : role_acls roles name ≡ map to_acl out
      pub members : SameMembers rs out
      pub ungrouped : (g : Text) → group_roles groups g ≡ []
      pub denied : (k : Text) → or_default (get k defaults) false ≡ false

    abbrev result : Decision
    result = evaluate_permission username clientid topic action c groups roles defaults

    assigned_name :
        IsConfined
        → (check : RoleCheck) → IsAssigned username c groups check
        → name_of check.assignment ≡ name
    assigned_name k check (own a m e) = elim (rw k.only at m) [
      | Memᴰ.head q ↦ rw e (ap name_of q ∙ k.named)
      | Memᴰ.tail n ↦ elim n [ ]
    ]
    assigned_name k check (by_group g a mg ma e) = elim (rw (k.ungrouped (name_of g)) at ma) [ ]

    higher_allows :
        (r s : Rule)
        → IsRanked r
        → IsRanked s
        → acl_before (to_acl r) (to_acl s) ≡ true
        → r.allow ≡ true
        → s.allow ≡ true
    unfolding acl_before
    higher_allows r s hr hs b e = ground arith

    covering :
        (s : Rule)
        → covers s ≡ true
        → (is_type action (to_acl s).acltype ≡ true)
          × (acl_matches username clientid topic action (to_acl s) ≡ true)
    unfolding acl_matches
    covering s h = ground arith

    covers_of :
        (s : Rule)
        → is_type action (to_acl s).acltype ≡ true
        → acl_matches username clientid topic action (to_acl s) ≡ true
        → covers s ≡ true
    unfolding acl_matches
    covers_of s t m = ground arith

    -- The search reaches each rule that covers the topic.
    reached :
        (k : IsConfined) (s : Rule)
        → Memᴰ s rs
        → covers s ≡ true
        → (a : Assignment) → name_of a ≡ name
        → Memᴰ
            (to_acl s)
            (keep (acl_matches username clientid topic action) (relevant_acls action roles a))
    reached k s m h a n =
        let (typed, matching) = covering s h in
        mem-keep (acl_matches username clientid topic action) (relevant_acls action roles a)
          (mem-relevant_acls action roles a
            (rw (n, k.rules) (mem-map to_acl out ((k.members s).0 m))) typed)
          matching

    own_check :
        (k : IsConfined)
        → Memᴰ (check_of SourceType.client username k.assignment) (role_checks username c groups)
    unfolding role_checks
    own_check k = mem-append_left _ _ (
        mem-map (check_of SourceType.client username) (sort_by assignment_before c.roles)
          (mem-sort_by assignment_before c.roles (rw k.only (Memᴰ.head refl))))

    by_rule :
        IsConfined
        → All IsRanked rs
        → IsJustified username clientid topic action c groups roles result
        → result.allow ≡ permits rs
    by_rule k h j =
        let n = assigned_name k j.check j.assigned in
        let (r, mo, e) = mem-map_cases to_acl out (rw (n, k.rules) at j.listed) in
        let m : Memᴰ r rs = (k.members r).1 mo in
        let typed : is_type action (to_acl r).acltype ≡ true =
          subst (λ (a : Acl). is_type action a.acltype ≡ true) e j.typed in
        let matching : acl_matches username clientid topic action (to_acl r) ≡ true =
          subst (λ (a : Acl). acl_matches username clientid topic action a ≡ true) e j.matching in
        let covered : covers r ≡ true = covers_of r typed matching in
        let allowed : result.allow ≡ r.allow =
          ap (λ (d : Decision). d.allow) j.decision
          ∙ ap (λ (a : Acl). or_default a.allow false) e in
        allowed
        ∙ sym (
            permits-eq_allow rs r m covered λ s ms t.
              let (listed, cs) = mem_of_mem-keep covers rs ms in
              higher_allows r s (All-at IsRanked rs h m) (All-at IsRanked rs h listed)
                (subst (λ (a : Acl). acl_before a (to_acl s) ≡ true) e
                  (All-at (λ b. acl_before j.rule b ≡ true)
                    (keep (acl_matches username clientid topic action)
                      (relevant_acls action roles j.check.assignment))
                    j.highest (reached k s listed cs j.check.assignment n)))
                t)

    by_default : IsConfined → result.matched ≡ false → result.allow ≡ permits rs
    by_default k m =
        let (e, none_matches) =
          evaluate_permission_default username clientid topic action c groups roles defaults m in
        let nothing : keep covers rs ≡ [] = keep-eq_nil covers rs λ s ms.
          elim (Bool-cases (covers s)) [
            | inl t ↦
                let (listed, matching) =
                  mem_of_mem-keep (acl_matches username clientid topic action)
                    (relevant_acls action roles k.assignment)
                    (reached k s ms t k.assignment k.named) in
                absurd (
                  false≢true (
                    sym (
                      All-at (λ a. acl_matches username clientid topic action a ≡ false)
                        (relevant_acls action roles k.assignment)
                        (All-at
                          (λ (check : RoleCheck).
                            All (λ a. acl_matches username clientid topic action a ≡ false)
                              (relevant_acls action roles check.assignment))
                          (role_checks username c groups) none_matches (own_check k))
                        listed)
                    ∙ matching))
            | inr f ↦ f
          ] in
        ap (λ (d : Decision). d.allow) e ∙ k.denied (default_key action) ∙ rw nothing refl

    -- For a client that is confined to one role whose rules have the priorities of the migration, in groups
    -- without roles and with a default of denial, the evaluation allows an action exactly if some rule of
    -- the role covers it and no rule that covers it denies: a denial wins over every allowance.
    pub evaluate_permission-confined : IsConfined → All IsRanked rs → result.allow ≡ permits rs
    evaluate_permission-confined k h = elim (Bool-cases result.matched) [
      | inl t ↦
          by_rule k h (
            evaluate_permission-IsJustified username clientid topic action c groups roles defaults
              t)
      | inr f ↦ by_default k f
    ]
