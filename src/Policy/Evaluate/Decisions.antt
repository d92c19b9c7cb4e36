-- ===== src/Policy/Evaluate/Decisions.antt =====
-- The decisions of policy.py's `evaluate_permission`, as the administration API shows them.
use mqtt_broker_stack.Common.{
  Text, Dict, get, ◌≡◌, refl, sym, ap, ◌∙◌, inl, inr, Bool, true, false, none, some, List, map,
  Option-cases, All, All-at, All-of_mem, Memᴰ, mem-append_right, sort_by, mem-sort_by,
  mem_of_mem-sort_by, none-ne-some, false≢true, mem-map, mem-map_cases, subst,
}
use mqtt_broker_stack.Policy.Evaluate.{
  Acl, Assignment, Role, Group, Client, SourceType, assigned, default, RoleCheck, Decision,
  or_default, name_of, priority_of, check_of, is_type, assignment_before, group_checks, role_checks,
  relevant_acls, acl_matches, decided, first_decision, default_key, default_decision,
  evaluate_permission,
}
use mqtt_broker_stack.Policy.Evaluate.Search.{
  rule_of, first_match-some, first_match-none, first_decision_sound, first_decision-none,
  first_decision-append,
}
use mqtt_broker_stack.Policy.Evaluate.Laws.{
  role_acls, mem-relevant_acls, IsJustified, found-IsJustified, evaluate_cases,
  evaluate_of_decision,
}

module _ (username clientid topic action : Text) (c : Client) (groups : Dict Group)
    (roles : Dict Role) (defaults : Dict Bool) where
  abbrev result : Decision
  result = evaluate_permission username clientid topic action c groups roles defaults

  -- A decision that is marked as matched is made by a rule for the action that matches the topic,
  -- in a role that is assigned to the client or to one of its groups. No matching rule of that role
  -- has a higher priority, and no earlier role in the order of the search has a matching rule.
  pub evaluate_permission-IsJustified :
      result.matched ≡ true → IsJustified username clientid topic action c groups roles result
  evaluate_permission-IsJustified m =
      elim (evaluate_cases username clientid topic action c groups roles defaults) [
        | inl (n, e) ↦
            let unmatched : result.matched ≡ false = rw e (unfold default_decision in refl) in
            absurd (false≢true (sym unmatched ∙ m))
        | inr (d, f, e) ↦ rw e (found-IsJustified username clientid topic action c groups roles d f)
      ]

  -- A decision that is not marked as matched is the broker's default for the action, a missing
  -- default being a denial, and no rule of any role that is searched matches.
  pub evaluate_permission_default :
      result.matched ≡ false
      → (result ≡ record {
        allow = or_default (get (default_key action) defaults) false;
        matched = false;
        rule = none;
        source = default (default_key action);
      })
        × All
            (λ check.
              All
                (λ acl. acl_matches username clientid topic action acl ≡ false)
                (relevant_acls action roles check.assignment))
            (role_checks username c groups)
  evaluate_permission_default m =
      elim (evaluate_cases username clientid topic action c groups roles defaults) [
        | inl (n, e) ↦ (
          e ∙ (unfold default_decision in refl),
          All-of_mem _ (role_checks username c groups) λ check h.
              first_match-none username clientid topic action
                (relevant_acls action roles check.assignment)
                (All-at (λ k. rule_of username clientid topic action roles k ≡ none)
                  (role_checks username c groups)
                  (first_decision-none username clientid topic action roles
                    (role_checks username c groups) n)
                  h),
        )
        | inr (d, f, e) ↦
            let j = found-IsJustified username clientid topic action c groups roles d f in
            absurd (false≢true (sym m ∙ ap (λ (r : Decision). r.matched) (e ∙ j.decision)))
      ]

  own_checks : List RoleCheck
  own_checks = map (check_of SourceType.client username) (sort_by assignment_before c.roles)

  -- A matching rule in a role of the client itself decides before every group: the source of the
  -- decision is one of the client's own roles.
  pub evaluate_permission_own_first :
      (a : Assignment) (acl : Acl)
      → Memᴰ a c.roles
      → Memᴰ acl (role_acls roles (name_of a))
      → is_type action acl.acltype ≡ true
      → acl_matches username clientid topic action acl ≡ true
      → (b : Assignment) × Memᴰ b c.roles
        × (result.source ≡ assigned SourceType.client username (name_of b) (priority_of b.priority))
  unfolding own_checks
  evaluate_permission_own_first a acl ma m t h =
      let (found, gives) =
        first_match-some username clientid topic action (relevant_acls action roles a) acl
          (mem-relevant_acls action roles a m t) h in
      elim (Option-cases (first_decision username clientid topic action roles own_checks)) [
        | inl n ↦ absurd (
            none-ne-some (
              sym (
                All-at (λ k. rule_of username clientid topic action roles k ≡ none) own_checks
                  (first_decision-none username clientid topic action roles own_checks n)
                  (mem-map (check_of SourceType.client username) _
                    (mem-sort_by assignment_before c.roles ma)))
              ∙ gives))
        | inr (d, e) ↦
            let f = first_decision_sound username clientid topic action roles own_checks d e in
            let (b, mb, same) = mem-map_cases (check_of SourceType.client username) _ (
              subst (λ l. Memᴰ f.check l) (sym f.listed)
                (mem-append_right f.earlier _ (Memᴰ.head refl))) in
            let whole =
              first_decision-append username clientid topic action roles own_checks
                (group_checks groups (sort_by assignment_before c.groups)) d e in
            let searched : first_decision username clientid topic action roles
                  (role_checks username c groups)
                ≡ some d =
              unfold role_checks in whole in
            (
              b,
              mem_of_mem-sort_by assignment_before c.roles mb,
              ap (λ (r : Decision). r.source)
                    (evaluate_of_decision username clientid topic action c groups roles defaults d
                        searched
                      ∙ f.decision)
                  ∙ ap (λ k. (decided k f.rule).source) same,
            )
      ]
