-- ===== src/Policy/Evaluate/Laws.antt =====
-- What policy.py's `evaluate_permission` decides.
use mqtt_broker_stack.Common.{
  Text, Dict, get, ◌≡◌, refl, sym, ◌⊎◌, inl, inr, Bool, true, none, some, List, [], ◌∷◌, ◌++◌, map,
  Option-cases, All, Memᴰ, mem-append_cases, mem_of_mem-keep, mem-keep, keep, sort_by, IsSorted,
  sort_by-IsSorted, mem_of_mem-sort_by, mem-sort_by, mem-append_right, subst, mem-map_cases,
}
use mqtt_broker_stack.Policy.Evaluate.{
  Acl, Assignment, Role, Group, Client, SourceType, RoleCheck, Decision, or_default, name_of,
  check_of, is_type, assignment_before, acl_before, group_checks, role_checks, relevant_acls,
  acl_matches, decided, first_decision, default_decision, evaluate_permission,
}
use mqtt_broker_stack.Policy.Evaluate.Order.{acl_before_total, acl_before_trans}
use mqtt_broker_stack.Policy.Evaluate.Search.{rule_of, first_match_sound, first_decision_sound}

abbrev pub role_acls : Dict Role → Text → List Acl
role_acls roles name = (or_default (get name roles) (record { acls = [] })).acls

abbrev pub group_roles : Dict Group → Text → List Assignment
group_roles groups name = (or_default (get name groups) (record { roles = [] })).roles

relevant_acls-IsSorted :
    (action : Text) (roles : Dict Role) (a : Assignment)
    → IsSorted acl_before (relevant_acls action roles a)
unfolding relevant_acls
relevant_acls-IsSorted action roles a =
    sort_by-IsSorted acl_before acl_before_total acl_before_trans _

mem_of_mem-relevant_acls :
    {acl : Acl} (action : Text) (roles : Dict Role) (a : Assignment)
    → Memᴰ acl (relevant_acls action roles a)
    → Memᴰ acl (role_acls roles (name_of a)) × (is_type action acl.acltype ≡ true)
unfolding relevant_acls
mem_of_mem-relevant_acls action roles a m =
    mem_of_mem-keep (λ acl. is_type action acl.acltype) _ (mem_of_mem-sort_by acl_before _ m)

pub mem-relevant_acls :
    {acl : Acl} (action : Text) (roles : Dict Role) (a : Assignment)
    → Memᴰ acl (role_acls roles (name_of a))
    → is_type action acl.acltype ≡ true
    → Memᴰ acl (relevant_acls action roles a)
unfolding relevant_acls
mem-relevant_acls action roles a m e =
    mem-sort_by acl_before _ (mem-keep (λ acl. is_type action acl.acltype) _ m e)

-- A check comes from an assignment of the client, or of a group that is assigned to the client.
pub data IsAssigned (username : Text) (c : Client) (groups : Dict Group) (check : RoleCheck)
    : Type 0 where
  own :
      (a : Assignment)
      → Memᴰ a c.roles
      → check ≡ check_of SourceType.client username a
      → IsAssigned username c groups check
  by_group :
      (g a : Assignment)
      → Memᴰ g c.groups
      → Memᴰ a (group_roles groups (name_of g))
      → check ≡ check_of SourceType.group (name_of g) a
      → IsAssigned username c groups check

mem-group_checks_cases :
    {check : RoleCheck} (groups : Dict Group) (gs : List Assignment)
    → Memᴰ check (group_checks groups gs)
    → (g : Assignment) × (a : Assignment) × Memᴰ g gs
      × Memᴰ a (group_roles groups (name_of g))
      × (check ≡ check_of SourceType.group (name_of g) a)
unfolding group_checks
mem-group_checks_cases groups [] m = elim m [ ]
mem-group_checks_cases groups (g ∷ gs) m =
    elim (mem-append_cases
      (map (check_of SourceType.group (name_of g))
        (sort_by assignment_before (group_roles groups (name_of g))))
      (group_checks groups gs) m) [
        | inl h ↦
            let (a, listed, e) = mem-map_cases (check_of SourceType.group (name_of g)) _ h in
            (g, a, Memᴰ.head refl, mem_of_mem-sort_by assignment_before _ listed, e)
        | inr h ↦
            let (g', a, mg, ma, e) = mem-group_checks_cases groups gs h in
            (g', a, Memᴰ.tail mg, ma, e)
      ]

pub role_checks-IsAssigned :
    {check : RoleCheck} (username : Text) (c : Client) (groups : Dict Group)
    → Memᴰ check (role_checks username c groups)
    → IsAssigned username c groups check
unfolding role_checks
role_checks-IsAssigned username c groups m =
    elim (mem-append_cases
      (map (check_of SourceType.client username) (sort_by assignment_before c.roles))
      (group_checks groups (sort_by assignment_before c.groups)) m) [
        | inl h ↦
            let (a, listed, e) = mem-map_cases (check_of SourceType.client username) _ h in
            IsAssigned.own a (mem_of_mem-sort_by assignment_before _ listed) e
        | inr h ↦
            let (g, a, mg, ma, e) =
              mem-group_checks_cases groups (sort_by assignment_before c.groups) h in
            IsAssigned.by_group g a (mem_of_mem-sort_by assignment_before _ mg) ma e
      ]

module _ (username clientid topic action : Text) (c : Client) (groups : Dict Group)
    (roles : Dict Role) where
  -- How a decision that some rule makes is justified.
  pub record IsJustified (d : Decision) : Type 0 where
    pub check : RoleCheck
    pub rule : Acl
    pub decision : d ≡ decided check rule
    pub assigned : IsAssigned username c groups check
    pub listed : Memᴰ rule (role_acls roles (name_of check.assignment))
    pub typed : is_type action rule.acltype ≡ true
    pub matching : acl_matches username clientid topic action rule ≡ true
    pub highest :
        All
          (λ b. acl_before rule b ≡ true)
          (keep
            (acl_matches username clientid topic action)
            (relevant_acls action roles check.assignment))
    pub earlier : List RoleCheck
    pub later : List RoleCheck
    pub place : role_checks username c groups ≡ earlier ++ check ∷ later
    pub skipped : All (λ k. rule_of username clientid topic action roles k ≡ none) earlier

  pub found-IsJustified :
      (d : Decision)
      → first_decision username clientid topic action roles (role_checks username c groups) ≡ some d
      → IsJustified d
  found-IsJustified d e =
      let f =
        first_decision_sound username clientid topic action roles (role_checks username c groups) d
          e in
      let (m, h, top) =
        first_match_sound username clientid topic action
          (relevant_acls action roles f.check.assignment) f.rule
          (relevant_acls-IsSorted action roles f.check.assignment) f.gives in
      let (listed, typed) = mem_of_mem-relevant_acls action roles f.check.assignment m in
      record {
        check = f.check;
        rule = f.rule;
        decision = f.decision;
        assigned = role_checks-IsAssigned username c groups (
            subst (λ l. Memᴰ f.check l) (sym f.listed)
              (mem-append_right f.earlier _ (Memᴰ.head refl)));
        listed = listed;
        typed = typed;
        matching = h;
        highest = top;
        earlier = f.earlier;
        later = f.later;
        place = f.listed;
        skipped = f.skipped;
      }

  pub evaluate_cases :
      (defaults : Dict Bool)
      → ((first_decision username clientid topic action roles (role_checks username c groups)
            ≡ none)
          × (evaluate_permission username clientid topic action c groups roles defaults
              ≡ default_decision action defaults))
        ⊎ ((d : Decision) × (first_decision username clientid topic action roles
                (role_checks username c groups)
              ≡ some d)
            × (evaluate_permission username clientid topic action c groups roles defaults ≡ d))
  unfolding evaluate_permission
  evaluate_cases defaults =
      elim (Option-cases
        (first_decision username clientid topic action roles (role_checks username c groups))) [
          | inl e ↦ inl (e, rw e refl)
          | inr (d, e) ↦ inr (d, e, rw e refl)
        ]

  pub evaluate_of_decision :
      (defaults : Dict Bool) (d : Decision)
      → first_decision username clientid topic action roles (role_checks username c groups) ≡ some d
      → evaluate_permission username clientid topic action c groups roles defaults ≡ d
  unfolding evaluate_permission
  evaluate_of_decision defaults d e = rw e refl
