-- ===== src/Policy/Evaluate.antt =====
-- `evaluate_permission` of admin-api/app/policy.py: the client's own roles in the order of priority,
-- then the roles of its groups, and in each role the ACLs for the action by priority. A field that
-- `dict.get` may miss is an `Option`.
use mqtt_broker_stack.Common.{
  Text, codes, Dict, get, Bool, true, false, ◌||◌, Option, none, some, List, [], ◌∷◌, ◌++◌, map,
  ◌==◌, text_leb, one_of, if◌then◌else◌, starts_with, sort_by, keep,
}
pub mod Order
pub mod Search
pub mod Laws
pub mod Decisions
mod Tests
use mqtt_broker_stack.Common.Int.{ℤ, negsuc, leb_ℤ, eq_ℤ}
use mqtt_broker_stack.Policy.Topic.{topic_matches}

pub record Acl : Type 0 where
  pub acltype : Option Text
  pub topic : Option Text
  pub priority : Option ℤ
  pub allow : Option Bool

-- An entry of a `roles` or `groups` list: the name of the role or group, and a priority.
pub record Assignment : Type 0 where
  pub name : Option Text
  pub priority : Option ℤ

pub record Role : Type 0 where
  pub acls : List Acl

pub record Group : Type 0 where
  pub roles : List Assignment

pub record Client : Type 0 where
  pub roles : List Assignment
  pub groups : List Assignment

abbrev pub or_default {ℓ} : {A : Type ℓ} → Option A → A → A
or_default none d = d
or_default (some a) d = a

-- `_priority`
abbrev pub priority_of : Option ℤ → ℤ
priority_of p = or_default p (negsuc 0)

abbrev pub name_of : Assignment → Text
name_of a = or_default a.name []

-- The order of the keys `(-_priority(value), value.get(name, ""))`.
unfoldable pub assignment_before : Assignment → Assignment → Bool
assignment_before a b =
    if eq_ℤ (priority_of a.priority) (priority_of b.priority)
    then text_leb (name_of a) (name_of b)
    else leb_ℤ (priority_of b.priority) (priority_of a.priority)

-- The order of the keys `-_priority(value)`.
unfoldable pub acl_before : Acl → Acl → Bool
acl_before a b = leb_ℤ (priority_of b.priority) (priority_of a.priority)

pub data SourceType : Type 0 where
  client group : SourceType

-- A tuple of `role_checks`.
pub record RoleCheck : Type 0 where
  pub source_type : SourceType
  pub source_name : Text
  pub assignment : Assignment

abbrev pub check_of : SourceType → Text → Assignment → RoleCheck
check_of t name a = record { source_type = t; source_name = name; assignment = a }

unfoldable pub group_checks : Dict Group → List Assignment → List RoleCheck
group_checks groups [] = []
group_checks groups (g ∷ gs) =
    map (check_of group (name_of g)) (
      sort_by assignment_before (or_default (get (name_of g) groups) (record { roles = [] })).roles)
    ++ group_checks groups gs

unfoldable pub role_checks : Text → Client → Dict Group → List RoleCheck
unfolding group_checks
role_checks username c groups =
    map (check_of client username) (sort_by assignment_before c.roles)
    ++ group_checks groups (sort_by assignment_before c.groups)

pub data Source : Type 0 where
  assigned : SourceType → Text → Text → ℤ → Source
  default : Text → Source

pub record Decision : Type 0 where
  pub allow : Bool
  pub matched : Bool
  pub rule : Option Acl
  pub source : Source

abbrev pub is_type : Text → Option Text → Bool
is_type action none = false
is_type action (some t) = t == action

-- `relevant`, sorted
unfoldable pub relevant_acls : Text → Dict Role → Assignment → List Acl
relevant_acls action roles a = sort_by acl_before (
    keep (λ acl. is_type action acl.acltype)
      (or_default (get (name_of a) roles) (record { acls = [] })).acls)

abbrev pub is_literal : Text → Bool
is_literal action = one_of action (codes "subscribeLiteral" ∷ codes "unsubscribeLiteral" ∷ [])

abbrev pub decided : RoleCheck → Acl → Decision
decided check acl = record {
  allow = or_default acl.allow false;
  matched = true;
  rule = some acl;
  source =
      assigned check.source_type check.source_name (name_of check.assignment)
        (priority_of check.assignment.priority);
}

unfoldable pub default_key : Text → Text
default_key action =
    if starts_with action (codes "subscribe")
    then codes "subscribe"
    else if starts_with action (codes "unsubscribe")
    then codes "unsubscribe"
    else action

unfoldable pub default_decision : Text → Dict Bool → Decision
unfolding default_key
default_decision action defaults = record {
  allow = or_default (get (default_key action) defaults) false;
  matched = false;
  rule = none;
  source = default (default_key action);
}

module _ (username clientid topic action : Text) where
  unfoldable pub acl_matches : Acl → Bool
  acl_matches acl =
      topic_matches (or_default acl.topic []) topic username clientid (is_literal action)

  -- The inner loop; `none` when it ends without a `return`.
  unfoldable pub first_match : List Acl → Option Acl
  unfolding acl_matches
  first_match [] = none
  first_match (acl ∷ acls) =
      let rest = first_match acls in if acl_matches acl then some acl else rest

  -- The outer loop.
  unfoldable pub first_decision : Dict Role → List RoleCheck → Option Decision
  first_decision roles [] = none
  first_decision roles (check ∷ checks) =
      let rest = first_decision roles checks in
      elim (first_match (relevant_acls action roles check.assignment)) [
        | none ↦ rest
        | some acl ↦ some (decided check acl)
      ]

  unfoldable pub evaluate_permission : Client → Dict Group → Dict Role → Dict Bool → Decision
  unfolding first_decision role_checks default_decision first_match relevant_acls
  evaluate_permission c groups roles defaults =
      or_default (first_decision roles (role_checks username c groups))
        (default_decision action defaults)
