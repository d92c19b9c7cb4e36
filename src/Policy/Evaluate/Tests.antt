-- ===== src/Policy/Evaluate/Tests.antt =====
-- The cases of admin-api/tests/test_policy.py on decisions, and the theorems at those inputs.
use mqtt_broker_stack.Common.{
  Text, Dict, codes, get, ◌≡◌, refl, Bool, true, false, none, some, [], ◌∷◌, ◌==◌, All, Memᴰ,
  starts_with, ends_with, strip_prefix, split_on, join, sort_by, text_compare,
}
use mqtt_broker_stack.Common.Int.{pos}
use mqtt_broker_stack.Policy.Topic.{topic_matches}
use mqtt_broker_stack.Policy.Evaluate.{
  Acl, Assignment, Role, Group, Client, SourceType, assigned, default, Decision, or_default,
  default_key, role_checks, relevant_acls, acl_matches, evaluate_permission, priority_of, name_of,
}
use mqtt_broker_stack.Policy.Evaluate.Laws.{IsJustified}
use mqtt_broker_stack.Policy.Evaluate.Decisions.{
  evaluate_permission-IsJustified, evaluate_permission_default, evaluate_permission_own_first,
}

abbrev rule : Text → Bool → Acl
rule topic allow = record {
  acltype = some (codes "publishClientSend");
  topic = some topic;
  priority = some (pos 1);
  allow = some allow;
}

abbrev named : Text → Assignment
named name = record { name = some name; priority = some (pos 1) }

abbrev sensor : Client
sensor = record { roles = named (codes "client-deny") ∷ []; groups = named (codes "writers") ∷ [] }

abbrev writers : Dict Group
writers = (codes "writers", record { roles = named (codes "group-allow") ∷ [] }) ∷ []

abbrev deny_rule : Acl
deny_rule = rule (codes "devices/#") false

abbrev two_roles : Dict Role
two_roles =
    (codes "client-deny", record { acls = deny_rule ∷ [] })
    ∷ (codes "group-allow", record { acls = rule (codes "devices/#") true ∷ [] })
    ∷ []

abbrev decide : Text → Decision
decide topic =
    evaluate_permission (codes "sensor") (codes "a") topic (codes "publishClientSend") sensor
      writers two_roles ((codes "publishClientSend", false) ∷ [])

client_role_decides :
    ((decide (codes "devices/a")).allow ≡ false)
    × ((decide (codes "devices/a")).matched ≡ true)
    × ((decide (codes "other")).matched ≡ false)
unfolding evaluate_permission topic_matches ◌==◌ get sort_by text_compare starts_with ends_with
    split_on join strip_prefix
client_role_decides = (refl, refl, refl)

evaluate_permission-IsJustified_example :
    IsJustified
      (codes "sensor")
      (codes "a")
      (codes "devices/a")
      (codes "publishClientSend")
      sensor
      writers
      two_roles
      (decide (codes "devices/a"))
evaluate_permission-IsJustified_example =
    evaluate_permission-IsJustified (codes "sensor") (codes "a") (codes "devices/a")
      (codes "publishClientSend") sensor writers two_roles ((codes "publishClientSend", false) ∷ [])
      client_role_decides.1

evaluate_permission_default_example :
    (decide (codes "other") ≡ record {
      allow =
          or_default
            (get
              (default_key (codes "publishClientSend"))
              ((codes "publishClientSend", false) ∷ []))
            false;
      matched = false;
      rule = none;
      source = default (default_key (codes "publishClientSend"));
    })
    × All
        (λ check.
          All
            (λ acl.
              acl_matches
                (codes "sensor")
                (codes "a")
                (codes "other")
                (codes "publishClientSend")
                acl
              ≡ false)
            (relevant_acls (codes "publishClientSend") two_roles check.assignment))
        (role_checks (codes "sensor") sensor writers)
evaluate_permission_default_example =
    evaluate_permission_default (codes "sensor") (codes "a") (codes "other")
      (codes "publishClientSend") sensor writers two_roles ((codes "publishClientSend", false) ∷ [])
      client_role_decides.2

deny_listed :
    Memᴰ deny_rule (or_default (get (codes "client-deny") two_roles) (record { acls = [] })).acls
unfolding get ◌==◌
deny_listed = Memᴰ.head refl

deny_matches :
    acl_matches
      (codes "sensor")
      (codes "a")
      (codes "devices/a")
      (codes "publishClientSend")
      deny_rule
    ≡ true
unfolding acl_matches topic_matches ◌==◌ starts_with ends_with split_on join strip_prefix
deny_matches = refl

evaluate_permission_own_first_example :
    (b : Assignment) × Memᴰ b sensor.roles
    × ((decide (codes "devices/a")).source
        ≡ assigned SourceType.client (codes "sensor") (name_of b) (priority_of b.priority))
evaluate_permission_own_first_example =
    evaluate_permission_own_first (codes "sensor") (codes "a") (codes "devices/a")
      (codes "publishClientSend") sensor writers two_roles ((codes "publishClientSend", false) ∷ [])
      (named (codes "client-deny")) deny_rule (Memᴰ.head refl) deny_listed (unfold ◌==◌ in refl)
      deny_matches
