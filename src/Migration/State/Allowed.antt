-- ===== src/Migration/State/Allowed.antt =====
-- The state that `migrate` of scripts/migrate_dynsec.py makes, under the evaluation of
-- admin-api/app/policy.py: who may do what.
use mqtt_broker_stack.Common.{
  Text, codes, Dict, get, get-put, put, keys, ◌≡◌, ◌⊎◌, inl, inr, refl, sym, ap, ◌∙◌, Bool, true,
  false, false≢true, values, mem-map_cases, Option, none, some, List, [], ◌∷◌, ◌++◌, map, Memᴰ,
  arith, All, All-append, any, ◌==◌, eq_iff, eq_refl, Bool-cases, if_cases, if◌then◌else◌, sort_by,
  text_leb, SameMembers,
}
use mqtt_broker_stack.Common.Int.{pos}
use mqtt_broker_stack.Models.{Json, Fields, object, string}
use mqtt_broker_stack.Policy.Evaluate
use mqtt_broker_stack.Policy.Evaluate.{
  Assignment, Role, Group, Decision, or_default, evaluate_permission,
}
use mqtt_broker_stack.Policy.Evaluate.Laws.{role_acls, group_roles}
use mqtt_broker_stack.Migration.{returned, >>=-eq-returned}
use mqtt_broker_stack.Migration.Passwords.{Digits, Client, parse_password_file}
use mqtt_broker_stack.Migration.Passwords.Complete.{get-AreClients, parse_password_file-IsRead}
use mqtt_broker_stack.Migration.Owners.{Owner, parse_owners}
use mqtt_broker_stack.Migration.Acls.{Rule, AclFile, rules_or_empty, parse_acl_file}
use mqtt_broker_stack.Migration.Acls.Unique.{
  IsRanked, mem-deduplicate_acls, mem_of_mem-deduplicate_acls,
}
use mqtt_broker_stack.Migration.Acls.Parsed.{IsRule, get-HasRules, parse_acl_file-IsParsed}
use mqtt_broker_stack.Migration.Decision.{to_acl, permits, IsConfined, evaluate_permission-confined}
use mqtt_broker_stack.Migration.State.Base.{find_field}
use mqtt_broker_stack.Migration.State.Parts.{
  StateRole, preserved, migrated_role, StateClient, administrator, migrated_client, Ranked,
  MigratedRole, MigratedClient, MigratedGroup, Defaults, State, role_name, role_for, client_for,
  acls_of, deny_all,
}
use mqtt_broker_stack.Migration.State.{migrate}
use mqtt_broker_stack.Migration.State.Contents.{
  Each, nobody, another, Roleless, IsBuilt, build-IsBuilt,
}

-- The migrated parts as the evaluation takes them.
abbrev pub to_assignment : Ranked → Assignment
to_assignment r = record { name = some r.name; priority = some (pos r.priority) }

abbrev role_key : Json → Option Json
role_key (object fs) = find_field (codes "rolename") fs
role_key _ = none

abbrev put_role : Option Json → Role → Dict Role → Dict Role
put_role (some (string name)) role d = put name role d
put_role _ role d = d

-- `view` gives the rules of a role that was preserved from the base configuration.
unfoldable pub policy_roles : (Json → Role) → List StateRole → Dict Role → Dict Role
unfolding find_field
policy_roles view [] d = d
policy_roles view (preserved j ∷ rs) d = policy_roles view rs (put_role (role_key j) (view j) d)
policy_roles view (migrated_role r ∷ rs) d =
    policy_roles view rs (put r.rolename (record { acls = map to_acl r.acls }) d)

policy_roles-append :
    (view : Json → Role) (rs ss : List StateRole) (d : Dict Role)
    → policy_roles view (rs ++ ss) d ≡ policy_roles view ss (policy_roles view rs d)
unfolding policy_roles
policy_roles-append view [] ss d = refl
policy_roles-append view (preserved j ∷ rs) ss d = policy_roles-append view rs ss _
policy_roles-append view (migrated_role r ∷ rs) ss d = policy_roles-append view rs ss _

abbrev migrated_or : MigratedClient → StateClient → MigratedClient
migrated_or d (administrator fs) = d
migrated_or d (migrated_client c) = c

is_administrator : StateClient → Bool
is_administrator (administrator fs) = true
is_administrator (migrated_client c) = false

mem_of_mem-clients :
    (c : MigratedClient) (fs : Fields) (cs : List MigratedClient)
    → Memᴰ (migrated_client c) (administrator fs ∷ map migrated_client cs)
    → Memᴰ c cs
unfolding is_administrator
mem_of_mem-clients c fs cs (Memᴰ.head q) = absurd (false≢true (ap is_administrator q))
mem_of_mem-clients c fs cs (Memᴰ.tail m) =
    let (a, h, e) = mem-map_cases migrated_client cs m in
    let same : c ≡ a = ap (migrated_or c) e in rw same h

unfoldable pub policy_groups : List MigratedGroup → Dict Group → Dict Group
policy_groups [] d = d
policy_groups (g ∷ gs) d =
    policy_groups gs (put g.groupname (record { roles = map to_assignment g.roles }) d)

abbrev lists : Text → MigratedGroup → Bool
lists username g = any (λ r. r.name == username) g.clients

unfoldable pub memberships : Text → List MigratedGroup → List Assignment
memberships username [] = []
memberships username (g ∷ gs) =
    let rest = memberships username gs in
    if lists username g then record { name = some g.groupname; priority = none } ∷ rest else rest

unfoldable pub policy_client : State → MigratedClient → Evaluate.Client
policy_client st c = record {
  roles = map to_assignment c.roles;
  groups = memberships c.username st.groups;
}

unfoldable pub policy_defaults : Defaults → Dict Bool
policy_defaults d =
    (codes "publishClientSend", d.publish_client_send)
    ∷ (codes "publishClientReceive", d.publish_client_receive)
    ∷ (codes "subscribe", d.subscribe)
    ∷ (codes "unsubscribe", d.unsubscribe)
    ∷ []

role_name_inj : (u v : Text) → role_name u ≡ role_name v → u ≡ v
role_name_inj u v e = cc e

deny_all-denies : (k : Text) → or_default (get k (policy_defaults deny_all)) false ≡ false
unfolding policy_defaults get
deny_all-denies k = ground arith

group_roles-put :
    (name g : Text) (d : Dict Group)
    → ((h : Text) → group_roles d h ≡ [])
    → group_roles (put name (record { roles = [] }) d) g ≡ []
group_roles-put name g d h =
    rw (get-put name g (record { roles = [] }) d, group_roles)
      (if_cases (λ (o : Option Group). (or_default o (record { roles = [] })).roles ≡ [])
        (name == g) _ _ refl (h g))

policy_groups-Roleless :
    (gs : List MigratedGroup) (d : Dict Group) (name : Text)
    → All Roleless gs
    → ((h : Text) → group_roles d h ≡ [])
    → group_roles (policy_groups gs d) name ≡ []
unfolding policy_groups
policy_groups-Roleless [] d name r h = h name
policy_groups-Roleless (g ∷ gs) d name r h =
    policy_groups-Roleless gs (put g.groupname (record { roles = map to_assignment g.roles }) d)
      name r.1 (λ k. rw r.0 (group_roles-put g.groupname k d h))

module _ (passwords : Dict Client) (owners : Dict Owner) (acls : AclFile) where
  abbrev own_role : Text → Role
  own_role u = record { acls = map to_acl (acls_of passwords owners acls u) }

  get-policy_roles :
      (view : Json → Role) (u : Text) {us : List Text} {rs : List MigratedRole}
      {cs : List MigratedClient} (d : Dict Role)
      → Each passwords owners acls us rs cs
      → (get (role_name u) d ≡ some (own_role u)) ⊎ Memᴰ u us
      → get (role_name u) (policy_roles view (map migrated_role rs) d) ≡ some (own_role u)
  unfolding policy_roles
  get-policy_roles view u d nobody (inl h) = h
  get-policy_roles view u d nobody (inr m) = elim m [ ]
  get-policy_roles view u d (another {u = v} o c ho hc e) h = get-policy_roles view u _ e (
      unfold role_for in
      (elim (Bool-cases (role_name v == role_name u)) [
        | inl t ↦
            let same = role_name_inj v u ((eq_iff (role_name v) (role_name u)).0 t) in
            inl (
              get-put (role_name v) (role_name u) (own_role v) d
              ∙ rw t (ap (λ x. some (own_role x)) same))
        | inr f ↦ elim h [
          | inl g ↦ inl (get-put (role_name v) (role_name u) (own_role v) d ∙ rw f g)
          | inr (Memᴰ.head q) ↦
              absurd (cc (f, ap (λ x. role_name x == role_name u) q, eq_refl (role_name u)))
          | inr (Memᴰ.tail m) ↦ inr m
        ]
      ]))

  Each-client :
      {us : List Text} {rs : List MigratedRole} {cs : List MigratedClient} (c : MigratedClient)
      → Each passwords owners acls us rs cs
      → Memᴰ c cs
      → (u : Text) × (owner : Owner) × (client : Client) × Memᴰ u us
        × (get u passwords ≡ some client)
        × (c ≡ client_for u owner client)
  Each-client c nobody m = elim m [ ]
  Each-client c (another {u = v} o b ho hc e) (Memᴰ.head q) = (v, o, b, Memᴰ.head refl, hc, q)
  Each-client c (another o b ho hc e) (Memᴰ.tail m) =
      let (u, o', b', mu, h, q) = Each-client c e m in (u, o', b', Memᴰ.tail mu, h, q)

  acls_of-SameMembers :
      (u : Text)
      → SameMembers
          (acls.global ++ rules_or_empty (get u acls.users))
          (acls_of passwords owners acls u)
  unfolding acls_of
  acls_of-SameMembers u x = (λ m. mem-deduplicate_acls _ m, λ m. mem_of_mem-deduplicate_acls _ m)

module _ (digits : Digits) (password_file : Text) (acl_file : Option Text) (owners_file : Text)
    (base : Json) (st : State) where
  -- The three tables that a migration was built from.
  pub record IsMigrated : Type 0 where
    pub passwords : Dict Client
    pub owners : Dict Owner
    pub acls : AclFile
    pub read_passwords : parse_password_file digits password_file ≡ returned passwords
    pub read_owners : parse_owners owners_file (keys passwords) ≡ returned owners
    pub read_acls : parse_acl_file acl_file ≡ returned acls
    pub built : IsBuilt passwords owners acls base st

  pub migrate-IsMigrated :
      migrate digits password_file acl_file owners_file base ≡ returned st → IsMigrated
  unfolding migrate
  migrate-IsMigrated e =
      let (p, e1, e2) = >>=-eq-returned (parse_password_file digits password_file) _ e in
      let (o, e3, e4) = >>=-eq-returned (parse_owners owners_file (keys p)) _ e2 in
      let (a, e5, e6) = >>=-eq-returned (parse_acl_file acl_file) _ e4 in
      record {
        passwords = p;
        owners = o;
        acls = a;
        read_passwords = e1;
        read_owners = e3;
        read_acls = e5;
        built = build-IsBuilt p o a base st e6;
      }

  client-IsConfined :
      (view : Json → Role) (i : IsMigrated) (c : MigratedClient) (clientid topic action u : Text)
      (owner : Owner) (client : Client)
      → Memᴰ u (sort_by text_leb (keys i.passwords))
      → c ≡ client_for u owner client
      → IsConfined c.username clientid topic action
          (i.acls.global ++ rules_or_empty (get u i.acls.users))
          (acls_of i.passwords i.owners i.acls u)
          (role_name u)
          (policy_client st c)
          (policy_groups st.groups [])
          (policy_roles view st.roles [])
          (policy_defaults st.default_acl_access)
  unfolding policy_client client_for
  client-IsConfined view i c clientid topic action u owner client m e = record {
    assignment = record { name = some (role_name u); priority = some (pos 50) };
    only = ap (λ (x : MigratedClient). map to_assignment x.roles) e;
    named = refl;
    rules =
        rw
          (
            i.built.roles,
            policy_roles-append view (map preserved (values i.built.role_map))
                (map migrated_role i.built.new_roles) [],
            get-policy_roles i.passwords i.owners i.acls view u
                (policy_roles view (map preserved (values i.built.role_map)) []) i.built.each
                (inr m),
            role_acls,
          )
          refl;
    members = acls_of-SameMembers i.passwords i.owners i.acls u;
    ungrouped =
        λ g. policy_groups-Roleless st.groups [] g i.built.roleless (λ h. unfold get in refl);
    denied = λ k. rw i.built.denied (deny_all-denies k);
  }

  rules-IsRanked : (rs : List Rule) → All IsRule rs → All IsRanked rs
  rules-IsRanked [] h = tt
  rules-IsRanked (r ∷ rs) h = (h.0.ranked, rules-IsRanked rs h.1)

  -- If a migration succeeds, then for each of the clients that it migrates the evaluation of the new state allows an action
  -- on a topic exactly if a rule of the ACL file, for everybody or for this client, covers it, and none of
  -- these rules that covers it denies. In particular what no rule covers is denied, and a denial wins.
  pub migrate-evaluate_permission :
      (view : Json → Role) (acls : AclFile) (c : MigratedClient) (clientid topic action : Text)
      → migrate digits password_file acl_file owners_file base ≡ returned st
      → parse_acl_file acl_file ≡ returned acls
      → Memᴰ (migrated_client c) st.clients
      → (evaluate_permission c.username clientid topic action
          (policy_client st c)
          (policy_groups st.groups [])
          (policy_roles view st.roles [])
          (policy_defaults st.default_acl_access)).allow
        ≡ permits c.username clientid topic action
            (acls.global ++ rules_or_empty (get c.username acls.users))
  migrate-evaluate_permission view acls c clientid topic action e ea m =
      let i = migrate-IsMigrated e in
      let listed = mem_of_mem-clients c _ i.built.new_clients (rw i.built.clients at m) in
      let (u, owner, client, mu, h, q) =
        Each-client i.passwords i.owners i.acls c i.built.each listed in
      let read = parse_password_file-IsRead digits password_file i.passwords i.read_passwords in
      let named : c.username ≡ u =
        ap (λ (x : MigratedClient). x.username) q
        ∙ (unfold client_for in (get-AreClients u client i.passwords read.named h).0) in
      let same : i.acls ≡ acls = cc (i.read_acls, ea) in
      let parsed = parse_acl_file-IsParsed acl_file i.acls i.read_acls in
      let ranked = rules-IsRanked (i.acls.global ++ rules_or_empty (get u i.acls.users)) (
        All-append IsRule i.acls.global (rules_or_empty (get u i.acls.users)) parsed.global_rules
          (get-HasRules u i.acls.users parsed.user_rules)) in
      evaluate_permission-confined c.username clientid topic action
        (i.acls.global ++ rules_or_empty (get u i.acls.users))
        (acls_of i.passwords i.owners i.acls u) (role_name u) (policy_client st c)
        (policy_groups st.groups []) (policy_roles view st.roles [])
        (policy_defaults st.default_acl_access)
        (client-IsConfined view i c clientid topic action u owner client mu q) ranked
      ∙ ap
          (λ v.
            permits c.username clientid topic action
              (i.acls.global ++ rules_or_empty (get v i.acls.users)))
          (sym named)
      ∙ ap
          (λ (a : AclFile).
            permits c.username clientid topic action
              (a.global ++ rules_or_empty (get c.username a.users)))
          same
