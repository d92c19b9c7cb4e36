-- ===== src/Migration/State/Contents.antt =====
-- What `migrate` of scripts/migrate_dynsec.py puts into the state for each identity.
use mqtt_broker_stack.Common.{
  Text, codes, Dict, get, keys, has_key, values, ◌≡◌, refl, sym, ap, ◌∙◌, true, not, ◌&&◌, Option,
  none, some, List, [], ◌∷◌, ◌++◌, map, Bool, append_assoc, append-nil, arith, All, is_empty,
  sort_by, text_leb,
}
use mqtt_broker_stack.Models.{Json, Fields}
use mqtt_broker_stack.Migration.{
  returned, >>=-eq-returned, >>-eq-returned, unknown_acl_users, missing_admin_roles,
}
use mqtt_broker_stack.Migration.Passwords.{Client}
use mqtt_broker_stack.Migration.Owners.{Owner, sorted_difference}
use mqtt_broker_stack.Migration.Acls.{AclFile}
use mqtt_broker_stack.Migration.State.Base.{
  or_key_error, list_in, find_admin, preserved_map, migrated_admin,
}
use mqtt_broker_stack.Migration.State.Parts.{
  preserved, administrator, migrated_client, migrated_role, MigratedRole, MigratedClient,
  MigratedGroup, Ranked, State, role_for, client_for, group_client, Built, acls_of, add_client,
  add_clients, owner_names, group_for, groups_for, ranked_or_empty, unauthenticated, deny_all,
}
use mqtt_broker_stack.Migration.State.{build}

or_key_error-eq {ℓ} : {A : Type ℓ} (o : Option A) (a : A) → or_key_error o ≡ returned a → o ≡ some a
or_key_error-eq none a e = cc e
or_key_error-eq (some b) a e = cc e

abbrev pub Roleless : MigratedGroup → Type 0
Roleless g = g.roles ≡ []

-- The two roles that the administrator needs.
abbrev pub has_required : Dict Json → Bool
has_required role_map =
    has_key (codes "dynsec-admin") role_map && has_key (codes "sys-observe") role_map

module _ (passwords : Dict Client) (owners : Dict Owner) (acls : AclFile) where
  -- One role and one client for each identity, in order.
  pub data Each : List Text → List MigratedRole → List MigratedClient → Type 0 where
    nobody : Each [] [] []
    another :
        {u : Text} {us : List Text} {rs : List MigratedRole} {cs : List MigratedClient}
        (owner : Owner) (client : Client)
        → get u owners ≡ some owner
        → get u passwords ≡ some client
        → Each us rs cs
        → Each
            (u ∷ us)
            (role_for u owner (acls_of passwords owners acls u) ∷ rs)
            (client_for u owner client ∷ cs)

  -- What the loop adds to what was there.
  record Added (us : List Text) (b b' : Built) : Type 0 where
    new_roles : List MigratedRole
    new_clients : List MigratedClient
    each : Each us new_roles new_clients
    roles : b'.roles ≡ b.roles ++ map migrated_role new_roles
    clients : b'.clients ≡ b.clients ++ map migrated_client new_clients

  add_client-returned :
      (u : Text) (b b' : Built)
      → add_client passwords owners acls u b ≡ returned b'
      → (owner : Owner) × (client : Client) × (get u owners ≡ some owner)
        × (get u passwords ≡ some client)
        × (b'.roles
            ≡ b.roles ++ migrated_role (role_for u owner (acls_of passwords owners acls u)) ∷ [])
        × (b'.clients ≡ b.clients ++ migrated_client (client_for u owner client) ∷ [])
        × (b'.grouped ≡ group_client owner.group u b.grouped)
  unfolding add_client
  add_client-returned u b b' e =
      let (o, e1, e2) = >>=-eq-returned (or_key_error (get u owners)) _ e in
      let (c, e3, e4) = >>=-eq-returned (or_key_error (get u passwords)) _ e2 in
      (
        o,
        c,
        or_key_error-eq (get u owners) o e1,
        or_key_error-eq (get u passwords) c e3,
        cc e4,
        cc e4,
        cc e4,
      )

  add_clients-Added :
      (us : List Text) (b b' : Built)
      → add_clients passwords owners acls us b ≡ returned b'
      → Added us b b'
  unfolding add_clients
  add_clients-Added [] b b' e =
      let same : b ≡ b' = cc e in
      rw (← same) (record {
        new_roles = [];
        new_clients = [];
        each = nobody;
        roles = sym (append-nil b.roles);
        clients = sym (append-nil b.clients);
      })
  add_clients-Added (u ∷ us) b b' e =
      let (m, e1, e2) =
        >>=-eq-returned (add_client passwords owners acls u b)
          (λ m. add_clients passwords owners acls us m) e in
      let (o, c, ho, hc, hr, hcs, hg) = add_client-returned u b m e1 in
      let rest = add_clients-Added us m b' e2 in
      record {
        new_roles = role_for u o (acls_of passwords owners acls u) ∷ rest.new_roles;
        new_clients = client_for u o c ∷ rest.new_clients;
        each = another o c ho hc rest.each;
        roles =
            rest.roles
            ∙ ap (λ l. l ++ map migrated_role rest.new_roles) hr
            ∙ append_assoc b.roles
                (migrated_role (role_for u o (acls_of passwords owners acls u)) ∷ [])
                (map migrated_role rest.new_roles);
        clients =
            rest.clients
            ∙ ap (λ l. l ++ map migrated_client rest.new_clients) hcs
            ∙ append_assoc b.clients (migrated_client (client_for u o c) ∷ [])
                (map migrated_client rest.new_clients);
      }

  groups_for-Roleless :
      (grouped : Dict (List Ranked)) (ns : List Text) (gs : List MigratedGroup)
      → groups_for owners grouped ns ≡ returned gs
      → All Roleless gs
  unfolding groups_for group_for
  groups_for-Roleless grouped [] gs e = let same : [] ≡ gs = cc e in rw (← same) tt
  groups_for-Roleless grouped (n ∷ ns) gs e =
      let (g, e1, e2) =
        >>=-eq-returned (group_for owners n (ranked_or_empty (get n grouped))) _ e in
      let (rest, e3, e4) = >>=-eq-returned (groups_for owners grouped ns) _ e2 in
      let (os, e5, e6) =
        >>=-eq-returned (owner_names owners (ranked_or_empty (get n grouped))) _ e1 in
      let same : g ∷ rest ≡ gs = cc e4 in
      let none_given : g.roles ≡ [] = cc e6 in
      rw (← same) (none_given, groups_for-Roleless grouped ns rest e3)

  -- What a state that was built holds.
  pub record IsBuilt (base : Json) (st : State) : Type 0 where
    pub base_clients : List Json
    pub base_roles : List Json
    pub admin : Fields
    pub role_map : Dict Json
    pub new_roles : List MigratedRole
    pub new_clients : List MigratedClient
    pub listed_clients : list_in (codes "clients") base ≡ returned base_clients
    pub listed_roles : list_in (codes "roles") base ≡ returned base_roles
    pub found : find_admin base_clients ≡ returned admin
    pub mapped : preserved_map base_roles [] ≡ returned role_map
    pub required : has_required role_map ≡ true
    pub each : Each (sort_by text_leb (keys passwords)) new_roles new_clients
    pub roles : st.roles ≡ map preserved (values role_map) ++ map migrated_role new_roles
    pub clients :
        st.clients ≡ administrator (migrated_admin admin) ∷ map migrated_client new_clients
    pub roleless : All Roleless st.groups
    pub denied : st.default_acl_access ≡ deny_all
    pub known : is_empty (sorted_difference (keys acls.users) (keys passwords)) ≡ true

  pub build-IsBuilt :
      (base : Json) (st : State) → build base passwords owners acls ≡ returned st → IsBuilt base st
  unfolding build
  build-IsBuilt base st e =
      let unknown = sorted_difference (keys acls.users) (keys passwords) in
      let (k, e1) = >>-eq-returned (not (is_empty unknown)) (unknown_acl_users unknown) _ e in
      let (clients, listed_clients, e2) = >>=-eq-returned (list_in (codes "clients") base) _ e1 in
      let (admin, found, e3) = >>=-eq-returned (find_admin clients) _ e2 in
      let (roles, listed_roles, e4) = >>=-eq-returned (list_in (codes "roles") base) _ e3 in
      let (role_map, mapped, e5) = >>=-eq-returned (preserved_map roles []) _ e4 in
      let (required, e6) = >>-eq-returned (not (has_required role_map)) missing_admin_roles _ e5 in
      let empty : Built = record {
        roles = map preserved (values role_map);
        clients = administrator (migrated_admin admin) ∷ [];
        grouped = [];
      } in
      let (b, e7, e8) =
        >>=-eq-returned
          (add_clients passwords owners acls (sort_by text_leb (keys passwords)) empty) _ e6 in
      let (gs, e9, e10) =
        >>=-eq-returned (groups_for owners b.grouped (sort_by text_leb (keys b.grouped))) _ e8 in
      let added = add_clients-Added (sort_by text_leb (keys passwords)) empty b e7 in
      let grouped = groups_for-Roleless b.grouped (sort_by text_leb (keys b.grouped)) gs e9 in
      let same : record {
        default_acl_access = deny_all;
        clients = b.clients;
        groups = unauthenticated ∷ gs;
        roles = b.roles;
        anonymous_group = codes "unauthenticated";
      }
          ≡ st =
        cc e10 in
      rw (← same) (record {
        base_clients = clients;
        base_roles = roles;
        listed_clients = listed_clients;
        listed_roles = listed_roles;
        admin = admin;
        role_map = role_map;
        new_roles = added.new_roles;
        new_clients = added.new_clients;
        found = found;
        mapped = mapped;
        required = ground arith;
        each = added.each;
        roles = added.roles;
        clients = added.clients;
        roleless = (refl, grouped);
        denied = refl;
        known = ground arith;
      })
