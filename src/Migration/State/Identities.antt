-- ===== src/Migration/State/Identities.antt =====
-- Whom the state that `migrate` of scripts/migrate_dynsec.py makes names.
use mqtt_broker_stack.Common.{
  Memᴰ, sym, subst, Text, codes, Dict, keys, values, put, ◌≡◌, refl, ap, ap₂, ◌∙◌, inl, inr,
  Bool-cases, true, false, All, Option, none, some, List, [], ◌∷◌, ◌++◌, map, sort_by, text_leb,
  one_of, arith, ◌==◌, eq_iff, if◌then◌else◌,
}
use mqtt_broker_stack.Models.{
  Json, null, bool, number, minus, string, array, object, end, item, Fields, done, field,
}
use mqtt_broker_stack.Migration.{returned, >>=-eq-returned, preserved_roles}
use mqtt_broker_stack.Migration.Passwords.{Digits, Client, parse_password_file}
use mqtt_broker_stack.Migration.Passwords.Complete.{
  AreClients, get-AreClients, parse_password_file-IsRead,
}
use mqtt_broker_stack.Migration.Owners.{Owner}
use mqtt_broker_stack.Migration.Acls.{AclFile}
use mqtt_broker_stack.Migration.State.Base.{
  list_in, find_field, set_field, fields_of, is_text, find_admin, preserved_name, keep_role,
  preserved_map, assigned_role, migrated_admin,
}
use mqtt_broker_stack.Migration.State.Parts.{
  preserved, migrated_role, administrator, migrated_client, State, MigratedRole, MigratedClient,
  role_name, role_for, client_for,
}
use mqtt_broker_stack.Migration.State.{migrate}
use mqtt_broker_stack.Migration.State.Contents.{Each, nobody, another, has_required}
use mqtt_broker_stack.Migration.State.Allowed.{migrate-IsMigrated}

module _ (passwords : Dict Client) (owners : Dict Owner) (acls : AclFile)
    (named : AreClients passwords) where
  Each-usernames :
      {us : List Text} {rs : List MigratedRole} {cs : List MigratedClient}
      → Each passwords owners acls us rs cs
      → (map (λ (c : MigratedClient). c.username) cs ≡ us)
        × (map (λ (r : MigratedRole). r.rolename) rs ≡ map role_name us)
  Each-usernames nobody = (refl, refl)
  Each-usernames (another {u = u} o c ho hc e) =
      let (clients, roles) = Each-usernames e in
      (
        ap₂ (λ x xs. x ∷ xs) (unfold client_for in (get-AreClients u c passwords named hc).0)
            clients,
        ap₂ (λ x xs. x ∷ xs) (unfold role_for in refl) roles,
      )

find_field-set_field :
    (k j : Text) (v : Json) (fs : Fields)
    → find_field k (set_field j v fs) ≡ (if j == k then some v else find_field k fs)
unfolding find_field set_field
find_field-set_field k j v done = refl
find_field-set_field k j v (field i x fs) =
    ground (arith, find_field-set_field k j v fs, eq_iff i j, eq_iff j k, eq_iff i k)

find_field-set_other :
    (k j : Text) (v : Json) (fs : Fields)
    → j == k ≡ false
    → find_field k (set_field j v fs) ≡ find_field k fs
find_field-set_other k j v fs h =
    find_field-set_field k j v fs ∙ ap (λ b. if b then some v else find_field k fs) h

-- An object of the list that has the text under the key.
pub record IsListed (js : List Json) (key text : Text) (j : Json) (fs : Fields) : Type 0 where
  pub listed : Memᴰ j js
  pub is_object : fields_of j ≡ returned fs
  pub is_named : is_text text (find_field key fs) ≡ true

find_admin-IsListed :
    (clients : List Json) (admin : Fields)
    → find_admin clients ≡ returned admin
    → (j : Json) × IsListed clients (codes "username") (codes "admin") j admin
unfolding find_admin
find_admin-IsListed [] admin e = cc e
find_admin-IsListed (client ∷ clients) admin e =
    let (fs, e1, e2) = >>=-eq-returned (fields_of client) _ e in
    elim (Bool-cases (is_text (codes "admin") (find_field (codes "username") fs))) [
      | inl t ↦
          let same : fs ≡ admin = cc (e2, t) in
          (client, rw (← same) (record { listed = Memᴰ.head refl; is_object = e1; is_named = t }))
      | inr n ↦
          let (j, l) = find_admin-IsListed clients admin (rw n at e2) in
          (
            j,
            record { listed = Memᴰ.tail l.listed; is_object = l.is_object; is_named = l.is_named },
          )
    ]

-- The administrator keeps its name and has two roles, whatever the base configuration gives it.
pub record IsAdministrator (fs : Fields) : Type 0 where
  pub named : is_text (codes "admin") (find_field (codes "username") fs) ≡ true
  pub roles :
      find_field (codes "roles") fs
      ≡ some (
          array (
            item
              (assigned_role (codes "dynsec-admin") 100)
              (item (assigned_role (codes "sys-observe") 10) end)))

migrated_admin-IsAdministrator :
    (fs : Fields)
    → is_text (codes "admin") (find_field (codes "username") fs) ≡ true
    → IsAdministrator (migrated_admin fs)
unfolding migrated_admin
migrated_admin-IsAdministrator fs h = record {
  named =
      ap (is_text (codes "admin")) (
        find_field-set_other (codes "username") (codes "roles") _ _ (unfold ◌==◌ in refl)
        ∙ find_field-set_other (codes "username") (codes "textdescription") _ _
            (unfold ◌==◌ in refl)
        ∙ find_field-set_other (codes "username") (codes "textname") _ _ (unfold ◌==◌ in refl))
      ∙ h;
  roles = find_field-set_field (codes "roles") (codes "roles") _ _ ∙ (unfold ◌==◌ in refl);
}

-- The entry is one of the roles that are preserved, under its own name.
pub record IsPreserved (roles : List Json) (entry : Text × Json) : Type 0 where
  pub known : one_of entry.0 preserved_roles ≡ true
  pub fields : Fields
  pub role : IsListed roles (codes "rolename") entry.0 entry.1 fields

preserved_name-known :
    (o : Option Json) (t : Text)
    → preserved_name o ≡ returned (some t)
    → (one_of t preserved_roles ≡ true) × (is_text t o ≡ true)
preserved_name-known none t q = cc q
preserved_name-known (some (string s)) t q = elim (Bool-cases (one_of s preserved_roles)) [
  | inl y ↦ let same : s ≡ t = ground arith in rw (← same) (y, (eq_iff s s).1 refl)
  | inr n ↦ ground arith
]
preserved_name-known (some (array _)) t q = cc q
preserved_name-known (some (object _)) t q = cc q
preserved_name-known (some null) t q = cc q
preserved_name-known (some (bool _)) t q = cc q
preserved_name-known (some (number _)) t q = cc q
preserved_name-known (some (minus _)) t q = cc q

module _ (all_roles : List Json) where
  put-IsPreserved :
      (k : Text) (j : Json) (d : Dict Json)
      → IsPreserved all_roles (k, j)
      → All (IsPreserved all_roles) d
      → All (IsPreserved all_roles) (put k j d)
  unfolding put
  put-IsPreserved k j [] p h = (p, tt)
  put-IsPreserved k j ((i, x) ∷ d) p h = elim (Bool-cases (i == k)) [
    | inl t ↦
        let same : i ≡ k = (eq_iff i k).0 t in
        rw t (subst (λ n. IsPreserved all_roles (n, j)) (sym same) p, h.1)
    | inr n ↦ rw n (h.0, put-IsPreserved k j d p h.1)
  ]

  preserved_map-IsPreserved :
      (roles : List Json) (d d' : Dict Json)
      → ((j : Json) → Memᴰ j roles → Memᴰ j all_roles)
      → preserved_map roles d ≡ returned d'
      → All (IsPreserved all_roles) d
      → All (IsPreserved all_roles) d'
  unfolding preserved_map
  preserved_map-IsPreserved [] d d' sub e h = let same : d ≡ d' = cc e in rw (← same) h
  preserved_map-IsPreserved (role ∷ roles) d d' sub e h =
      let (fs, e1, e2) = >>=-eq-returned (fields_of role) _ e in
      let (name, e3, e4) =
        >>=-eq-returned (preserved_name (find_field (codes "rolename") fs)) _ e2 in
      preserved_map-IsPreserved roles (keep_role name role d) d' (λ j m. sub j (Memᴰ.tail m)) e4
        (kept fs name e1 e3)
    where
      kept :
          (fs : Fields) (name : Option Text)
          → fields_of role ≡ returned fs
          → preserved_name (find_field (codes "rolename") fs) ≡ returned name
          → All (IsPreserved all_roles) (keep_role name role d)
      kept fs none e1 q = h
      kept fs (some t) e1 q =
          let (known, named) = preserved_name-known (find_field (codes "rolename") fs) t q in
          put-IsPreserved t role d
            (record {
              known = known;
              fields = fs;
              role = record {
                listed = sub role (Memᴰ.head refl);
                is_object = e1;
                is_named = named;
              };
            })
            h

module _ (digits : Digits) (password_file : Text) (acl_file : Option Text) (owners_file : Text)
    (base : Json) (st : State) (passwords : Dict Client) where
  -- Whom and what the state names.
  pub record IsPopulated : Type 0 where
    pub base_clients : List Json
    pub base_roles : List Json
    pub listed_clients : list_in (codes "clients") base ≡ returned base_clients
    pub listed_roles : list_in (codes "roles") base ≡ returned base_roles
    pub entry : Json
    pub base_admin : Fields
    pub from_base : IsListed base_clients (codes "username") (codes "admin") entry base_admin
    pub new_clients : List MigratedClient
    pub role_map : Dict Json
    pub new_roles : List MigratedRole
    pub clients :
        st.clients ≡ administrator (migrated_admin base_admin) ∷ map migrated_client new_clients
    pub is_admin : IsAdministrator (migrated_admin base_admin)
    pub usernames :
        map (λ (c : MigratedClient). c.username) new_clients ≡ sort_by text_leb (keys passwords)
    pub roles : st.roles ≡ map preserved (values role_map) ++ map migrated_role new_roles
    pub only_preserved : All (IsPreserved base_roles) role_map
    pub required : has_required role_map ≡ true
    pub rolenames :
        map (λ (r : MigratedRole). r.rolename) new_roles
        ≡ map role_name (sort_by text_leb (keys passwords))

  -- If a migration succeeds, the first client is made from a client of the base configuration that is
  -- named "admin", keeps this name and has exactly its two roles, and behind it stand the identities of
  -- the password file, sorted. The first roles are roles of the base configuration, each with a name that
  -- is to be preserved, the administrator's two among them; behind them stands one for each identity, in
  -- the same order and named after it.
  pub migrate-identities :
      migrate digits password_file acl_file owners_file base ≡ returned st
      → parse_password_file digits password_file ≡ returned passwords
      → IsPopulated
  migrate-identities e ep =
      let i = migrate-IsMigrated digits password_file acl_file owners_file base st e in
      let same : i.passwords ≡ passwords = cc (i.read_passwords, ep) in
      let (entry, from_base) =
        find_admin-IsListed i.built.base_clients i.built.admin i.built.found in
      let read = parse_password_file-IsRead digits password_file i.passwords i.read_passwords in
      let (clients, roles) = Each-usernames i.passwords i.owners i.acls read.named i.built.each in
      record {
        base_clients = i.built.base_clients;
        base_roles = i.built.base_roles;
        listed_clients = i.built.listed_clients;
        listed_roles = i.built.listed_roles;
        entry = entry;
        base_admin = i.built.admin;
        from_base = from_base;
        new_clients = i.built.new_clients;
        role_map = i.built.role_map;
        new_roles = i.built.new_roles;
        clients = i.built.clients;
        is_admin = migrated_admin-IsAdministrator i.built.admin from_base.is_named;
        usernames = clients ∙ ap (λ (p : Dict Client). sort_by text_leb (keys p)) same;
        roles = i.built.roles;
        only_preserved =
            preserved_map-IsPreserved i.built.base_roles i.built.base_roles [] i.built.role_map
              (λ j m. m) i.built.mapped tt;
        required = i.built.required;
        rolenames =
            roles ∙ ap (λ (p : Dict Client). map role_name (sort_by text_leb (keys p))) same;
      }
