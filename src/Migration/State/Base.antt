-- ===== src/Migration/State/Base.antt =====
-- How `migrate` of scripts/migrate_dynsec.py reads the base configuration, a JSON value: the roles that it
-- keeps and the administrator.
use mqtt_broker_stack.Common.{
  ℕ, Text, codes, Dict, put, Bool, false, Option, none, some, List, [], ◌∷◌, ◌==◌, one_of,
  if◌then◌else◌,
}
use mqtt_broker_stack.Models.{
  Json, number, string, array, object, Items, end, item, Fields, done, field,
}
use mqtt_broker_stack.Migration.{
  Attempt, returned, failed, ◌>>=◌, preserved_roles, no_admin, key_error, attribute_error,
  type_error,
}
use mqtt_broker_stack.Migration.Acls.{}

abbrev pub or_key_error {ℓ} : {A : Type ℓ} → Option A → Attempt A
or_key_error none = failed key_error
or_key_error (some a) = returned a

-- `fields.get(name)` and `fields[name] = value` on the fields of a JSON object.
unfoldable pub find_field : Text → Fields → Option Json
find_field name done = none
find_field name (field k v fs) = let rest = find_field name fs in if k == name then some v else rest

unfoldable pub set_field : Text → Json → Fields → Fields
set_field name value done = field name value done
set_field name value (field k v fs) =
    let rest = field k v (set_field name value fs) in if k == name then field k value fs else rest

abbrev pub fields_of : Json → Attempt Fields
fields_of (object fs) = returned fs
fields_of _ = failed attribute_error

abbrev characters : Text → List Json
characters [] = []
characters (c ∷ s) = string (c ∷ []) ∷ characters s

abbrev listed : Items → List Json
listed end = []
listed (item j is) = j ∷ listed is

abbrev names : Fields → List Json
names done = []
names (field k v fs) = string k ∷ names fs

-- What `for x in value` goes through.
abbrev pub iterate : Json → Attempt (List Json)
iterate (array is) = returned (listed is)
iterate (string t) = returned (characters t)
iterate (object fs) = returned (names fs)
iterate _ = failed type_error

abbrev pub or_empty_list : Option Json → Json
or_empty_list none = array end
or_empty_list (some j) = j

-- `base.get(name, [])`, to be gone through.
unfoldable pub list_in : Text → Json → Attempt (List Json)
unfolding find_field
list_in name base = do fs ← fields_of base; iterate (or_empty_list (find_field name fs))

abbrev pub is_text : Text → Option Json → Bool
is_text t (some (string s)) = s == t
is_text t _ = false

-- The `next(...)` for the first client that is named admin.
unfoldable pub find_admin : List Json → Attempt Fields
unfolding find_field
find_admin [] = failed no_admin
find_admin (client ∷ clients) =
    let rest = find_admin clients in
    do
      fs ← fields_of client
      if is_text (codes "admin") (find_field (codes "username") fs) then returned fs else rest

-- The value of `role.get("rolename")` as a key, if it is one of `PRESERVED_ROLES`.
abbrev pub preserved_name : Option Json → Attempt (Option Text)
preserved_name none = returned none
preserved_name (some (string t)) = returned (if one_of t preserved_roles then some t else none)
preserved_name (some (array _)) = failed type_error
preserved_name (some (object _)) = failed type_error
preserved_name (some _) = returned none

abbrev pub keep_role : Option Text → Json → Dict Json → Dict Json
keep_role none role role_map = role_map
keep_role (some t) role role_map = put t role role_map

-- `role_map`
unfoldable pub preserved_map : List Json → Dict Json → Attempt (Dict Json)
unfolding find_field
preserved_map [] role_map = returned role_map
preserved_map (role ∷ roles) role_map = do
  fs ← fields_of role
  name ← preserved_name (find_field (codes "rolename") fs)
  preserved_map roles (keep_role name role role_map)

abbrev pub assigned_role : Text → ℕ → Json
assigned_role name priority =
    object
      (field (codes "rolename") (string name) (field (codes "priority") (number priority) done))

-- The administrator with the two roles of its own and no others.
unfoldable pub migrated_admin : Fields → Fields
unfolding set_field
migrated_admin fs =
    set_field (codes "roles")
      (array (
        item (assigned_role (codes "dynsec-admin") 100)
          (item (assigned_role (codes "sys-observe") 10) end)))
      (set_field (codes "textdescription")
        (string (codes "Dedicated control-plane identity; no application topic access."))
        (set_field (codes "textname") (string (codes "Dynamic Security administrator")) fs))
