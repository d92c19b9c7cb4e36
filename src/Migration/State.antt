-- ===== src/Migration/State.antt =====
-- `migrate` of scripts/migrate_dynsec.py up to the file that it writes, and the exit status of the
-- script. The files are given as their texts, and the base configuration as the JSON value in it.
mod Base
mod Parts
pub mod Contents
pub mod Allowed
pub mod Identities
mod Tests
use mqtt_broker_stack.Common.{
  ℕ, Text, codes, Dict, get, put, has_key, keys, values, Bool, true, false, ◌&&◌, not, Option, none,
  some, List, [], ◌∷◌, ◌++◌, map, ◌==◌, is_empty, join, one_of, sort_by, text_leb, if◌then◌else◌,
}
use mqtt_broker_stack.Models.{
  Json, null, bool, number, minus, string, array, object, Items, end, item, Fields, done, field,
}
use mqtt_broker_stack.Migration.{
  Failure, Attempt, returned, failed, ◌>>=◌, ◌>>◌, fail_if, preserved_roles, unknown_acl_users,
  no_admin, missing_admin_roles, key_error, attribute_error, type_error, rotation_required,
  value_error,
}
use mqtt_broker_stack.Migration.Passwords.{Digits, Client, Credential, parse_password_file}
use mqtt_broker_stack.Migration.Owners.{Owner, parse_owners, sorted_difference}
use mqtt_broker_stack.Migration.Acls.{
  Rule, AclFile, rules_or_empty, parse_acl_file, deduplicate_acls,
}
use mqtt_broker_stack.Migration.State.Base.{list_in, find_admin, preserved_map, migrated_admin}
use mqtt_broker_stack.Migration.State.Parts.{
  preserved, administrator, State, add_clients, groups_for, unauthenticated, deny_all,
}

-- `migrate` behind its three parsers.
unfoldable pub build : Json → Dict Client → Dict Owner → AclFile → Attempt State
unfolding sorted_difference list_in find_admin preserved_map migrated_admin add_clients groups_for
    has_key
build base passwords owners acls = do
  let unknown = sorted_difference (keys acls.users) (keys passwords)
  fail_if (not (is_empty unknown)) (unknown_acl_users unknown)
  clients ← list_in (codes "clients") base
  admin ← find_admin clients
  roles ← list_in (codes "roles") base
  role_map ← preserved_map roles []
  fail_if (not (has_key (codes "dynsec-admin") role_map && has_key (codes "sys-observe") role_map))
      missing_admin_roles
  built ← add_clients passwords owners acls (sort_by text_leb (keys passwords)) (record {
    roles = map preserved (values role_map);
    clients = administrator (migrated_admin admin) ∷ [];
    grouped = [];
  })
  groups ← groups_for owners built.grouped (sort_by text_leb (keys built.grouped))
  returned (record {
    default_acl_access = deny_all;
    clients = built.clients;
    groups = unauthenticated ∷ groups;
    roles = built.roles;
    anonymous_group = codes "unauthenticated";
  })

unfoldable pub migrate : Digits → Text → Option Text → Text → Json → Attempt State
unfolding parse_password_file parse_owners parse_acl_file build
migrate digits password_file acl_file owners_file base = do
  passwords ← parse_password_file digits password_file
  owners ← parse_owners owners_file (keys passwords)
  acls ← parse_acl_file acl_file
  build base passwords owners acls

-- How `main` ends: with an exit status, or by an exception that it does not catch.
pub data Exit : Type 0 where
  exits : ℕ → Exit
  uncaught : Failure → Exit

unfoldable pub exit_of : Attempt State → Exit
exit_of (returned s) = exits 0
exit_of (failed (rotation_required users)) = exits 2
exit_of (failed value_error) = uncaught value_error
exit_of (failed key_error) = uncaught key_error
exit_of (failed attribute_error) = uncaught attribute_error
exit_of (failed type_error) = uncaught type_error
exit_of (failed e) = exits 1
