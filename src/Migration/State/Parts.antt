-- ===== src/Migration/State/Parts.antt =====
-- The clients, roles and groups of the new state that `migrate` of scripts/migrate_dynsec.py builds.
use mqtt_broker_stack.Common.{
  ℕ, Text, codes, Dict, get, put, Bool, true, false, Option, none, some, List, [], ◌∷◌, ◌++◌, join,
  one_of, sort_by, text_leb, if◌then◌else◌,
}
use mqtt_broker_stack.Models.{Json, Fields}
use mqtt_broker_stack.Migration.{Attempt, returned, ◌>>=◌}
use mqtt_broker_stack.Migration.Passwords.{Client, Credential}
use mqtt_broker_stack.Migration.Owners.{Owner}
use mqtt_broker_stack.Migration.Acls.{Rule, AclFile, rules_or_empty, deduplicate_acls}
use mqtt_broker_stack.Migration.State.Base.{or_key_error}

pub record MigratedRole : Type 0 where
  pub rolename : Text
  pub textname : Text
  pub textdescription : Text
  pub allowwildcardsubs : Bool
  pub acls : List Rule

-- A role's or group's name with a priority.
pub record Ranked : Type 0 where
  pub name : Text
  pub priority : ℕ

pub record MigratedClient : Type 0 where
  pub username : Text
  pub credential : Credential
  pub textname : Text
  pub textdescription : Text
  pub disabled : Bool
  pub roles : List Ranked

pub record MigratedGroup : Type 0 where
  pub groupname : Text
  pub textname : Text
  pub textdescription : Text
  pub roles : List Ranked
  pub clients : List Ranked

pub record Defaults : Type 0 where
  pub publish_client_send : Bool
  pub publish_client_receive : Bool
  pub subscribe : Bool
  pub unsubscribe : Bool

-- The administrator and the migrated clients stand in one list, the preserved and the migrated roles too.
pub data StateClient : Type 0 where
  administrator : Fields → StateClient
  migrated_client : MigratedClient → StateClient

pub data StateRole : Type 0 where
  preserved : Json → StateRole
  migrated_role : MigratedRole → StateRole

-- `result`
pub record State : Type 0 where
  pub default_acl_access : Defaults
  pub clients : List StateClient
  pub groups : List MigratedGroup
  pub roles : List StateRole
  pub anonymous_group : Text

abbrev pub role_name : Text → Text
role_name username = codes "migrated-" ++ username

unfoldable pub role_for : Text → Owner → List Rule → MigratedRole
role_for username owner acls = record {
  rolename = role_name username;
  textname = codes "Migrated permissions for " ++ username;
  textdescription = codes "Explicit legacy ACL mapping. Owner: " ++ (owner.owner ++ codes ".");
  allowwildcardsubs = true;
  acls = acls;
}

unfoldable pub client_for : Text → Owner → Client → MigratedClient
client_for username owner client = record {
  username = client.username;
  credential = client.credential;
  textname = username;
  textdescription =
      codes "Owner: "
      ++ (owner.owner
          ++ codes "; migrated from password_file. Permissions are explicit and default deny.");
  disabled = false;
  roles = record { name = role_name username; priority = 50 } ∷ [];
}

abbrev pub ranked_or_empty : Option (List Ranked) → List Ranked
ranked_or_empty none = []
ranked_or_empty (some rs) = rs

-- `grouped_clients.setdefault(group, []).append(...)`
unfoldable pub group_client : Text → Text → Dict (List Ranked) → Dict (List Ranked)
unfolding get put
group_client group username grouped =
    put group
      (ranked_or_empty (get group grouped) ++ record { name = username; priority = 50 } ∷ [])
      grouped

-- What the loop over the clients has built.
pub record Built : Type 0 where
  pub roles : List StateRole
  pub clients : List StateClient
  pub grouped : Dict (List Ranked)

module _ (passwords : Dict Client) (owners : Dict Owner) (acls : AclFile) where
  unfoldable pub acls_of : Text → List Rule
  unfolding deduplicate_acls get
  acls_of username = deduplicate_acls (acls.global ++ rules_or_empty (get username acls.users))

  unfoldable pub add_client : Text → Built → Attempt Built
  unfolding role_for client_for group_client acls_of get
  add_client username b = do
    owner ← or_key_error (get username owners)
    client ← or_key_error (get username passwords)
    returned (record {
      roles = b.roles ++ migrated_role (role_for username owner (acls_of username)) ∷ [];
      clients = b.clients ++ migrated_client (client_for username owner client) ∷ [];
      grouped = group_client owner.group username b.grouped;
    })

  unfoldable pub add_clients : List Text → Built → Attempt Built
  unfolding add_client
  add_clients [] b = returned b
  add_clients (username ∷ usernames) b = do c ← add_client username b; add_clients usernames c

abbrev add_text : Text → List Text → List Text
add_text t ts = if one_of t ts then ts else t ∷ ts

-- `sorted({owners[item["username"]].owner for item in clients})`
unfoldable pub owner_names : Dict Owner → List Ranked → Attempt (List Text)
unfolding get
owner_names owners [] = returned []
owner_names owners (r ∷ rs) = do
  owner ← or_key_error (get r.name owners)
  rest ← owner_names owners rs
  returned (add_text owner.owner rest)

unfoldable pub group_for : Dict Owner → Text → List Ranked → Attempt MigratedGroup
unfolding owner_names
group_for owners name clients = do
  group_owners ← owner_names owners clients
  returned (record {
    groupname = name;
    textname = name;
    textdescription =
        codes "Ownership group: " ++ join (codes ", ") (sort_by text_leb group_owners);
    roles = [];
    clients = clients;
  })

unfoldable pub groups_for :
    Dict Owner → Dict (List Ranked) → List Text → Attempt (List MigratedGroup)
unfolding group_for get
groups_for owners grouped [] = returned []
groups_for owners grouped (name ∷ more) = do
  group ← group_for owners name (ranked_or_empty (get name grouped))
  rest ← groups_for owners grouped more
  returned (group ∷ rest)

abbrev pub unauthenticated : MigratedGroup
unauthenticated = record {
  groupname = codes "unauthenticated";
  textname = codes "Unauthenticated group";
  textdescription = codes "No roles; anonymous external access is disabled.";
  roles = [];
  clients = [];
}

abbrev pub deny_all : Defaults
deny_all = record {
  publish_client_send = false;
  publish_client_receive = false;
  subscribe = false;
  unsubscribe = false;
}
