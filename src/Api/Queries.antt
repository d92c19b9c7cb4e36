-- ===== src/Api/Queries.antt =====
-- The routes of admin-api/app/main.py that ask the broker and change nothing there: the lists of
-- clients, groups and roles, the connections, and the query for a permission. `list_objects` is that of
-- admin-api/app/broker.py.
use mqtt_broker_stack.Common.{
  Text, codes, Dict, put, Bool, true, Option, none, some, List, [], ◌∷◌, ◌++◌, contains, is_empty,
  if◌then◌else◌, ◌==◌,
}
use mqtt_broker_stack.Models.{
  Json, null, bool, number, minus, string, array, object, Items, end, item, Fields, done, field,
  key_error, type_error, attribute_error, Exec, pure, raise, or_raise, ◌>>=◌, ◌>>◌, Env, read_clock,
}
use mqtt_broker_stack.Auth.{Request, Credentials, require_role}
use mqtt_broker_stack.Broker.{get_field, truthy, list_field}
use mqtt_broker_stack.Policy.Evaluate.{Client, Group, Role, Decision, evaluate_permission}
use mqtt_broker_stack.Api.{json_or, json_or_null, command, audit}

-- `value.get(name)`: only an object has a `get`.
abbrev pub get_of : Json → Text → Exec (Option Json)
get_of (object fs) name = pure (get_field name fs)
get_of _ name = raise attribute_error

abbrev pub characters : Text → Items
characters [] = end
characters (c ∷ s) = item (string (c ∷ [])) (characters s)

abbrev pub key_items : Fields → Items
key_items done = end
key_items (field k v fs) = item (string k) (key_items fs)

-- What a `for` goes through.
abbrev pub iterate : Json → Exec Items
iterate (array is) = pure is
iterate (string s) = pure (characters s)
iterate (object fs) = pure (key_items fs)
iterate _ = raise type_error

module _ (env : Env) where
  -- `MosquittoAdapter.list_objects`
  unfoldable pub list_objects : Text → Exec Json
  unfolding list_field
  list_objects kind = do
    name ← or_raise (list_field kind) key_error
    listed ← command env (codes "list" ++ kind) (
        field (codes "verbose") (bool true)
          (field (codes "count") (minus 1) (field (codes "offset") (number 0) done)))
    value ← get_of listed name
    pure (json_or value (array end))

-- The test of `list_clients` on one client, with `str_of` for `str` and `casefold` for the method.
module _ (str_of : Json → Text) (casefold : Text → Text) (needle : Text) where
  abbrev pub client_contains : Json → Exec Bool
  client_contains client = do
    username ← get_of client (codes "username")
    if contains (casefold (str_of (json_or username (string [])))) needle then pure true else (do
      clientid ← get_of client (codes "clientid")
      pure (contains (casefold (str_of (json_or clientid (string [])))) needle))

  unfoldable pub clients_with : Items → Exec Items
  clients_with end = pure end
  clients_with (item client clients) = do
    here ← client_contains client
    rest ← clients_with clients
    pure (if here then item client rest else rest)

-- `row[name] = value`
unfoldable pub put_field : Text → Json → Fields → Fields
put_field name v done = field name v done
put_field name v (field k x fs) =
    let rest = field k x (put_field name v fs) in if k == name then field k v fs else rest

-- `{**row, **other}`
unfoldable pub merge : Fields → Fields → Fields
unfolding put_field
merge row done = row
merge row (field k v fs) = merge (put_field k v row) fs

-- A row of `connections` for one client, without the fields of a connection.
module _ (client : Fields) where
  abbrev named_clientid : Items
  named_clientid =
      if truthy (json_or_null (get_field (codes "clientid") client))
      then end
      else item (string (codes "clientid")) end

  abbrev pub row_fields : Text → Json → Items → Fields
  row_fields state last_seen fields =
      field (codes "username") (json_or_null (get_field (codes "username") client)) (
        field (codes "clientid") (json_or_null (get_field (codes "clientid") client)) (
          field (codes "state") (string state) (
            field (codes "listener") null (
              field (codes "last_seen") last_seen
                (field (codes "unavailable_fields") (array fields) done)))))

  abbrev pub offline_row : Fields
  offline_row =
      row_fields (codes "offline") null
        (item (string (codes "listener")) (item (string (codes "last_seen")) named_clientid))

  unfoldable pub connection_rows : Text → Items → Exec (List Fields)
  unfolding merge
  connection_rows observed_at end = pure []
  connection_rows observed_at (item (object connection) connections) = do
    rows ← connection_rows observed_at connections
    pure (
        merge
          (row_fields (codes "online") (string observed_at)
            (item (string (codes "listener")) named_clientid))
          connection
        ∷ rows)
  connection_rows observed_at (item _ connections) = raise type_error

  abbrev pub client_rows : Text → Exec (List Fields)
  client_rows observed_at =
      let found : Json = json_or_null (get_field (codes "connections") client) in
      if truthy found
      then (do connections ← iterate found; connection_rows observed_at connections)
      else pure (offline_row ∷ [])

unfoldable pub all_rows : Text → Items → Exec (List Fields)
unfolding connection_rows get_field
all_rows observed_at end = pure []
all_rows observed_at (item (object client) clients) = do
  rows ← client_rows client observed_at
  rest ← all_rows observed_at clients
  pure (rows ++ rest)
all_rows observed_at (item _ clients) = raise attribute_error

abbrev pub rows_json : List Fields → Items
rows_json [] = end
rows_json (row ∷ rows) = item (object row) (rows_json rows)

abbrev pub connections_reply : Text → List Fields → Json
connections_reply observed_at rows = object (
    field (codes "source") (string (codes "Dynamic Security listClients(verbose)")) (
      field (codes "observed_at") (string observed_at) (
        field (codes "freshness") (string (codes "live"))
          (field (codes "connections") (array (rows_json rows)) done))))

-- A key of a dictionary: a text, or another value that no text equals. Lists and objects have no hash.
abbrev pub key_of : Json → Exec (Option Text)
key_of (string t) = pure (some t)
key_of (array is) = raise type_error
key_of (object fs) = raise type_error
key_of _ = pure none

-- `d[key] = value`, for a dictionary that is read with texts only.
abbrev pub put_key {ℓ} : {V : Type ℓ} → Option Text → V → Dict V → Dict V
put_key none v d = d
put_key (some k) v d = put k v d

-- `{item.get(name, ""): item for item in items}`, with `view` for what `evaluate_permission` reads of an
-- item.
unfoldable pub index_by : {V : Type 0} → Text → (Json → V) → Items → Dict V → Exec (Dict V)
unfolding get_field
index_by name view end d = pure d
index_by name view (item j items) d = do
  named ← get_of j name
  key ← key_of (json_or named (string []))
  index_by name view items (put_key key (view j) d)

-- `value[name]`: a text, a number or a list takes no text as index.
abbrev pub index_of : Json → Text → Exec Json
index_of (object fs) name = or_raise (get_field name fs) key_error
index_of _ name = raise type_error

unfoldable pub defaults_of : Items → Dict Bool → Exec (Dict Bool)
unfolding get_field
defaults_of end d = pure d
defaults_of (item j items) d = do
  acltype ← index_of j (codes "acltype")
  allow ← index_of j (codes "allow")
  key ← key_of acltype
  defaults_of items (put_key key (truthy allow) d)

-- What `evaluate_permission` reads of the broker's values, as the records of Policy.Evaluate.
pub record Views : Type 0 where
  pub client : Json → Client
  pub group : Json → Group
  pub role : Json → Role

pub record PermissionQuery : Type 0 where
  pub username : Text
  pub clientid : Text
  pub topic : Text
  pub action : Text

abbrev pub query_json : PermissionQuery → Json
query_json q = object (
    field (codes "username") (string q.username) (
      field (codes "clientid") (string q.clientid)
        (field (codes "topic") (string q.topic) (field (codes "action") (string q.action) done))))

abbrev pub decision_text : Decision → Text
decision_text d = if d.allow then codes "allow" else codes "deny"

abbrev pub viewer : Text
viewer = codes "viewer"

module _ (env : Env) (credentials : Credentials) where
  unfoldable pub list_clients : (Json → Text) → (Text → Text) → Text → Exec Json
  unfolding list_objects clients_with
  list_clients str_of casefold q = do
    require_role env viewer credentials
    clients ← list_objects env (codes "Clients")
    if is_empty q then pure clients else (do
      items ← iterate clients
      found ← clients_with str_of casefold (casefold q) items
      pure (array found))

  unfoldable pub list_groups : Exec Json
  unfolding list_objects
  list_groups = do require_role env viewer credentials; list_objects env (codes "Groups")

  unfoldable pub list_roles : Exec Json
  unfolding list_objects
  list_roles = do require_role env viewer credentials; list_objects env (codes "Roles")

  unfoldable pub connections : Exec Json
  unfolding list_objects all_rows
  connections = do
    require_role env viewer credentials
    clients ← list_objects env (codes "Clients")
    now ← read_clock env
    items ← iterate clients
    rows ← all_rows (env.timestamp now) items
    pure (connections_reply (env.timestamp now) rows)

-- The values that the broker gives for a permission query.
pub record Replies : Type 0 where
  pub client : Json
  pub groups : Dict Group
  pub roles : Dict Role
  pub defaults : Dict Bool

module _ (env : Env) (views : Views) (q : PermissionQuery) where
  -- The part of `evaluate` that asks the broker.
  unfoldable pub ask : Exec Replies
  unfolding list_objects index_by defaults_of
  ask = do
    client_data ←
        command env (codes "getClient") (field (codes "username") (string q.username) done)
    found ← get_of client_data (codes "client")
    group_value ← list_objects env (codes "Groups")
    role_value ← list_objects env (codes "Roles")
    group_items ← iterate group_value
    groups ← index_by (codes "groupname") views.group group_items []
    role_items ← iterate role_value
    roles ← index_by (codes "rolename") views.role role_items []
    defaults_data ← command env (codes "getDefaultACLAccess") done
    acls ← get_of defaults_data (codes "acls")
    default_items ← iterate (json_or acls (array end))
    defaults ← defaults_of default_items []
    pure (record {
      client = json_or found client_data;
      groups = groups;
      roles = roles;
      defaults = defaults;
    })

  abbrev pub decide : Replies → Decision
  decide r =
      evaluate_permission q.username q.clientid q.topic q.action (views.client r.client) r.groups
        r.roles r.defaults

  unfoldable pub evaluate : Request → Credentials → Exec Decision
  evaluate request credentials = do
    actor ← require_role env viewer credentials
    replies ← ask
    audit env request (some actor) (codes "permission.evaluate") (codes "client:" ++ q.username)
        (codes "success")
        (field (codes "query") (query_json q)
          (field (codes "decision") (string (decision_text (decide replies))) done))
    pure (decide replies)
