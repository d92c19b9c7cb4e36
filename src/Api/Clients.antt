-- ===== src/Api/Clients.antt =====
-- The mutating routes of admin-api/app/main.py on MQTT clients: creation, passwords, state, deletion, roles and groups.
use mqtt_broker_stack.Common.{
  Text, codes, true, false, not, Option, none, some, [], ◌∷◌, ◌++◌, ◌==◌, one_of,
}
use mqtt_broker_stack.Models.{
  Json, null, bool, object, done, field, http, Exec, pure, raise_if, ◌>>=◌, ◌>>◌, Env,
}
use mqtt_broker_stack.Auth.{Request, Credentials}
use mqtt_broker_stack.Api.{command, broker_mutation, require_confirmation}
use mqtt_broker_stack.Api.Bodies.{
  text_field, some_field, int_json, ClientCreate, Assignment, authorize,
}

module _ (env : Env) (request : Request) (credentials : Credentials) where
  unfoldable pub create_client : ClientCreate → Exec Json
  create_client payload = do
    actor ← authorize env credentials
    broker_mutation env request actor (record {
      action = codes "client.create";
      target = codes "client:" ++ payload.username;
      command = codes "createClient";
      before = none;
      after = some (
          object (
            text_field (codes "username") payload.username (
              some_field (codes "clientid") payload.clientid (
                some_field (codes "textname") payload.textname (
                  some_field (codes "textdescription") payload.textdescription
                    (field (codes "disabled") (bool false) done))))));
      arguments = text_field (codes "username") payload.username (
          text_field (codes "password") payload.password (
            some_field (codes "clientid") payload.clientid (
              some_field (codes "textname") payload.textname
                (some_field (codes "textdescription") payload.textdescription done))));
    })
    command env (codes "getClient") (text_field (codes "username") payload.username done)

  unfoldable pub rotate_password : Text → Text → Exec Json
  rotate_password username password = do
    actor ← authorize env credentials
    before ← command env (codes "getClient") (text_field (codes "username") username done)
    broker_mutation env request actor (record {
      action = codes "client.password.rotate";
      target = codes "client:" ++ username;
      command = codes "setClientPassword";
      before = some before;
      after = some (
          object (
            text_field (codes "username") username
              (text_field (codes "credential") (codes "rotated") done)));
      arguments =
          text_field (codes "username") username (text_field (codes "password") password done);
    })
    pure (object (field (codes "rotated") (bool true) done))

  unfoldable pub client_state : Text → Text → Exec Json
  client_state username operation = do
    actor ← authorize env credentials
    raise_if (not (one_of operation (codes "enable" ∷ codes "disable" ∷ [])))
        (http 404 (codes "Unknown client operation"))
    before ← command env (codes "getClient") (text_field (codes "username") username done)
    broker_mutation env request actor (record {
      action = codes "client." ++ operation;
      target = codes "client:" ++ username;
      command = operation ++ codes "Client";
      before = some before;
      after = some (
          object (
            text_field (codes "username") username
              (field (codes "disabled") (bool (operation == codes "disable")) done)));
      arguments = text_field (codes "username") username done;
    })
    command env (codes "getClient") (text_field (codes "username") username done)

  unfoldable pub delete_client : Text → Option Text → Exec Json
  delete_client username confirmation = do
    actor ← authorize env credentials
    require_confirmation confirmation (codes "delete client " ++ username)
    before ← command env (codes "getClient") (text_field (codes "username") username done)
    broker_mutation env request actor (record {
      action = codes "client.delete";
      target = codes "client:" ++ username;
      command = codes "deleteClient";
      before = some before;
      after = some (
          object
            (text_field (codes "username") username (field (codes "deleted") (bool true) done)));
      arguments = text_field (codes "username") username done;
    })
    pure null

  unfoldable pub assign_client_role : Text → Assignment → Exec Json
  assign_client_role username payload = do
    actor ← authorize env credentials
    broker_mutation env request actor (record {
      action = codes "client.role.assign";
      target = codes "client:" ++ (username ++ (codes "/role:" ++ payload.name));
      command = codes "addClientRole";
      before = none;
      after = none;
      arguments = text_field (codes "username") username (
          text_field (codes "rolename") payload.name
            (field (codes "priority") (int_json payload.priority) done));
    })
    command env (codes "getClient") (text_field (codes "username") username done)

  unfoldable pub remove_client_role : Text → Text → Exec Json
  remove_client_role username rolename = do
    actor ← authorize env credentials
    broker_mutation env request actor (record {
      action = codes "client.role.remove";
      target = codes "client:" ++ (username ++ (codes "/role:" ++ rolename));
      command = codes "removeClientRole";
      before = none;
      after = none;
      arguments =
          text_field (codes "username") username (text_field (codes "rolename") rolename done);
    })
    command env (codes "getClient") (text_field (codes "username") username done)

  unfoldable pub assign_client_group : Text → Assignment → Exec Json
  assign_client_group username payload = do
    actor ← authorize env credentials
    broker_mutation env request actor (record {
      action = codes "client.group.assign";
      target = codes "client:" ++ (username ++ (codes "/group:" ++ payload.name));
      command = codes "addGroupClient";
      before = none;
      after = none;
      arguments = text_field (codes "groupname") payload.name (
          text_field (codes "username") username
            (field (codes "priority") (int_json payload.priority) done));
    })
    command env (codes "getClient") (text_field (codes "username") username done)

  unfoldable pub remove_client_group : Text → Text → Exec Json
  remove_client_group username groupname = do
    actor ← authorize env credentials
    broker_mutation env request actor (record {
      action = codes "client.group.remove";
      target = codes "client:" ++ (username ++ (codes "/group:" ++ groupname));
      command = codes "removeGroupClient";
      before = none;
      after = none;
      arguments =
          text_field (codes "groupname") groupname (text_field (codes "username") username done);
    })
    command env (codes "getClient") (text_field (codes "username") username done)
