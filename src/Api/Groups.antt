-- ===== src/Api/Groups.antt =====
-- The mutating routes of admin-api/app/main.py on groups.
use mqtt_broker_stack.Common.{Text, codes, Option, none, some, ◌++◌}
use mqtt_broker_stack.Models.{Json, null, done, field, Exec, pure, ◌>>=◌, ◌>>◌, Env}
use mqtt_broker_stack.Auth.{Request, Credentials}
use mqtt_broker_stack.Api.{command, broker_mutation, require_confirmation}
use mqtt_broker_stack.Api.Bodies.{
  text_field, some_field, int_json, NamedObject, Assignment, authorize,
}

module _ (env : Env) (request : Request) (credentials : Credentials) where
  unfoldable pub create_group : NamedObject → Exec Json
  create_group payload = do
    actor ← authorize env credentials
    broker_mutation env request actor (record {
      action = codes "group.create";
      target = codes "group:" ++ payload.name;
      command = codes "createGroup";
      before = none;
      after = none;
      arguments = some_field (codes "textname") payload.textname (
          some_field (codes "textdescription") payload.textdescription
            (text_field (codes "groupname") payload.name done));
    })
    command env (codes "getGroup") (text_field (codes "groupname") payload.name done)

  unfoldable pub update_group : Text → NamedObject → Exec Json
  update_group groupname payload = do
    actor ← authorize env credentials
    before ← command env (codes "getGroup") (text_field (codes "groupname") groupname done)
    broker_mutation env request actor (record {
      action = codes "group.update";
      target = codes "group:" ++ groupname;
      command = codes "modifyGroup";
      before = some before;
      after = none;
      arguments = text_field (codes "groupname") groupname (
          some_field (codes "textname") payload.textname
            (some_field (codes "textdescription") payload.textdescription done));
    })
    command env (codes "getGroup") (text_field (codes "groupname") groupname done)

  unfoldable pub delete_group : Text → Option Text → Exec Json
  delete_group groupname confirmation = do
    actor ← authorize env credentials
    require_confirmation confirmation (codes "delete group " ++ groupname)
    before ← command env (codes "getGroup") (text_field (codes "groupname") groupname done)
    broker_mutation env request actor (record {
      action = codes "group.delete";
      target = codes "group:" ++ groupname;
      command = codes "deleteGroup";
      before = some before;
      after = none;
      arguments = text_field (codes "groupname") groupname done;
    })
    pure null

  unfoldable pub assign_group_role : Text → Assignment → Exec Json
  assign_group_role groupname payload = do
    actor ← authorize env credentials
    broker_mutation env request actor (record {
      action = codes "group.role.assign";
      target = codes "group:" ++ (groupname ++ (codes "/role:" ++ payload.name));
      command = codes "addGroupRole";
      before = none;
      after = none;
      arguments = text_field (codes "groupname") groupname (
          text_field (codes "rolename") payload.name
            (field (codes "priority") (int_json payload.priority) done));
    })
    command env (codes "getGroup") (text_field (codes "groupname") groupname done)

  unfoldable pub remove_group_role : Text → Text → Exec Json
  remove_group_role groupname rolename = do
    actor ← authorize env credentials
    broker_mutation env request actor (record {
      action = codes "group.role.remove";
      target = codes "group:" ++ (groupname ++ (codes "/role:" ++ rolename));
      command = codes "removeGroupRole";
      before = none;
      after = none;
      arguments =
          text_field (codes "groupname") groupname (text_field (codes "rolename") rolename done);
    })
    command env (codes "getGroup") (text_field (codes "groupname") groupname done)
