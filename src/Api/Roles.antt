-- ===== src/Api/Roles.antt =====
-- The mutating routes of admin-api/app/main.py on roles and their ACLs.
use mqtt_broker_stack.Common.{
  Text, codes, ◌&&◌, not, Option, none, some, ◌++◌, ◌==◌, one_of, starts_with,
}
use mqtt_broker_stack.Models.{
  Json, null, bool, done, field, http, Exec, pure, raise_if, ◌>>=◌, ◌>>◌, Env,
}
use mqtt_broker_stack.Auth.{Request, Credentials, forbidden}
use mqtt_broker_stack.Api.{command, broker_mutation, require_confirmation}
use mqtt_broker_stack.Api.Bodies.{
  text_field, some_field, int_json, NamedObject, AclCreate, broad_topics, authorize,
}

module _ (env : Env) (request : Request) (credentials : Credentials) where
  unfoldable pub create_role : NamedObject → Exec Json
  create_role payload = do
    actor ← authorize env credentials
    broker_mutation env request actor (record {
      action = codes "role.create";
      target = codes "role:" ++ payload.name;
      command = codes "createRole";
      before = none;
      after = none;
      arguments = some_field (codes "textname") payload.textname (
          some_field (codes "textdescription") payload.textdescription
            (text_field (codes "rolename") payload.name done));
    })
    command env (codes "getRole") (text_field (codes "rolename") payload.name done)

  unfoldable pub update_role : Text → NamedObject → Exec Json
  update_role rolename payload = do
    actor ← authorize env credentials
    before ← command env (codes "getRole") (text_field (codes "rolename") rolename done)
    broker_mutation env request actor (record {
      action = codes "role.update";
      target = codes "role:" ++ rolename;
      command = codes "modifyRole";
      before = some before;
      after = none;
      arguments = text_field (codes "rolename") rolename (
          some_field (codes "textname") payload.textname
            (some_field (codes "textdescription") payload.textdescription done));
    })
    command env (codes "getRole") (text_field (codes "rolename") rolename done)

  unfoldable pub delete_role : Text → Option Text → Exec Json
  delete_role rolename confirmation = do
    actor ← authorize env credentials
    require_confirmation confirmation (codes "delete role " ++ rolename)
    before ← command env (codes "getRole") (text_field (codes "rolename") rolename done)
    broker_mutation env request actor (record {
      action = codes "role.delete";
      target = codes "role:" ++ rolename;
      command = codes "deleteRole";
      before = some before;
      after = none;
      arguments = text_field (codes "rolename") rolename done;
    })
    pure null

  unfoldable pub add_acl : Text → AclCreate → Exec Json
  add_acl rolename payload = do
    actor ← authorize env credentials
    raise_if
        (one_of payload.topic broad_topics && payload.allow && not payload.elevated_confirmation)
        (http 409 (codes "Broad allow rules require elevated_confirmation"))
    raise_if
        (starts_with payload.topic (codes "$CONTROL/")
          && not (actor.operator.role == codes "super_admin"))
        (forbidden (codes "Only super_admin may grant control-topic access"))
    broker_mutation env request actor (record {
      action = codes "role.acl.add";
      target =
          codes "role:"
          ++ (rolename ++ (codes "/acl:" ++ (payload.acltype ++ (codes ":" ++ payload.topic))));
      command = codes "addRoleACL";
      before = none;
      after = none;
      arguments = text_field (codes "rolename") rolename (
          text_field (codes "acltype") payload.acltype (
            text_field (codes "topic") payload.topic (
              field (codes "allow") (bool payload.allow)
                (field (codes "priority") (int_json payload.priority) done))));
    })
    command env (codes "getRole") (text_field (codes "rolename") rolename done)

  unfoldable pub remove_acl : Text → Text → Text → Option Text → Exec Json
  remove_acl rolename acltype topic confirmation = do
    actor ← authorize env credentials
    require_confirmation confirmation
        (codes "remove ACL " ++ (rolename ++ (codes " " ++ (acltype ++ (codes " " ++ topic)))))
    broker_mutation env request actor (record {
      action = codes "role.acl.remove";
      target = codes "role:" ++ (rolename ++ (codes "/acl:" ++ (acltype ++ (codes ":" ++ topic))));
      command = codes "removeRoleACL";
      before = none;
      after = none;
      arguments =
          text_field (codes "rolename") rolename
            (text_field (codes "acltype") acltype (text_field (codes "topic") topic done));
    })
    command env (codes "getRole") (text_field (codes "rolename") rolename done)
