-- ===== src/Api/Routes.antt =====
-- Every mutating route of admin-api/app/main.py as a request value, and the handler that serves it.
use mqtt_broker_stack.Common.{Text, Option}
use mqtt_broker_stack.Models.{Json, Exec, Env}
use mqtt_broker_stack.Auth.{Request, Credentials}
use mqtt_broker_stack.Api.Bodies.{ClientCreate, NamedObject, Assignment, AclCreate}
use mqtt_broker_stack.Api.Clients
use mqtt_broker_stack.Api.Groups
use mqtt_broker_stack.Api.Roles

pub data Route : Type 0 where
  create_client : ClientCreate → Route
  rotate_password : Text → Text → Route
  client_state : Text → Text → Route
  delete_client : Text → Option Text → Route
  assign_client_role : Text → Assignment → Route
  remove_client_role : Text → Text → Route
  assign_client_group : Text → Assignment → Route
  remove_client_group : Text → Text → Route
  create_group : NamedObject → Route
  update_group : Text → NamedObject → Route
  delete_group : Text → Option Text → Route
  assign_group_role : Text → Assignment → Route
  remove_group_role : Text → Text → Route
  create_role : NamedObject → Route
  update_role : Text → NamedObject → Route
  delete_role : Text → Option Text → Route
  add_acl : Text → AclCreate → Route
  remove_acl : Text → Text → Text → Option Text → Route

unfoldable pub handle : Env → Request → Credentials → Route → Exec Json
handle env request credentials (create_client payload) =
    Clients.create_client env request credentials payload
handle env request credentials (rotate_password username password) =
    Clients.rotate_password env request credentials username password
handle env request credentials (client_state username operation) =
    Clients.client_state env request credentials username operation
handle env request credentials (delete_client username confirmation) =
    Clients.delete_client env request credentials username confirmation
handle env request credentials (assign_client_role username payload) =
    Clients.assign_client_role env request credentials username payload
handle env request credentials (remove_client_role username rolename) =
    Clients.remove_client_role env request credentials username rolename
handle env request credentials (assign_client_group username payload) =
    Clients.assign_client_group env request credentials username payload
handle env request credentials (remove_client_group username groupname) =
    Clients.remove_client_group env request credentials username groupname
handle env request credentials (create_group payload) =
    Groups.create_group env request credentials payload
handle env request credentials (update_group groupname payload) =
    Groups.update_group env request credentials groupname payload
handle env request credentials (delete_group groupname confirmation) =
    Groups.delete_group env request credentials groupname confirmation
handle env request credentials (assign_group_role groupname payload) =
    Groups.assign_group_role env request credentials groupname payload
handle env request credentials (remove_group_role groupname rolename) =
    Groups.remove_group_role env request credentials groupname rolename
handle env request credentials (create_role payload) =
    Roles.create_role env request credentials payload
handle env request credentials (update_role rolename payload) =
    Roles.update_role env request credentials rolename payload
handle env request credentials (delete_role rolename confirmation) =
    Roles.delete_role env request credentials rolename confirmation
handle env request credentials (add_acl rolename payload) =
    Roles.add_acl env request credentials rolename payload
handle env request credentials (remove_acl rolename acltype topic confirmation) =
    Roles.remove_acl env request credentials rolename acltype topic confirmation
