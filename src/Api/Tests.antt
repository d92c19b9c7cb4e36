-- ===== src/Api/Tests.antt =====
-- A signed-in operator creates and removes clients: the theorems on admin-api/app/main.py at that state.
use mqtt_broker_stack.Common.{
  ◌≢◌, true, false, codes, ◌≡◌, refl, ap, none, some, ◌∷◌, [], split_on, contains, starts_with, All,
  ◌==◌, length, sym, ◌∙◌, arith, get,
}
use mqtt_broker_stack.Models.{OperatorSession, Operator, ok, done, null}
use mqtt_broker_stack.Samples.{
  settings, signed_out, alice, sample, start, signed_in, actor, credentials, request,
}
use mqtt_broker_stack.Auth.{
  delete_session, clear_session_cookies, Actor, role_rank, find_operator, find_session,
  expired_session, admit, current_actor, check_role, check_csrf, require_csrf,
  require_mutation_role, check, check_deque, verify_password, create_session,
}
use mqtt_broker_stack.Auth.Sessions.{IsAuthorized}
use mqtt_broker_stack.Audit.{append_event}
use mqtt_broker_stack.Api.{
  command, audit, Mutation, after_check, after_command, limited, commanded, broker_mutation,
}
use mqtt_broker_stack.Api.Bodies.{AclCreate, authorize, security_admin}
use mqtt_broker_stack.Common.Int.{pos}
use mqtt_broker_stack.Api.Roles
use mqtt_broker_stack.Api.Clients
use mqtt_broker_stack.Api.Routes.{Route, handle}
use mqtt_broker_stack.Api.Session.{
  login_reply, after_login_check, login_limited, accept_password, admit_login, login, logout,
  logout_reply,
}
use mqtt_broker_stack.Api.SignIn.{IsAccepted, login_sound, logout-ends}
use mqtt_broker_stack.Api.Topics.{
  level_error, levels_error, validate_topic, IsWholeLevel, validate_topic-IsFilter,
}
use mqtt_broker_stack.Api.Confirmed.{client, handle_unconfirmed, add_acl-control}
use mqtt_broker_stack.Policy.Topic.{slash}
use mqtt_broker_stack.Policy.Topic.Filter.{IsFilter}
use mqtt_broker_stack.Api.Guards.{handle-IsAuthorized}
use mqtt_broker_stack.Api.Audited.{IsAudited, broker_mutation-IsAudited}

abbrev creation : Route
creation = Route.create_client (record {
  username = codes "sensor";
  password = codes "a long password";
  clientid = none;
  textname = none;
  textdescription = none;
})

creation_sends : length (handle sample request credentials creation (signed_in 200)).1.sent ≡ 2
unfolding handle Clients.create_client authorize require_mutation_role require_csrf check_csrf
    check_role current_actor admit find_session find_operator expired_session role_rank ◌==◌
    broker_mutation limited commanded after_check after_command command audit append_event check
    check_deque get
creation_sends = refl

handle-IsAuthorized_example :
    (a : Actor) × IsAuthorized sample security_admin credentials (signed_in 200) a
handle-IsAuthorized_example =
    handle-IsAuthorized sample request credentials creation (signed_in 200)
      (λ e. omega (arith, sym (ap length e) ∙ creation_sends))

abbrev removal : Mutation
removal = record {
  action = codes "client.delete";
  target = codes "client:sensor";
  command = codes "deleteClient";
  before = some null;
  after = none;
  arguments = done;
}

broker_mutation-IsAudited_example :
    IsAudited sample request actor removal start
      (broker_mutation sample request actor removal start).0
      (broker_mutation sample request actor removal start).1
broker_mutation-IsAudited_example = broker_mutation-IsAudited sample request actor removal start

signed_in_by_password : login sample settings request (codes "alice") (codes "pw") signed_out ≡ (
  ok (login_reply alice (1 ∷ [])),
  (login sample settings request (codes "alice") (codes "pw") signed_out).1,
)
unfolding login login_limited after_login_check accept_password admit_login verify_password
    find_operator find_session create_session check check_deque get audit append_event ◌==◌
signed_in_by_password = refl

login_sound_example :
    (o : Operator) × IsAccepted sample settings request (codes "alice") (codes "pw") signed_out o
login_sound_example =
    login_sound sample settings request (codes "alice") (codes "pw") signed_out
      (login sample settings request (codes "alice") (codes "pw") signed_out).1
      (login_reply alice (1 ∷ [])) signed_in_by_password

handle_unconfirmed_example :
    (handle sample request credentials
      (Route.delete_client (codes "sensor") none)
      (signed_in 200)).1.sent
    ≡ (signed_in 200).sent
handle_unconfirmed_example =
    handle_unconfirmed sample request credentials (Route.delete_client (codes "sensor") none)
      (signed_in 200) (client (λ e. cc))

accepted_topic : validate_topic (codes "home/%u/#") ≡ none
unfolding validate_topic levels_error level_error contains starts_with split_on ◌==◌
accepted_topic = refl

misplaced_hash :
    validate_topic (codes "home/#/a") ≡ some (codes "# must occupy the final topic level")
unfolding validate_topic levels_error level_error contains starts_with split_on ◌==◌
misplaced_hash = refl

validate_topic-IsFilter_example :
    IsFilter (split_on slash (codes "home/%u/#"))
    × All IsWholeLevel (split_on slash (codes "home/%u/#"))
validate_topic-IsFilter_example = validate_topic-IsFilter (codes "home/%u/#") accepted_topic

abbrev control_rule : AclCreate
control_rule = record {
  acltype = codes "publishClientSend";
  topic = codes "$CONTROL/dynamic-security/v1";
  allow = true;
  priority = pos 0;
  elevated_confirmation = false;
}

abbrev granting : Route
granting = Route.add_acl (codes "controller") control_rule

granting_sends : length (handle sample request credentials granting (signed_in 200)).1.sent ≡ 2
unfolding handle Roles.add_acl authorize require_mutation_role require_csrf check_csrf check_role
    current_actor admit find_session find_operator expired_session role_rank ◌==◌ starts_with
    broker_mutation limited commanded after_check after_command command audit append_event check
    check_deque get
granting_sends = refl

control_topic : starts_with control_rule.topic (codes "$CONTROL/") ≡ true
unfolding starts_with
control_topic = refl

add_acl-control_example :
    (a : Actor) × IsAuthorized sample security_admin credentials (signed_in 200) a
    × (a.operator.role ≡ codes "super_admin")
add_acl-control_example =
    add_acl-control sample request credentials (codes "controller") control_rule (signed_in 200)
      control_topic (λ e. omega (arith, sym (ap length e) ∙ granting_sends))

signed_out_again :
    logout sample settings request credentials (signed_in 200)
    ≡ (ok logout_reply, (logout sample settings request credentials (signed_in 200)).1)
unfolding logout require_csrf check_csrf current_actor admit find_session find_operator
    expired_session role_rank ◌==◌ delete_session clear_session_cookies audit append_event
signed_out_again = refl

logout-ends_example :
    (a : Actor) × ((require_csrf sample credentials (signed_in 200)).0 ≡ ok a)
    × All
        (λ (s : OperatorSession). s.id ≢ a.session.id)
        (logout sample settings request credentials (signed_in 200)).1.db.sessions
logout-ends_example =
    logout-ends sample settings request credentials (signed_in 200)
      (logout sample settings request credentials (signed_in 200)).1 logout_reply signed_out_again
