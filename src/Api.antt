-- ===== src/Api.antt =====
-- admin-api/app/main.py: the audited broker mutation that all mutating routes share. The routes are in
-- the modules below.
pub mod Bodies
pub mod Clients
pub mod Groups
pub mod Roles
pub mod Routes
pub mod Session
pub mod SignIn
pub mod Topics
pub mod Queries
pub mod Asking
mod Asks
pub mod Questions
pub mod History
pub mod Oidc
pub mod Health
pub mod Granted
pub mod Callback
mod CallbackTests
mod HealthTests
mod Sent
pub mod Guards
pub mod Confirmed
pub mod Audited
mod Tests
mod QuestionTests
use mqtt_broker_stack.Common.{
  ℕ, ◌+◌, Text, codes, Bool, true, false, ◌&&◌, not, Option, none, some, List, [], ◌∷◌, ◌++◌, ◌==◌,
  if◌then◌else◌,
}
use mqtt_broker_stack.Models.{
  World, BrokerCommand, Json, null, string, object, Fields, done, field, Exception, http,
  broker_error, Result, ok, raised, Exec, pure, raise, raise_if, modify, ◌>>=◌, ◌>>◌, Env, Reply,
  answer, failure,
}
use mqtt_broker_stack.Auth.{Request, Actor, source_ip, check}
use mqtt_broker_stack.Audit.{Entry, append_event}

abbrev pub json_or_null : Option Json → Json
json_or_null none = null
json_or_null (some j) = j

abbrev pub json_or : Option Json → Json → Json
json_or none d = d
json_or (some j) d = j

module _ (env : Env) where
  -- `broker.command`: the command is recorded as sent, and the broker answers or a `BrokerError` is
  -- raised.
  abbrev pub reply_result : Reply → Result Json
  reply_result (answer j) = ok j
  reply_result (failure t) = raised (broker_error t)

  unfoldable pub command : Text → Fields → Exec Json
  command name arguments w =
      let c : BrokerCommand = record { command = name; arguments = arguments } in
      (reply_result (env.reply w.sent c), record w { sent = w.sent ++ c ∷ [] })

  abbrev pub actor_subject : Option Actor → Option Text
  actor_subject none = none
  actor_subject (some a) = some a.operator.subject

  abbrev pub actor_role : Option Actor → Option Text
  actor_role none = none
  actor_role (some a) = some a.operator.role

  -- The entry that `audit` passes on to `append_event`.
  unfoldable pub audit_entry : Request → Option Actor → Text → Text → Text → Fields → Entry
  audit_entry request actor action target result metadata = record {
    actor_id = actor_subject actor;
    actor_role = actor_role actor;
    source_ip = source_ip request;
    correlation_id = request.correlation_id;
    action = action;
    target = target;
    result = result;
    metadata = metadata;
  }

  unfoldable pub audit : Request → Option Actor → Text → Text → Text → Fields → Exec (Unit {0})
  audit request actor action target result metadata = do
    append_event env (audit_entry request actor action target result metadata)
    pure tt

-- The arguments of `broker_mutation`.
pub record Mutation : Type 0 where
  pub action : Text
  pub target : Text
  pub command : Text
  pub before : Option Json
  pub after : Option Json
  pub arguments : Fields

abbrev pub mutation_key : Request → Actor → Text
mutation_key request actor =
    codes "mutation:" ++ (actor.operator.subject ++ (codes ":" ++ source_ip request))

module _ (env : Env) (request : Request) (actor : Actor) (m : Mutation) where
  -- `except HTTPException` around the rate limiter.
  unfoldable pub after_check : Result (Unit {0}) → Exec (Unit {0})
  after_check (ok _) = pure tt
  after_check (raised (http status detail)) = do
    audit env request (some actor) m.action m.target (codes "rate_limited") done
    raise (http status detail)
  after_check (raised e) = raise e

  -- `except BrokerError` around the command, and the success path.
  unfoldable pub after_command : Result Json → Exec Json
  after_command (ok result) = do
    audit env request (some actor) m.action m.target (codes "success") (
        field (codes "before") (json_or_null m.before)
          (field (codes "after") (json_or m.after result) done))
    pure result
  after_command (raised (broker_error t)) = do
    audit env request (some actor) m.action m.target (codes "failure")
        (field (codes "before") (json_or_null m.before) (field (codes "error") (string t) done))
    raise (http 502 t)
  after_command (raised e) = raise e

  unfoldable pub limited : Exec (Unit {0})
  limited w = let (r, w') = check env (mutation_key request actor) 60 60 w in after_check r w'

  unfoldable pub commanded : Exec Json
  commanded w = let (r, w') = command env m.command m.arguments w in after_command r w'

  unfoldable pub broker_mutation : Exec Json
  broker_mutation = do limited; commanded

unfoldable pub require_confirmation : Option Text → Text → Exec (Unit {0})
require_confirmation none expected =
    raise (http 409 (codes "Confirm this action with X-Confirm-Action: " ++ expected))
require_confirmation (some value) expected =
    raise_if (not (value == expected))
      (http 409 (codes "Confirm this action with X-Confirm-Action: " ++ expected))
