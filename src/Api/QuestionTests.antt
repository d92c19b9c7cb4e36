-- ===== src/Api/QuestionTests.antt =====
-- A signed-in operator asks the broker and reads the audit table: the theorems on the routes of
-- admin-api/app/main.py that only read, at that state.
use mqtt_broker_stack.Common.{
  ℕ, codes, ◌≡◌, ◌≢◌, refl, none, some, [], ◌∷◌, ◌==◌, contains, sort_by,
}
use mqtt_broker_stack.Models.{AuditEvent, World, array, end, object, done, field, ok, Env, answer}
use mqtt_broker_stack.Samples.{sample, signed_in, session, credentials, request}
use mqtt_broker_stack.Auth.{
  Actor, role_rank, find_operator, find_session, expired_session, admit, current_actor, check_role,
  require_role,
}
use mqtt_broker_stack.Auth.Sessions.{IsAuthentic}
use mqtt_broker_stack.Audit.{broken, verify_chain, verify_from, event_fails}
use mqtt_broker_stack.Api.Asking.{Asked}
use mqtt_broker_stack.Api.Queries.{Views, viewer}
use mqtt_broker_stack.Api.Questions.{Question, serve, serve-Asked}
use mqtt_broker_stack.Api.History.{
  HistoryQuery, is_selected, select_events, audit_history, IsLatest, audit_history-IsLatest,
}

-- A broker that knows no client, group or role.
abbrev answering : Env
answering = record sample {
  reply = λ sent c. answer (
      object (
        field (codes "clients") (array end)
          (field (codes "groups") (array end) (field (codes "roles") (array end) done))));
}

abbrev no_views : Views
no_views = record {
  client = λ j. record { roles = []; groups = [] };
  group = λ j. record { roles = [] };
  role = λ j. record { acls = [] };
}

abbrev permission : Question
permission = Question.evaluate no_views (record {
  username = codes "u";
  clientid = [];
  topic = codes "a";
  action = codes "publishClientSend";
})

serve-Asked_example :
    Asked (signed_in 200) (serve answering request credentials permission (signed_in 200)).1
    × ((serve answering request credentials permission (signed_in 200)).1.sent
          ≢ (signed_in 200).sent
        → (a : Actor) × IsAuthentic answering credentials.token (signed_in 200) a)
serve-Asked_example = serve-Asked answering request credentials permission (signed_in 200)

abbrev event : ℕ → AuditEvent
event n = record {
  sequence = n;
  occurred_at = 0;
  actor_id = none;
  actor_role = none;
  source_ip = [];
  correlation_id = [];
  action = codes "auth.login";
  target = [];
  result = codes "failure";
  metadata_json = [];
  previous_hash = [];
  event_hash = [];
}

abbrev table : World
table = record (signed_in 200) {
  db = record (signed_in 200).db { events = event 1 ∷ event 2 ∷ [] };
}

abbrev after : World
after = record table {
  db = record table.db { sessions = record (session 200) { last_seen_at = 100 } ∷ [] };
  clock_reads = 1;
}

abbrev last_failure : HistoryQuery
last_failure = record { action = none; result = some (codes "failure"); q = some []; limit = 1 }

audit_history-last_failure :
    audit_history (λ t u. contains u t) sample credentials last_failure table
    ≡ (ok (broken 1 2, event 2 ∷ []), after)
unfolding audit_history select_events is_selected require_role current_actor find_session
    find_operator expired_session admit check_role role_rank verify_chain verify_from event_fails
    sort_by ◌==◌
audit_history-last_failure = refl

audit_history-IsLatest_example :
    ((a : Actor) × (require_role sample viewer credentials table ≡ (ok a, after)))
    × IsLatest (λ t u. contains u t) last_failure after.db.events (event 2 ∷ [])
    × (broken 1 2 ≡ verify_chain sample after.db)
audit_history-IsLatest_example =
    audit_history-IsLatest (λ t u. contains u t) last_failure sample credentials table after
      (broken 1 2) (event 2 ∷ []) audit_history-last_failure
