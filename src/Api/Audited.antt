-- ===== src/Api/Audited.antt =====
-- `broker_mutation` of admin-api/app/main.py leaves exactly one audit event behind, on every path.
use mqtt_broker_stack.Common.{
  ◌+◌, ◌*◌, Text, codes, get, put, ◌≡◌, refl, ◌∙◌, ◌⊎◌, inl, inr, some, [], ◌∷◌, ◌++◌, Bool-cases,
}
use mqtt_broker_stack.Models.{
  AuditEvent, World, BrokerCommand, Json, string, Fields, done, field, Exception, http, Result, ok,
  raised, raised-bind, Env, Reply, answer, failure, continue,
}
use mqtt_broker_stack.Auth.{Request, Actor, check, check_deque, attempts_of, second}
use mqtt_broker_stack.Audit.{Entry, latest, content_for, event_of, append_event}
use mqtt_broker_stack.Api.{
  json_or_null, json_or, command, audit_entry, audit, Mutation, mutation_key, after_check,
  after_command, limited, commanded, broker_mutation,
}

module _ (env : Env) where
  -- The row that an entry becomes in a given state, and the state with that row.
  pub row_of : Entry → World → AuditEvent
  row_of entry w =
      event_of env (content_for env entry (latest w.db.events) (env.clock w.clock_reads))

  logged : Entry → World → World
  logged entry w = record w {
    db = record w.db { events = w.db.events ++ row_of entry w ∷ [] };
    clock_reads = w.clock_reads + 1;
  }

  checked : Text → World → World
  checked key w = record w {
    attempts =
        put key
          (check_deque 60 (60 * second) (env.monotonic w.monotonic_reads)
            (attempts_of (get key w.attempts))).1
          w.attempts;
    monotonic_reads = w.monotonic_reads + 1;
  }

  abbrev pub too_many : Exception
  too_many = http 429 (codes "Too many requests")

  check_cases :
      (key : Text) (w : World)
      → (check env key 60 60 w ≡ (ok tt, checked key w))
        ⊎ (check env key 60 60 w ≡ (raised too_many, checked key w))
  unfolding check checked
  check_cases key w =
      elim (Bool-cases
        (check_deque 60 (60 * second) (env.monotonic w.monotonic_reads)
          (attempts_of (get key w.attempts))).0) [
            | inl e ↦ inl (rw e refl)
            | inr e ↦ inr (rw e refl)
          ]

  reply_cases : (r : Reply) → ((j : Json) × (r ≡ answer j)) ⊎ ((t : Text) × (r ≡ failure t))
  reply_cases (answer j) = inl (j, refl)
  reply_cases (failure t) = inr (t, refl)

module _ (env : Env) (request : Request) (actor : Actor) (m : Mutation) where
  abbrev pub sent_command : BrokerCommand
  sent_command = record { command = m.command; arguments = m.arguments }

  -- The three ways in which a mutation ends: with one audit event whose result names the way.
  pub data Outcome (w : World) (r : Result Json) (w' : World) (event : AuditEvent) : Type 0 where
    was_limited :
        r ≡ raised (too_many env)
        → event.result ≡ codes "rate_limited"
        → w'.sent ≡ w.sent
        → Outcome w r w' event
    succeeded :
        (j : Json)
        → env.reply w.sent sent_command ≡ answer j
        → r ≡ ok j
        → event.result ≡ codes "success"
        → w'.sent ≡ w.sent ++ sent_command ∷ []
        → Outcome w r w' event
    failed :
        (t : Text)
        → env.reply w.sent sent_command ≡ failure t
        → r ≡ raised (http 502 t)
        → event.result ≡ codes "failure"
        → w'.sent ≡ w.sent ++ sent_command ∷ []
        → Outcome w r w' event

  pub record IsAudited (w : World) (r : Result Json) (w' : World) : Type 0 where
    pub event : AuditEvent
    pub appended : w'.db.events ≡ w.db.events ++ event ∷ []
    pub action : event.action ≡ m.action
    pub target : event.target ≡ m.target
    pub by : event.actor_id ≡ some actor.operator.subject
    pub role : event.actor_role ≡ some actor.operator.role
    pub sessions : w'.db.sessions ≡ w.db.sessions
    pub operators : w'.db.operators ≡ w.db.operators
    pub outcome : Outcome w r w' event

  abbrev entry_for : Text → Fields → Entry
  entry_for result metadata = audit_entry env request (some actor) m.action m.target result metadata

  key : Text
  key = mutation_key request actor

  limited-raised :
      (w : World)
      → check env key 60 60 w ≡ (raised (too_many env), checked env key w)
      → limited env request actor m w ≡ (
        raised (too_many env),
        logged env (entry_for (codes "rate_limited") done) (checked env key w),
      )
  unfolding limited after_check key audit append_event logged row_of
  limited-raised w h = rw h refl

  limited-ok :
      (w : World)
      → check env key 60 60 w ≡ (ok tt, checked env key w)
      → limited env request actor m w ≡ (ok tt, checked env key w)
  unfolding limited after_check key
  limited-ok w h = rw h refl

  sending : World → World
  sending w = record w { sent = w.sent ++ sent_command ∷ [] }

  success_fields : Json → Fields
  success_fields j =
      field (codes "before") (json_or_null m.before)
        (field (codes "after") (json_or m.after j) done)

  failure_fields : Text → Fields
  failure_fields t =
      field (codes "before") (json_or_null m.before) (field (codes "error") (string t) done)

  commanded-answer :
      (w : World) (j : Json)
      → env.reply w.sent sent_command ≡ answer j
      → commanded env request actor m w
        ≡ (ok j, logged env (entry_for (codes "success") (success_fields j)) (sending w))
  unfolding commanded command after_command audit append_event logged row_of sending success_fields
  commanded-answer w j h = rw h refl

  commanded-failure :
      (w : World) (t : Text)
      → env.reply w.sent sent_command ≡ failure t
      → commanded env request actor m w ≡ (
        raised (http 502 t),
        logged env (entry_for (codes "failure") (failure_fields t)) (sending w),
      )
  unfolding commanded command after_command audit append_event logged row_of sending failure_fields
  commanded-failure w t h = rw h refl

  broker_mutation-after :
      (w : World)
      → check env key 60 60 w ≡ (ok tt, checked env key w)
      → broker_mutation env request actor m w ≡ commanded env request actor m (checked env key w)
  unfolding broker_mutation continue
  broker_mutation-after w h = rw (limited-ok w h) refl

  rate_limited :
      (w : World)
      → check env key 60 60 w ≡ (raised (too_many env), checked env key w)
      → IsAudited w
          (broker_mutation env request actor m w).0
          (broker_mutation env request actor m w).1
  rate_limited w h =
      let e =
        raised-bind (limited env request actor m) (λ _. commanded env request actor m) w _
          (too_many env) (limited-raised w h) in
      unfold broker_mutation in
      rw e (
        unfold logged checked row_of event_of content_for audit_entry in
        record {
          event = row_of env (entry_for (codes "rate_limited") done) (checked env key w);
          appended = refl;
          action = refl;
          target = refl;
          by = refl;
          role = refl;
          sessions = refl;
          operators = refl;
          outcome = was_limited refl refl refl;
        })

  answered :
      (w : World) (j : Json)
      → check env key 60 60 w ≡ (ok tt, checked env key w)
      → env.reply w.sent sent_command ≡ answer j
      → IsAudited w
          (broker_mutation env request actor m w).0
          (broker_mutation env request actor m w).1
  answered w j h r =
      let e = broker_mutation-after w h in
      let c = commanded-answer (checked env key w) j (unfold checked in r) in
      rw (e ∙ c) (
        unfold logged checked sending row_of event_of content_for audit_entry in
        record {
          event =
              row_of env (entry_for (codes "success") (success_fields j))
                (sending (checked env key w));
          appended = refl;
          action = refl;
          target = refl;
          by = refl;
          role = refl;
          sessions = refl;
          operators = refl;
          outcome = succeeded j r refl refl refl;
        })

  refused :
      (w : World) (t : Text)
      → check env key 60 60 w ≡ (ok tt, checked env key w)
      → env.reply w.sent sent_command ≡ failure t
      → IsAudited w
          (broker_mutation env request actor m w).0
          (broker_mutation env request actor m w).1
  refused w t h r =
      let e = broker_mutation-after w h in
      let c = commanded-failure (checked env key w) t (unfold checked in r) in
      rw (e ∙ c) (
        unfold logged checked sending row_of event_of content_for audit_entry in
        record {
          event =
              row_of env (entry_for (codes "failure") (failure_fields t))
                (sending (checked env key w));
          appended = refl;
          action = refl;
          target = refl;
          by = refl;
          role = refl;
          sessions = refl;
          operators = refl;
          outcome = failed t r refl refl refl;
        })

  -- However a broker mutation ends, it appends exactly one audit event, which carries the mutation's
  -- action and target and the subject and role of the actor, and it leaves operators and sessions as
  -- they are. The event's result is "rate_limited" when the call is refused with 429 and nothing is
  -- sent; "success" when the one command sent was answered, and the answer is returned; "failure" when
  -- the broker reported an error, which is raised as 502.
  pub broker_mutation-IsAudited :
      (w : World)
      → IsAudited w
          (broker_mutation env request actor m w).0
          (broker_mutation env request actor m w).1
  broker_mutation-IsAudited w = elim (check_cases env key w) [
    | inl h ↦ elim (reply_cases env (env.reply w.sent sent_command)) [
      | inl (j, r) ↦ answered w j h r
      | inr (t, r) ↦ refused w t h r
    ]
    | inr h ↦ rate_limited w h
  ]
