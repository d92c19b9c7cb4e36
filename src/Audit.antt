-- ===== src/Audit.antt =====
-- admin-api/app/audit.py: redaction of metadata and the hash chain of audit events.
pub mod Redaction
pub mod Chain
mod Tests
use mqtt_broker_stack.Common.{
  ℕ, zero, suc, ◌+◌, Text, codes, Bool, true, false, ◌||◌, not, Option, none, some, List, [], ◌∷◌,
  ◌++◌, ◌==◌, any, contains, length, nat_eq, leb, sort_by, if◌then◌else◌,
}
use mqtt_broker_stack.Models.{
  AuditEvent, Database, World, Json, null, bool, number, minus, string, array, object, Items, end,
  item, Fields, done, field, Result, ok, Exec, pure, gets, modify, ◌>>=◌, ◌>>◌, Env, read_clock,
}

abbrev pub redacted : Text
redacted = codes "[REDACTED]"

-- `SENSITIVE_KEYS`
abbrev pub sensitive_keys : List Text
sensitive_keys =
    codes "password"
    ∷ codes "secret"
    ∷ codes "token"
    ∷ codes "authorization"
    ∷ codes "cookie"
    ∷ codes "private_key"
    ∷ codes "payload"
    ∷ []

unfoldable pub is_sensitive : (Text → Text) → Text → Bool
is_sensitive lower key = any (contains (lower key)) sensitive_keys

unfoldable mutual
  pub redact : (Text → Text) → Json → Json
  redact lower null = null
  redact lower (bool b) = bool b
  redact lower (number n) = number n
  redact lower (minus n) = minus n
  redact lower (string t) = string t
  redact lower (array items) = array (redact_items lower items)
  redact lower (object fields) = object (redact_fields lower fields)

  pub redact_items : (Text → Text) → Items → Items
  redact_items lower end = end
  redact_items lower (item v items) = item (redact lower v) (redact_items lower items)

  pub redact_fields : (Text → Text) → Fields → Fields
  redact_fields lower done = done
  redact_fields lower (field k v fields) =
      field k (if is_sensitive lower k then string redacted else redact lower v)
        (redact_fields lower fields)

abbrev pub optional : Option Text → Json
optional none = null
optional (some t) = string t

-- `"0" * 64`
abbrev pub no_hash : Text
no_hash = codes "0000000000000000000000000000000000000000000000000000000000000000"

-- What an event says, without its hash.
pub record Content : Type 0 where
  pub sequence : ℕ
  pub occurred_at : ℕ
  pub actor_id : Option Text
  pub actor_role : Option Text
  pub source_ip : Text
  pub correlation_id : Text
  pub action : Text
  pub target : Text
  pub result : Text
  pub metadata : Json
  pub previous_hash : Text

module _ (env : Env) where
  -- The fields of the canonical text before and after the metadata.
  abbrev pub leading_fields : Content → Fields → Fields
  leading_fields c rest = field (codes "sequence") (number c.sequence) (
      field (codes "occurred_at") (string (env.timestamp c.occurred_at)) (
        field (codes "actor_id") (optional c.actor_id) (
          field (codes "actor_role") (optional c.actor_role) (
            field (codes "source_ip") (string c.source_ip) (
              field (codes "correlation_id") (string c.correlation_id) (
                field (codes "action") (string c.action) (
                  field (codes "target") (string c.target)
                    (field (codes "result") (string c.result) rest))))))))

  abbrev pub canonical_value : Content → Json
  canonical_value c = object (
      leading_fields c (
        field (codes "metadata") c.metadata
          (field (codes "previous_hash") (string c.previous_hash) done)))

  unfoldable pub canonical : Content → Text
  canonical c = env.dumps (canonical_value c)

  unfoldable pub event_hash : Content → Text
  unfolding canonical
  event_hash c = env.sha256 (canonical c)

  -- The row of `append_event`.
  unfoldable pub event_of : Content → AuditEvent
  event_of c = record {
    sequence = c.sequence;
    occurred_at = c.occurred_at;
    actor_id = c.actor_id;
    actor_role = c.actor_role;
    source_ip = c.source_ip;
    correlation_id = c.correlation_id;
    action = c.action;
    target = c.target;
    result = c.result;
    metadata_json = env.dumps c.metadata;
    previous_hash = c.previous_hash;
    event_hash = event_hash c;
  }

  -- What `verify_chain` hashes for a row.
  unfoldable pub content_of : AuditEvent → Content
  content_of e = record {
    sequence = e.sequence;
    occurred_at = e.occurred_at;
    actor_id = e.actor_id;
    actor_role = e.actor_role;
    source_ip = e.source_ip;
    correlation_id = e.correlation_id;
    action = e.action;
    target = e.target;
    result = e.result;
    metadata = env.loads e.metadata_json;
    previous_hash = e.previous_hash;
  }

-- `order_by(AuditEvent.sequence.desc()).limit(1)`
unfoldable pub latest : List AuditEvent → Option AuditEvent
latest [] = none
latest (e ∷ es) =
    let rest = latest es in
    elim rest [ none ↦ some e | some l ↦ (if leb l.sequence e.sequence then some e else some l) ]

abbrev pub next_sequence : Option AuditEvent → ℕ
next_sequence none = 1
next_sequence (some e) = e.sequence + 1

abbrev pub link : Option AuditEvent → Text
link none = no_hash
link (some e) = e.event_hash

-- The arguments of `append_event`.
pub record Entry : Type 0 where
  pub actor_id : Option Text
  pub actor_role : Option Text
  pub source_ip : Text
  pub correlation_id : Text
  pub action : Text
  pub target : Text
  pub result : Text
  pub metadata : Fields

module _ (env : Env) where
  unfoldable pub content_for : Entry → Option AuditEvent → ℕ → Content
  content_for entry previous now = record {
    sequence = next_sequence previous;
    occurred_at = now;
    actor_id = entry.actor_id;
    actor_role = entry.actor_role;
    source_ip = entry.source_ip;
    correlation_id = entry.correlation_id;
    action = entry.action;
    target = entry.target;
    result = entry.result;
    metadata = redact env.lower (object entry.metadata);
    previous_hash = link previous;
  }

  unfoldable pub append_event : Entry → Exec AuditEvent
  append_event entry = do
    previous ← gets (λ w. latest w.db.events)
    now ← read_clock env
    let event = event_of env (content_for entry previous now)
    modify (λ w. record w { db = record w.db { events = w.db.events ++ event ∷ [] } })
    pure event

pub data ChainStatus : Type 0 where
  valid : (count : ℕ) → (head : Text) → ChainStatus
  broken : (failed_sequence : ℕ) → (count : ℕ) → ChainStatus

abbrev pub sequence_before : AuditEvent → AuditEvent → Bool
sequence_before a b = leb a.sequence b.sequence

module _ (env : Env) where
  unfoldable pub event_fails : ℕ → Text → AuditEvent → Bool
  event_fails expected previous e =
      not (nat_eq e.sequence expected)
      || not (e.previous_hash == previous)
      || not (e.event_hash == event_hash env (content_of env e))

  -- The loop of `verify_chain`; `count` is `len(events)`.
  unfoldable pub verify_from : ℕ → ℕ → Text → List AuditEvent → ChainStatus
  verify_from count expected previous [] = valid count previous
  verify_from count expected previous (e ∷ es) =
      let rest = verify_from count (suc expected) e.event_hash es in
      if event_fails expected previous e then broken e.sequence count else rest

  unfoldable pub verify_chain : Database → ChainStatus
  verify_chain db =
      let events = sort_by sequence_before db.events in verify_from (length events) 1 no_hash events

unfoldable pub count_events : Database → ℕ
count_events db = length db.events
