-- ===== src/Auth/Access.antt =====
-- Who is let in: `current_actor`, the test of the role and the CSRF test of admin-api/app/auth.py.
use mqtt_broker_stack.Common.{
  ℕ, Text, codes, Bool, true, ◌||◌, ◌&&◌, not, Option, none, some, [], ◌++◌, ◌==◌, ltb, leb,
  is_empty, all, if◌then◌else◌,
}
use mqtt_broker_stack.Models.{
  Operator, OperatorSession, Exception, http, key_error, attribute_error, type_error, Exec, pure,
  raise, gets, or_raise, ◌>>=◌, ◌>>◌, raise_if, modify, Env, read_clock,
}
use mqtt_broker_stack.Auth.Base.{Actor, role_rank, is_some, text_or}
use mqtt_broker_stack.Auth.Login.{find_operator, find_session, map_sessions, delete_session}

abbrev pub unauthorized : Text → Exception
unauthorized detail = http 401 detail

abbrev pub forbidden : Text → Exception
forbidden detail = http 403 detail

-- The session row is gone or has run out.
unfoldable pub expired_session : Option OperatorSession → ℕ → Bool
expired_session none now = true
expired_session (some s) now = leb s.expires_at now

abbrev pub drop_session : Option OperatorSession → Exec (Unit {0})
drop_session none = pure tt
drop_session (some s) = modify (delete_session s)

abbrev pub known_role : Operator → Bool
known_role o = is_some (role_rank o.role)

-- The part of `current_actor` behind the test of the session.
unfoldable pub admit : ℕ → OperatorSession → Exec Actor
admit now session = do
  found ← gets (λ w. find_operator (λ o. o.id == session.operator_id) w.db.operators)
  operator ← or_raise found attribute_error
  raise_if (not operator.enabled || not (known_role operator))
      (forbidden (codes "Operator is disabled"))
  modify (map_sessions λ t. if t.id == session.id then record t { last_seen_at = now } else t)
  pure (record { operator = operator; session = record session { last_seen_at = now } })

module _ (env : Env) where
  unfoldable pub current_actor : Option Text → Exec Actor
  current_actor token = do
    raise_if (is_empty (text_or token [])) (unauthorized (codes "Authentication required"))
    session ←
        gets (λ w. find_session (λ s. s.token_hash == env.sha256 (text_or token [])) w.db.sessions)
    now ← read_clock env
    if expired_session session now
        then (do drop_session session; raise (unauthorized (codes "Session expired")))
        else (do live ← or_raise session attribute_error; admit now live)

abbrev pub rank_below : Text → Text → Exec Bool
rank_below role minimum = do
  have ← or_raise (role_rank role) key_error
  want ← or_raise (role_rank minimum) key_error
  pure (ltb have want)

-- The test that `require_role` and `require_mutation_role` share.
unfoldable pub check_role : Text → Actor → Exec Actor
check_role minimum actor = do
  below ← rank_below actor.operator.role minimum
  raise_if below (forbidden (minimum ++ codes " role required"))
  pure actor

abbrev pub csrf_failed : Exception
csrf_failed = forbidden (codes "CSRF validation failed")

abbrev pub is_ascii : ℕ → Bool
is_ascii c = ltb c 128

-- The credentials of a request: the session cookie, the CSRF header and the CSRF cookie.
pub record Credentials : Type 0 where
  pub token : Option Text
  pub csrf_header : Option Text
  pub csrf_cookie : Option Text

module _ (env : Env) where
  unfoldable pub require_role : Text → Credentials → Exec Actor
  require_role minimum credentials = do
    actor ← current_actor env credentials.token
    check_role minimum actor

  -- The tests of `require_csrf`. `hmac.compare_digest` takes ASCII texts only.
  unfoldable pub check_csrf : Text → Text → Actor → Exec (Unit {0})
  check_csrf header cookie actor = do
    raise_if (is_empty header || is_empty cookie) csrf_failed
    raise_if (not (all is_ascii header && all is_ascii cookie)) type_error
    raise_if (not (header == cookie)) csrf_failed
    raise_if (not (env.sha256 header == actor.session.csrf_hash)) csrf_failed

  unfoldable pub require_csrf : Credentials → Exec Actor
  require_csrf credentials = do
    actor ← current_actor env credentials.token
    check_csrf (text_or credentials.csrf_header []) (text_or credentials.csrf_cookie []) actor
    pure actor

  unfoldable pub require_mutation_role : Text → Credentials → Exec Actor
  require_mutation_role minimum credentials = do
    actor ← require_csrf credentials
    check_role minimum actor
