-- ===== src/Api/Session.antt =====
-- admin-api/app/main.py: the start of the program, and the routes by which an operator signs in and out
-- with a local account.
use mqtt_broker_stack.Common.{
  keep, ltb, Text, codes, true, not, Option, none, some, ◌++◌, ◌==◌, if◌then◌else◌,
}
use mqtt_broker_stack.Models.{
  read_clock, Operator, Json, bool, string, object, done, field, http, attribute_error, Result, ok,
  raised, Exec, pure, raise, raise_if, gets, or_raise, modify, ◌>>=◌, ◌>>◌, Env,
}
use mqtt_broker_stack.Auth.{
  ensure_bootstrap_operator, AuthSettings, Request, Credentials, source_ip, check, verify_password,
  find_operator, find_session, delete_session, create_session, clear_session_cookies, current_actor,
  require_csrf, unauthorized,
}
use mqtt_broker_stack.Api.{audit}

abbrev pub local_subject : Text → Text
local_subject username = codes "local:" ++ username

unfoldable pub operator_view : Operator → Json
operator_view o = object (
    field (codes "subject") (string o.subject) (
      field (codes "display_name") (string o.display_name)
        (field (codes "role") (string o.role) done)))

abbrev pub login_reply : Operator → Text → Json
login_reply operator csrf = object (
    field (codes "operator") (operator_view operator)
      (field (codes "csrf_token") (string csrf) done))

abbrev pub logout_reply : Json
logout_reply = object (field (codes "ok") (bool true) done)

module _ (env : Env) (settings : AuthSettings) (request : Request) where
  -- `except HTTPException` around the rate limiter of `login`.
  unfoldable pub after_login_check : Text → Result (Unit {0}) → Exec (Unit {0})
  after_login_check username (ok _) = pure tt
  after_login_check username (raised (http status detail)) = do
    audit env request none (codes "auth.login") (local_subject username) (codes "rate_limited") done
    raise (http status detail)
  after_login_check username (raised e) = raise e

  unfoldable pub login_limited : Text → Exec (Unit {0})
  login_limited username w =
      let (r, w') =
        check env (codes "login:" ++ (source_ip request ++ (codes ":" ++ username))) 5 300 w in
      after_login_check username r w'

  -- The operator, if the three tests of `login` hold, each made only after the one before.
  unfoldable pub accept_password : Option Operator → Text → Exec (Option Operator)
  accept_password none password = pure none
  accept_password (some o) password =
      if o.enabled
      then (do
        verified ← verify_password env password o.password_hash
        pure (if verified then some o else none))
      else pure none

  -- What `login` does for an operator that was accepted, and for one that was not. The session's row is
  -- found, as `create_session` has just added it.
  unfoldable pub admit_login : Text → Option Operator → Exec Json
  admit_login username none = do
    audit env request none (codes "auth.login") (local_subject username) (codes "failure") done
    raise (unauthorized (codes "Invalid credentials"))
  admit_login username (some operator) = do
    csrf ← create_session env settings operator request
    row ← gets (λ w. find_session (λ s. s.csrf_hash == env.sha256 csrf) w.db.sessions)
    session ← or_raise row attribute_error
    audit env request (some (record { operator = operator; session = session }))
        (codes "auth.login") operator.subject (codes "success") done
    pure (login_reply operator csrf)

  unfoldable pub login : Text → Text → Exec Json
  login username password = do
    raise_if (not settings.local_auth_enabled) (http 404 (codes "Local authentication is disabled"))
    login_limited username
    found ← gets (λ w. find_operator (λ o. o.subject == local_subject username) w.db.operators)
    accepted ← accept_password found password
    admit_login username accepted

  unfoldable pub logout : Credentials → Exec Json
  logout credentials = do
    actor ← require_csrf env credentials
    modify (delete_session actor.session)
    clear_session_cookies settings
    audit env request (some actor) (codes "auth.logout") actor.operator.subject (codes "success")
        done
    pure logout_reply

  unfoldable pub me : Credentials → Exec Json
  me credentials = do
    actor ← current_actor env credentials.token
    pure (operator_view actor.operator)

-- What `lifespan` does when the program starts, with `hash_password` for `password_hasher.hash`: the
-- first operator, and the sessions that have run out.
unfoldable pub lifespan : Env → AuthSettings → (Text → Text) → Exec (Unit {0})
lifespan env settings hash_password = do
  ensure_bootstrap_operator env settings hash_password
  now ← read_clock env
  modify (λ w. record w {
    db = record w.db { sessions = keep (λ s. not (ltb s.expires_at now)) w.db.sessions };
  })
