-- ===== src/Auth/Login.antt =====
-- Passwords, the first operator, and the creation of sessions in admin-api/app/auth.py.
use mqtt_broker_stack.Common.{
  ◌+◌, ◌*◌, Text, codes, Bool, true, false, ◌||◌, not, Option, none, some, List, [], ◌∷◌, ◌++◌, map,
  ◌==◌, is_empty, keep, take, if◌then◌else◌,
}
use mqtt_broker_stack.Models.{
  Operator, OperatorSession, Cookie, World, verification_error, Exec, pure, raise, gets, ◌>>=◌,
  ◌>>◌, modify, Env, verified, mismatch, malformed, read_clock, draw_token,
}
use mqtt_broker_stack.Auth.Base.{AuthSettings, Request, second, is_some, text_or, source_ip}

module _ (env : Env) where
  unfoldable pub verify_password : Text → Option Text → Exec Bool
  verify_password password none = pure false
  verify_password password (some h) =
      if is_empty h then pure false else elim (env.verify h password) [
        | verified ↦ pure true
        | mismatch ↦ pure false
        | malformed ↦ raise verification_error
      ]

-- `db.scalar(select(Operator).where(...))`
unfoldable pub find_operator : (Operator → Bool) → List Operator → Option Operator
find_operator p [] = none
find_operator p (o ∷ os) = let rest = find_operator p os in if p o then some o else rest

unfoldable pub find_session :
    (OperatorSession → Bool) → List OperatorSession → Option OperatorSession
find_session p [] = none
find_session p (s ∷ ss) = let rest = find_session p ss in if p s then some s else rest

abbrev pub map_operators : (Operator → Operator) → World → World
map_operators f w = record w { db = record w.db { operators = map f w.db.operators } }

abbrev pub map_sessions : (OperatorSession → OperatorSession) → World → World
map_sessions f w = record w { db = record w.db { sessions = map f w.db.sessions } }

-- `db.delete(session)` and `db.commit()`
unfoldable pub delete_session : OperatorSession → World → World
delete_session s w = record w {
  db = record w.db { sessions = keep (λ t. not (t.id == s.id)) w.db.sessions };
}

abbrev pub session_cookie : Text
session_cookie = codes "mqtt_admin_session"

abbrev pub csrf_cookie : Text
csrf_cookie = codes "mqtt_admin_csrf"

module _ (settings : AuthSettings) where
  -- The two `set_cookie` calls of `create_session`.
  unfoldable pub session_cookies : Text → Text → List Cookie
  session_cookies token csrf =
      record {
        name = session_cookie;
        value = token;
        httponly = true;
        secure = settings.cookie_secure;
        max_age = settings.session_ttl_seconds;
      }
      ∷ record {
        name = csrf_cookie;
        value = csrf;
        httponly = false;
        secure = settings.cookie_secure;
        max_age = settings.session_ttl_seconds;
      }
      ∷ []

module _ (env : Env) (settings : AuthSettings) where
  -- `create_session`: the session's id and its times are filled in at the commit.
  unfoldable pub create_session : Operator → Request → Exec Text
  unfolding source_ip session_cookies
  create_session operator request = do
    token ← draw_token env
    csrf ← draw_token env
    now ← read_clock env
    login ← read_clock env
    id ← draw_token env
    created ← read_clock env
    seen ← read_clock env
    let session : OperatorSession = record {
      id = id;
      operator_id = operator.id;
      token_hash = env.sha256 token;
      csrf_hash = env.sha256 csrf;
      source_ip = source_ip request;
      user_agent = take 512 (text_or request.user_agent []);
      expires_at = now + settings.session_ttl_seconds * second;
      created_at = created;
      last_seen_at = seen;
    }
    modify (λ w. record w { db = record w.db { sessions = w.db.sessions ++ session ∷ [] } })
    modify (
        map_operators
          λ o. if o.id == operator.id then record o { last_login_at = some login } else o)
    modify (λ w. record w { cookies = w.cookies ++ session_cookies settings token csrf })
    pure csrf

  -- The `db.add` of `ensure_bootstrap_operator`, with `hash_password` for `password_hasher.hash`.
  unfoldable pub add_bootstrap_operator : (Text → Text) → Exec (Unit {0})
  add_bootstrap_operator hash_password = do
    id ← draw_token env
    created ← read_clock env
    modify λ w. record w {
      db = record w.db {
        operators =
            w.db.operators
            ++ record {
              id = id;
              subject = codes "local:" ++ settings.bootstrap_username;
              display_name = settings.bootstrap_username;
              role = codes "super_admin";
              password_hash = some (hash_password settings.bootstrap_password);
              enabled = true;
              created_at = created;
              last_login_at = none;
            }
              ∷ [];
      };
    }

  unfoldable pub ensure_bootstrap_operator : (Text → Text) → Exec (Unit {0})
  unfolding find_operator add_bootstrap_operator
  ensure_bootstrap_operator hash_password =
      if not settings.local_auth_enabled || is_empty settings.bootstrap_password
      then pure tt
      else (do
        found ← gets λ w.
            find_operator (λ o. o.subject == (codes "local:" ++ settings.bootstrap_username))
              w.db.operators
        if is_some found then pure tt else add_bootstrap_operator hash_password)

-- `clear_session_cookies`: the two names leave the response with an empty value.
unfoldable pub clear_session_cookies : AuthSettings → Exec (Unit {0})
clear_session_cookies settings = modify λ w. record w {
  cookies =
      w.cookies
      ++ record {
        name = session_cookie;
        value = [];
        httponly = false;
        secure = settings.cookie_secure;
        max_age = 0;
      }
        ∷ record {
          name = csrf_cookie;
          value = [];
          httponly = false;
          secure = settings.cookie_secure;
          max_age = 0;
        }
        ∷ [];
}
