-- ===== src/Api/Oidc.antt =====
-- The routes of admin-api/app/main.py by which an operator signs in with OpenID Connect. What the provider
-- answers is a parameter; its standard claims are texts.
use mqtt_broker_stack.Common.{
  Text, codes, Bool, true, false, ◌||◌, not, Option, none, some, List, [], ◌∷◌, ◌++◌, ◌==◌,
  if◌then◌else◌,
}
use mqtt_broker_stack.Models.{
  Operator, Json, string, array, object, Items, end, item, done, field, Exception, http, key_error,
  type_error, attribute_error, Result, ok, raised, Exec, pure, raise, raise_if, gets, or_raise,
  modify, ◌>>=◌, ◌>>◌, Env, read_clock, draw_token,
}
use mqtt_broker_stack.Auth.{
  AuthSettings, Request, source_ip, check, role_rank, is_some, text_or, find_operator, find_session,
  map_operators, create_session, unauthorized,
}
use mqtt_broker_stack.Api.{audit}

-- The settings of admin-api/app/config.py that these routes read.
pub record OidcSettings : Type 0 where
  pub enabled : Bool
  pub public_url : Text
  pub discovery_url : Text

-- The claims that the callback reads; `role` is the one under the configured name.
pub record Claims : Type 0 where
  pub iss : Option Text
  pub sub : Option Text
  pub name : Option Text
  pub email : Option Text
  pub role : Option Json

abbrev pub viewer : Text
viewer = codes "viewer"

-- `reversed(ROLES)`
abbrev pub roles_down : List Text
roles_down = codes "super_admin" ∷ codes "security_admin" ∷ codes "operator" ∷ viewer ∷ []

-- `role in raw_role` for a list
unfoldable pub has_text : Text → Items → Bool
has_text t end = false
has_text t (item (string s) is) = s == t || has_text t is
has_text t (item _ is) = has_text t is

unfoldable pub first_claimed : List Text → Items → Text
first_claimed [] is = viewer
first_claimed (r ∷ rs) is = let rest = first_claimed rs is in if has_text r is then r else rest

-- The role for the claim. A dictionary looks nothing up for an object.
unfoldable pub claimed_role : Option Json → Exec Text
unfolding first_claimed
claimed_role none = pure viewer
claimed_role (some (array is)) = pure (first_claimed roles_down is)
claimed_role (some (string t)) = pure (if is_some (role_rank t) then t else viewer)
claimed_role (some (object fs)) = raise type_error
claimed_role (some _) = pure viewer

-- `a or b`
abbrev pub text_or_else : Option Text → Text → Text
text_or_else none d = d
text_or_else (some []) d = d
text_or_else (some (c ∷ t)) d = c ∷ t

module _ (env : Env) (oidc : OidcSettings) (settings : AuthSettings) (request : Request) where
  -- `except HTTPException` around the rate limiter of `oidc_login`.
  unfoldable pub after_oidc_check : Result (Unit {0}) → Exec (Unit {0})
  after_oidc_check (ok _) = pure tt
  after_oidc_check (raised (http status detail)) = do
    audit env request none (codes "auth.oidc_start") (codes "oidc") (codes "rate_limited") done
    raise (http status detail)
  after_oidc_check (raised e) = raise e

  unfoldable pub oidc_limited : Exec (Unit {0})
  oidc_limited w =
      let (r, w') = check env (codes "oidc:" ++ source_ip request) 10 300 w in after_oidc_check r w'

  -- The address that the provider is to redirect to.
  unfoldable pub oidc_login : Exec Text
  oidc_login = do
    raise_if (not oidc.enabled) (http 404 (codes "OIDC is not configured"))
    oidc_limited
    pure (oidc.public_url ++ codes "/api/v1/auth/oidc/callback")

  abbrev pub oidc_subject : Claims → Text → Text
  oidc_subject claims sub =
      codes "oidc:" ++ (text_or claims.iss oidc.discovery_url ++ (codes ":" ++ sub))

  -- `db.add(Operator(...))`
  unfoldable pub add_operator : Text → Text → Text → Exec Operator
  add_operator subject display_name role = do
    id ← draw_token env
    created ← read_clock env
    let operator : Operator = record {
      id = id;
      subject = subject;
      display_name = display_name;
      role = role;
      password_hash = none;
      enabled = true;
      created_at = created;
      last_login_at = none;
    }
    modify (λ w. record w { db = record w.db { operators = w.db.operators ++ operator ∷ [] } })
    pure operator

  -- The operator of the subject, made or brought up to date.
  unfoldable pub record_operator : Claims → Text → Text → Option Operator → Exec Operator
  record_operator claims sub role none =
      add_operator (oidc_subject claims sub)
        (text_or_else claims.name (text_or_else claims.email sub)) role
  record_operator claims sub role (some found) =
      let operator : Operator = record found {
        display_name = text_or_else claims.name found.display_name;
        role = role;
      } in
      do modify (map_operators λ o. if o.id == found.id then operator else o); pure operator

  -- The `try` of `oidc_callback`, once the provider has answered.
  unfoldable pub admit_claims : Claims → Exec (Unit {0})
  unfolding record_operator
  admit_claims claims = do
    sub ← or_raise claims.sub key_error
    role ← claimed_role claims.role
    found ← gets (λ w. find_operator (λ o. o.subject == oidc_subject claims sub) w.db.operators)
    operator ← record_operator claims sub role found
    csrf ← create_session env settings operator request
    row ← gets (λ w. find_session (λ s. s.csrf_hash == env.sha256 csrf) w.db.sessions)
    session ← or_raise row attribute_error
    audit env request (some (record { operator = operator; session = session }))
        (codes "auth.oidc_login") (oidc_subject claims sub) (codes "success") done

  abbrev pub oidc_failed : Exception
  oidc_failed = unauthorized (codes "OIDC authentication failed")

  -- `except Exception`, with `type_name` for the name of the exception's type.
  unfoldable pub after_claims : (Exception → Text) → Result (Unit {0}) → Exec (Unit {0})
  after_claims type_name (ok _) = pure tt
  after_claims type_name (raised e) = do
    audit env request none (codes "auth.oidc_login") (codes "oidc") (codes "failure")
        (field (codes "error") (string (type_name e)) done)
    raise oidc_failed

  unfoldable pub oidc_callback : (Exception → Text) → Result Claims → Exec (Unit {0})
  oidc_callback type_name answered = do
    raise_if (not oidc.enabled) (http 404 (codes "OIDC is not configured"))
    λ w. let (r, w') = ((λ v. (answered, v)) >>= admit_claims) w in after_claims type_name r w'
