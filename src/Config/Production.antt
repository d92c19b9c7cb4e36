-- ===== src/Config/Production.antt =====
-- What the defaults of admin-api/app/config.py mean for the sessions of admin-api/app/auth.py and the
-- login of admin-api/app/main.py.
use mqtt_broker_stack.Common.{
  Text, codes, ◌≡◌, refl, sym, ap, ◌∙◌, ◌⊎◌, inl, inr, Bool, true, false, not, Option, none, some,
  ◌==◌, All, eq_refl, one_of,
}
use mqtt_broker_stack.Common.Int.{pos}
use mqtt_broker_stack.Config.{
  Environment, Settings, >>=-eq-some, variable_or, getenv, flag, true_texts, get_settings,
}
use mqtt_broker_stack.Models.{Cookie, World, http, ok, raised, Env}
use mqtt_broker_stack.Auth.{AuthSettings, Request, session_cookies, ensure_bootstrap_operator}
use mqtt_broker_stack.Api.Session.{login}

-- The settings as the sessions use them.
pub record IsAuthSettings {Float : Type 0} (s : Settings Float) (a : AuthSettings) : Type 0 where
  pub local_auth_enabled : a.local_auth_enabled ≡ s.local_auth_enabled
  pub cookie_secure : a.cookie_secure ≡ s.cookie_secure
  pub session_ttl_seconds : pos a.session_ttl_seconds ≡ s.session_ttl_seconds

-- `str.lower` on the two texts of a Boolean.
pub record LowersBools (lower : Text → Text) : Type 0 where
  pub lower_true : lower (codes "True") ≡ codes "true"
  pub lower_false : lower (codes "False") ≡ codes "false"

-- The environment says production, or does not say, and leaves the two switches alone.
pub record IsPlainProduction {Float : Type 0} (env : Environment Float) : Type 0 where
  pub production :
      (env.variable (codes "ADMIN_ENVIRONMENT") ≡ none)
      ⊎ (env.variable (codes "ADMIN_ENVIRONMENT") ≡ some (codes "production"))
  pub cookie_switch : env.variable (codes "ADMIN_COOKIE_SECURE") ≡ none
  pub login_switch : env.variable (codes "ADMIN_LOCAL_AUTH_ENABLED") ≡ none

abbrev secures : {Float : Type 0} → Option (Settings Float) → Bool
secures none = false
secures (some s) = s.cookie_secure

abbrev admits : {Float : Type 0} → Option (Settings Float) → Bool
admits none = false
admits (some s) = s.local_auth_enabled

module _ {Float : Type 0} (env : Environment Float) where
  getenv-none : (name d : Text) → env.variable name ≡ none → getenv env name d ≡ d
  unfolding getenv
  getenv-none name d e = ap (λ v. variable_or v d) e

  environment-production :
      IsPlainProduction env
      → getenv env (codes "ADMIN_ENVIRONMENT") (codes "production") ≡ codes "production"
  environment-production p = elim p.production [
    | inl e ↦ getenv-none (codes "ADMIN_ENVIRONMENT") (codes "production") e
    | inr e ↦ unfold getenv in ap (λ v. variable_or v (codes "production")) e
  ]

  flag-none :
      (name : Text) (d : Bool)
      → LowersBools env.lower
      → env.variable name ≡ none
      → flag env name d ≡ d
  unfolding flag
  flag-none name true l e =
      ap (λ t. one_of t true_texts)
        (ap env.lower (getenv-none name (codes "True") e) ∙ l.lower_true)
      ∙ unfold ◌==◌ in refl
  flag-none name false l e =
      ap (λ t. one_of t true_texts)
        (ap env.lower (getenv-none name (codes "False") e) ∙ l.lower_false)
      ∙ unfold ◌==◌ in refl

  abbrev is_production : Bool
  is_production = getenv env (codes "ADMIN_ENVIRONMENT") (codes "production") == codes "production"

  get_settings-switches :
      (s : Settings Float)
      → get_settings env ≡ some s
      → (s.cookie_secure ≡ flag env (codes "ADMIN_COOKIE_SECURE") is_production)
        × (s.local_auth_enabled ≡ flag env (codes "ADMIN_LOCAL_AUTH_ENABLED") (not is_production))
  unfolding get_settings
  get_settings-switches s e =
      let (_, e1) =
        >>=-eq-some (env.int (getenv env (codes "ADMIN_SESSION_TTL_SECONDS") (codes "28800"))) _
          e in
      let (_, e2) =
        >>=-eq-some (env.int (getenv env (codes "ADMIN_BROKER_PORT") (codes "1884"))) _ e1 in
      let (_, e3) =
        >>=-eq-some (env.float (getenv env (codes "ADMIN_BROKER_TIMEOUT_SECONDS") (codes "5"))) _
          e2 in
      let (_, e4) =
        >>=-eq-some (env.int (getenv env (codes "ADMIN_CERTIFICATE_WARNING_DAYS") (codes "30"))) _
          e3 in
      let (_, e5) =
        >>=-eq-some (env.int (getenv env (codes "ADMIN_BACKUP_MAX_AGE_HOURS") (codes "24"))) _ e4 in
      (ap secures (sym e5), ap admits (sym e5))

  production_switches :
      (s : Settings Float)
      → LowersBools env.lower
      → IsPlainProduction env
      → get_settings env ≡ some s
      → (s.cookie_secure ≡ true) × (s.local_auth_enabled ≡ false)
  production_switches s l p e =
      let (secure, local) = get_settings-switches s e in
      let production : is_production ≡ true =
        ap (λ t. t == codes "production") (environment-production p)
        ∙ eq_refl (codes "production") in
      (
        secure
            ∙ ap (flag env (codes "ADMIN_COOKIE_SECURE")) production
            ∙ flag-none (codes "ADMIN_COOKIE_SECURE") true l p.cookie_switch,
        local
            ∙ ap (λ b. flag env (codes "ADMIN_LOCAL_AUTH_ENABLED") (not b)) production
            ∙ flag-none (codes "ADMIN_LOCAL_AUTH_ENABLED") false l p.login_switch,
      )

-- With the settings of a plain production environment, in which neither the cookies' flag nor the local
-- login is set: every session cookie is sent over HTTPS only, a login with a password is answered with
-- 404 and changes nothing, and the start of the program creates no operator.
pub production_defaults :
    {Float : Type 0} (environment : Environment Float) (s : Settings Float) (a : AuthSettings)
    → LowersBools environment.lower
    → IsPlainProduction environment
    → get_settings environment ≡ some s
    → IsAuthSettings s a
    → ((token csrf : Text) → All (λ (c : Cookie). c.secure ≡ true) (session_cookies a token csrf))
      × ((env : Env) (request : Request) (username password : Text) (w : World)
          → login env a request username password w
            ≡ (raised (http 404 (codes "Local authentication is disabled")), w))
      × ((env : Env) (hash_password : Text → Text) (w : World)
          → ensure_bootstrap_operator env a hash_password w ≡ (ok tt, w))
unfolding session_cookies login ensure_bootstrap_operator
production_defaults environment s a l p e same =
    let (secure, local) = production_switches environment s l p e in
    let disabled : a.local_auth_enabled ≡ false = same.local_auth_enabled ∙ local in
    let https : a.cookie_secure ≡ true = same.cookie_secure ∙ secure in
    (
      λ token csrf. (https, (https, tt)),
      λ env request username password w. rw disabled refl,
      λ env hash_password w. rw disabled refl,
    )
