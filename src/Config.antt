-- ===== src/Config.antt =====
-- admin-api/app/config.py: the settings, read from environment variables and from secret files.
pub mod Production
pub mod Samples
mod Tests
use mqtt_broker_stack.Common.{
  Text, codes, Bool, true, false, ◌&&◌, not, Option, none, some, List, [], ◌∷◌, ◌++◌, map, reverse,
  ◌==◌, ◌≡◌, one_of, is_empty, keep, nat_eq, split_on, strip, if◌then◌else◌,
}
use mqtt_broker_stack.Common.Int.{ℤ}

-- What is read from outside: the variables, the text of the file at a path if one is there, and
-- Python's `str.lower`, `int` and `float`, which give `none` for a `ValueError`.
pub record Environment (Float : Type 0) : Type 0 where
  pub variable : Text → Option Text
  pub file : Text → Option Text
  pub lower : Text → Text
  pub int : Text → Option ℤ
  pub float : Text → Option Float

pub record Settings (Float : Type 0) : Type 0 where
  pub environment : Text
  pub database_url : Text
  pub public_url : Text
  pub allowed_hosts : List Text
  pub cookie_secure : Bool
  pub session_ttl_seconds : ℤ
  pub session_secret : Text
  pub local_auth_enabled : Bool
  pub bootstrap_username : Text
  pub bootstrap_password : Text
  pub oidc_discovery_url : Text
  pub oidc_client_id : Text
  pub oidc_client_secret : Text
  pub oidc_role_claim : Text
  pub broker_host : Text
  pub broker_port : ℤ
  pub broker_username : Text
  pub broker_password : Text
  pub broker_ca_file : Text
  pub broker_timeout_seconds : Float
  pub certificate_file : Text
  pub certificate_warning_days : ℤ
  pub backup_max_age_hours : ℤ
  pub backup_marker_file : Text

infixl 5 ◌>>=◌
abbrev ◌>>=◌ : {A B : Type 0} → Option A → (A → Option B) → Option B
none >>= f = none
some a >>= f = f a

-- Inversion of a bind that gives a value.
pub >>=-eq-some :
    {A B : Type 0} (m : Option A) (f : A → Option B) {b : B}
    → (m >>= f) ≡ some b
    → (a : A) × (f a ≡ some b)
>>=-eq-some none f e = cc
>>=-eq-some (some a) f e = (a, e)

abbrev pub variable_or : Option Text → Text → Text
variable_or none d = d
variable_or (some t) d = t

abbrev drop_slashes : Text → Text
drop_slashes [] = []
drop_slashes (c ∷ s) = let rest = drop_slashes s in if nat_eq c 47 then rest else c ∷ s

-- `s.rstrip("/")`
abbrev rstrip_slashes : Text → Text
rstrip_slashes s = reverse (drop_slashes (reverse s))

abbrev host_names : Text → List Text
host_names s = keep (λ v. not (is_empty v)) (map strip (split_on 44 s))

abbrev pub true_texts : List Text
true_texts = codes "1" ∷ codes "true" ∷ codes "yes" ∷ codes "on" ∷ []

-- `str(default)`
abbrev bool_text : Bool → Text
bool_text true = codes "True"
bool_text false = codes "False"

module _ {Float : Type 0} (env : Environment Float) where
  -- `os.getenv(name, default)`
  unfoldable pub getenv : Text → Text → Text
  getenv name d = variable_or (env.variable name) d

  -- The file of a secret; an empty path names no file.
  abbrev secret_file : Text → Text
  secret_file [] = []
  secret_file (c ∷ path) = elim (env.file (c ∷ path)) [ none ↦ [] | some t ↦ strip t ]

  abbrev secret_or : Option Text → Text → Text
  secret_or none path = secret_file path
  secret_or (some []) path = secret_file path
  secret_or (some (c ∷ t)) path = c ∷ t

  unfoldable pub read_secret : Text → Text → Text
  unfolding getenv
  read_secret name default_path =
      secret_or (env.variable name) (getenv (name ++ codes "_FILE") default_path)

  -- `_bool`
  unfoldable pub flag : Text → Bool → Bool
  unfolding getenv
  flag name d = one_of (env.lower (getenv name (bool_text d))) true_texts

  unfoldable pub get_settings : Option (Settings Float)
  unfolding getenv read_secret flag
  get_settings =
      let environment = getenv (codes "ADMIN_ENVIRONMENT") (codes "production") in
      do
        session_ttl_seconds ← env.int (getenv (codes "ADMIN_SESSION_TTL_SECONDS") (codes "28800"))
        broker_port ← env.int (getenv (codes "ADMIN_BROKER_PORT") (codes "1884"))
        timeout ← env.float (getenv (codes "ADMIN_BROKER_TIMEOUT_SECONDS") (codes "5"))
        warning_days ← env.int (getenv (codes "ADMIN_CERTIFICATE_WARNING_DAYS") (codes "30"))
        max_age ← env.int (getenv (codes "ADMIN_BACKUP_MAX_AGE_HOURS") (codes "24"))
        some (record {
          environment = environment;
          database_url = getenv (codes "ADMIN_DATABASE_URL") (codes "sqlite:///./admin.db");
          public_url =
              rstrip_slashes (getenv (codes "ADMIN_PUBLIC_URL") (codes "http://localhost:8088"));
          allowed_hosts =
              host_names (getenv (codes "ADMIN_ALLOWED_HOSTS") (codes "localhost,127.0.0.1"));
          cookie_secure = flag (codes "ADMIN_COOKIE_SECURE") (environment == codes "production");
          session_ttl_seconds = session_ttl_seconds;
          session_secret =
              read_secret (codes "ADMIN_SESSION_SECRET")
                (codes "/run/secrets/admin_session_secret");
          local_auth_enabled =
              flag (codes "ADMIN_LOCAL_AUTH_ENABLED") (not (environment == codes "production"));
          bootstrap_username = getenv (codes "ADMIN_BOOTSTRAP_USERNAME") (codes "admin");
          bootstrap_password =
              read_secret (codes "ADMIN_BOOTSTRAP_PASSWORD")
                (codes "/run/secrets/admin_bootstrap_password");
          oidc_discovery_url = getenv (codes "ADMIN_OIDC_DISCOVERY_URL") [];
          oidc_client_id = getenv (codes "ADMIN_OIDC_CLIENT_ID") [];
          oidc_client_secret =
              read_secret (codes "ADMIN_OIDC_CLIENT_SECRET")
                (codes "/run/secrets/admin_oidc_client_secret");
          oidc_role_claim = getenv (codes "ADMIN_OIDC_ROLE_CLAIM") (codes "mqtt_admin_role");
          broker_host = getenv (codes "ADMIN_BROKER_HOST") (codes "mosquitto-control");
          broker_port = broker_port;
          broker_username = getenv (codes "DYNSEC_ADMIN_USERNAME") (codes "admin");
          broker_password =
              read_secret (codes "ADMIN_BROKER_PASSWORD")
                (codes "/run/secrets/dynsec_admin_password");
          broker_ca_file =
              getenv (codes "ADMIN_BROKER_CA_FILE") (codes "/mosquitto/config/certs/ca.crt");
          broker_timeout_seconds = timeout;
          certificate_file =
              getenv (codes "ADMIN_CERTIFICATE_FILE") (codes "/mosquitto/config/certs/server.crt");
          certificate_warning_days = warning_days;
          backup_max_age_hours = max_age;
          backup_marker_file =
              getenv (codes "ADMIN_BACKUP_MARKER_FILE") (codes "/broker-status/last-backup");
        })

-- `oidc_enabled`
unfoldable pub oidc_enabled : {Float : Type 0} → Settings Float → Bool
oidc_enabled s =
    not (is_empty s.oidc_discovery_url)
    && not (is_empty s.oidc_client_id)
    && not (is_empty s.oidc_client_secret)
