-- ===== src/Config/Tests.antt =====
-- The settings of admin-api/app/config.py in a concrete environment, with the witness of Production.
use mqtt_broker_stack.Common.{
  Text, codes, ◌≡◌, refl, inl, true, false, some, ◌==◌, All, split_on, strip,
}
use mqtt_broker_stack.Models.{Cookie, World, http, ok, raised, Env}
use mqtt_broker_stack.Auth.{AuthSettings, Request, session_cookies, ensure_bootstrap_operator}
use mqtt_broker_stack.Api.Session.{login}
use mqtt_broker_stack.Config.{getenv, read_secret, flag, get_settings}
use mqtt_broker_stack.Config.Samples.{plain, plain_settings}
use mqtt_broker_stack.Config.Production.{production_defaults}

abbrev plain_auth : AuthSettings
plain_auth = record {
  local_auth_enabled = false;
  bootstrap_username = codes "admin";
  bootstrap_password = codes "pw";
  session_ttl_seconds = 5;
  cookie_secure = true;
}

get_settings-plain : get_settings plain ≡ some plain_settings
unfolding get_settings getenv read_secret flag ◌==◌ split_on strip
get_settings-plain = refl

production_defaults_example :
    ((token csrf : Text)
      → All (λ (c : Cookie). c.secure ≡ true) (session_cookies plain_auth token csrf))
    × ((env : Env) (request : Request) (username password : Text) (w : World)
        → login env plain_auth request username password w
          ≡ (raised (http 404 (codes "Local authentication is disabled")), w))
    × ((env : Env) (hash_password : Text → Text) (w : World)
        → ensure_bootstrap_operator env plain_auth hash_password w ≡ (ok tt, w))
production_defaults_example =
    production_defaults plain plain_settings plain_auth
      (record { lower_true = unfold ◌==◌ in refl; lower_false = unfold ◌==◌ in refl })
      (record { production = inl refl; cookie_switch = refl; login_switch = refl })
      get_settings-plain
      (record { local_auth_enabled = refl; cookie_secure = refl; session_ttl_seconds = refl })
