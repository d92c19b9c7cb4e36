-- ===== src/Api/CallbackTests.antt =====
-- A first sign-in with OpenID Connect that claims two roles: the theorem on the callback of
-- admin-api/app/main.py at that state.
use mqtt_broker_stack.Common.{codes, ◌≡◌, refl, ◌==◌, none, some, [], Text, true}
use mqtt_broker_stack.Models.{World, Exception, ok, array, item, end, string}
use mqtt_broker_stack.Samples.{sample, start, settings, request}
use mqtt_broker_stack.Auth.{find_operator, find_session, create_session}
use mqtt_broker_stack.Audit.{append_event}
use mqtt_broker_stack.Api.{audit}
use mqtt_broker_stack.Api.Oidc.{
  OidcSettings, Claims, has_text, first_claimed, claimed_role, oidc_subject, add_operator,
  record_operator, admit_claims, after_claims, oidc_callback,
}
use mqtt_broker_stack.Api.Granted.{IsGranted}
use mqtt_broker_stack.Api.Callback.{IsRecorded, oidc_callback-IsGranted}

abbrev provider : OidcSettings
provider = record {
  enabled = true;
  public_url = codes "https://mqtt.example";
  discovery_url = codes "https://id.example";
}

abbrev answered : Claims
answered = record {
  iss = none;
  sub = some (codes "7");
  name = none;
  email = some (codes "a@b");
  role = some (array (item (string (codes "viewer")) (item (string (codes "operator")) end)));
}

abbrev no_name : Exception → Text
no_name e = []

abbrev after : World
after = (oidc_callback sample provider settings request no_name (ok answered) start).1

callback_succeeds :
    oidc_callback sample provider settings request no_name (ok answered) start ≡ (ok tt, after)
unfolding oidc_callback after_claims admit_claims record_operator add_operator claimed_role
    first_claimed has_text find_operator find_session create_session audit append_event ◌==◌
callback_succeeds = refl

oidc_callback-IsGranted_example :
    (claims : Claims) × (ok answered ≡ ok claims)
    × ((sub : Text) × (claims.sub ≡ some sub)
        × ((role : Text) × IsGranted claims.role role
            × IsRecorded (oidc_subject sample provider settings request claims sub) role after))
oidc_callback-IsGranted_example =
    oidc_callback-IsGranted sample provider settings request no_name (ok answered) start after
      callback_succeeds
