-- ===== src/Api/HealthTests.antt =====
-- The readiness check of admin-api/app/main.py with the settings of Config, at an empty state.
use mqtt_broker_stack.Common.{ℕ, Text, ◌≡◌, ◌⊎◌, ◌↔◌, codes, refl, true, List, [], ◌∷◌, ◌==◌}
use mqtt_broker_stack.Models.{ok}
use mqtt_broker_stack.Samples.{sample, start}
use mqtt_broker_stack.Config.{Settings}
use mqtt_broker_stack.Config.Samples.{plain_settings}
use mqtt_broker_stack.Api.{command}
use mqtt_broker_stack.Api.Health.{
  broker_failures, check_broker, readiness, IsReady, readiness-IsReady,
}

-- The broker's password is missing and so is the session secret.
readiness_plain :
    (readiness sample plain_settings true true start).0
    ≡ ok (503, codes "broker_credentials" ∷ codes "session_secret" ∷ [])
unfolding readiness check_broker ◌==◌
readiness_plain = refl

abbrev complete : Settings ℕ
complete = record plain_settings { broker_password = codes "b"; session_secret = codes "s" }

readiness_complete : (readiness sample complete true true start).0 ≡ ok (200, [])
unfolding readiness check_broker command broker_failures ◌==◌
readiness_complete = refl

readiness-IsReady_example :
    (r : ℕ × List Text) × ((readiness sample complete true true start).0 ≡ ok r)
    × ((r.0 ≡ 200) ⊎ (r.0 ≡ 503))
    × ((r.0 ≡ 200) ↔ IsReady sample complete true true start)
readiness-IsReady_example = readiness-IsReady sample complete true true start
