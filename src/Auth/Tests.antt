-- ===== src/Auth/Tests.antt =====
-- A signed-in operator, and the theorems on admin-api/app/auth.py at that state.
use mqtt_broker_stack.Common.{
  ℕ, ◌≤◌, codes, ◌≡◌, refl, some, List, [], ◌∷◌, arith, ◌==◌, keep, length,
}
use mqtt_broker_stack.Models.{ok}
use mqtt_broker_stack.Samples.{
  sample, settings, signed_out, request, alice, session, signed_in, actor, credentials,
}
use mqtt_broker_stack.Auth.Base.{Actor, role_rank}
use mqtt_broker_stack.Auth.Login.{find_operator, find_session, create_session}
use mqtt_broker_stack.Auth.Access.{
  expired_session, admit, current_actor, check_role, check_csrf, require_csrf,
  require_mutation_role,
}
use mqtt_broker_stack.Auth.Limiter.{check_deque}
use mqtt_broker_stack.Auth.RateLimit.{recent, serve, last_time, serve_window}
use mqtt_broker_stack.Auth.RoundTrip.{
  new_token, new_csrf, opened, CanOpen, IsLater, IsSigned, create_session-require_csrf,
}
use mqtt_broker_stack.Auth.Sessions.{
  IsAuthentic, IsAuthorized, current_actor_sound, require_mutation_role_sound,
}

admitted :
    current_actor sample (some (codes "t")) (signed_in 200)
    ≡ (ok actor, (current_actor sample (some (codes "t")) (signed_in 200)).1)
unfolding current_actor admit find_session find_operator expired_session role_rank ◌==◌
admitted = refl

current_actor_sound_example : IsAuthentic sample (some (codes "t")) (signed_in 200) actor
current_actor_sound_example =
    current_actor_sound sample (some (codes "t")) (signed_in 200) actor
      (current_actor sample (some (codes "t")) (signed_in 200)).1 admitted

found : find_session (λ t. t.token_hash == (7 ∷ codes "t")) (session 50 ∷ []) ≡ some (session 50)
unfolding find_session ◌==◌
found = refl

authorized : require_mutation_role sample (codes "security_admin") credentials (signed_in 200) ≡ (
  ok actor,
  (require_mutation_role sample (codes "security_admin") credentials (signed_in 200)).1,
)
unfolding require_mutation_role require_csrf check_csrf check_role current_actor admit find_session
    find_operator expired_session role_rank ◌==◌
authorized = refl

require_mutation_role_sound_example :
    IsAuthorized sample (codes "security_admin") credentials (signed_in 200) actor
require_mutation_role_sound_example =
    require_mutation_role_sound sample (codes "security_admin") credentials (signed_in 200) actor
      (require_mutation_role sample (codes "security_admin") credentials (signed_in 200)).1
      authorized

abbrev burst : List ℕ
burst = 1 ∷ 2 ∷ 3 ∷ 12 ∷ []

burst_served : (serve 2 10 burst [] []).0 ≡ 1 ∷ 2 ∷ 12 ∷ []
unfolding serve check_deque
burst_served = refl

serve_window_example :
    ((serve 2 10 burst [] []).1 ≡ keep (recent 10 (last_time 0 burst)) (serve 2 10 burst [] []).0)
    × (length (keep (recent 10 (last_time 0 burst)) (serve 2 10 burst [] []).0) ≤ 2)
serve_window_example = serve_window 2 10 burst (omega arith) (omega arith)

opening : CanOpen sample settings alice request signed_out
unfolding find_session find_operator role_rank ◌==◌
opening = record { token_given = refl; fresh = refl; listed = refl; enabled = refl; known = refl }

opened-IsLater :
    IsLater sample settings alice request signed_out
      (opened sample settings alice request signed_out)
unfolding create_session
opened-IsLater = record { same = refl; early = omega arith }

create_session-require_csrf_example :
    (a : Actor) × ((require_csrf sample
        (record {
          token = some (new_token sample settings alice request signed_out);
          csrf_header = some (new_csrf sample settings alice request signed_out);
          csrf_cookie = some (new_csrf sample settings alice request signed_out);
        })
        (opened sample settings alice request signed_out)).0
      ≡ ok a)
    × IsSigned sample settings alice request signed_out a
create_session-require_csrf_example =
    create_session-require_csrf sample settings alice request signed_out
      (opened sample settings alice request signed_out) opening refl refl opened-IsLater
