-- ===== src/Broker/Status.antt =====
-- `overview` and `certificate_status` of admin-api/app/broker.py, from the messages and the certificate
-- that were read. Instants count microseconds.
use mqtt_broker_stack.Common.Int.{ℤ, pos_part, neg_part}
use mqtt_broker_stack.Common.{
  refl, Option, none, some, ℕ, ◌+◌, ◌*◌, ◌≤◌, ◌<◌, Text, Dict, put, ◌≡◌, ◌↔◌, Bool, ◌&&◌, List, [],
  ◌∷◌, length, nat_eq, ltb, leb, arith, if◌then◌else◌,
}

pub data Health : Type 0 where
  healthy degraded unavailable : Health

-- `on_message` of `overview`, once for each message.
unfoldable pub metrics_of : List (Text × Text) → Dict Text → Dict Text
metrics_of [] metrics = metrics
metrics_of ((topic, payload) ∷ messages) metrics = metrics_of messages (put topic payload metrics)

unfoldable pub overview_state : Bool → Dict Text → Health
overview_state reachable metrics =
    if reachable && nat_eq (length metrics) 3
    then Health.healthy
    else if reachable
    then Health.degraded
    else Health.unavailable

abbrev pub day : ℕ
day = 86400 * 1000000

-- The state in `certificate_status`, for a certificate that runs out at `expiry`, or `none` where the file
-- is missing. A threshold below zero is a time after that.
unfoldable pub certificate_state : ℕ → Option ℕ → ℤ → Health
certificate_state now none warning_days = Health.unavailable
certificate_state now (some expiry) warning_days =
    let state =
      if ltb (now + pos_part warning_days * day) (expiry + neg_part warning_days * day)
      then Health.healthy
      else Health.degraded in
    if leb expiry now then Health.unavailable else state

abbrev pub rank : Health → ℕ
rank Health.healthy = 0
rank Health.degraded = 1
rank Health.unavailable = 2

-- The certificate is missing or has run out.
abbrev pub IsOver : ℕ → Option ℕ → Type 0
IsOver now none = Unit
IsOver now (some expiry) = expiry ≤ now

-- The certificate has not run out, and more than the threshold is left of it.
abbrev pub IsLong : ℕ → Option ℕ → ℤ → Type 0
IsLong now none warning_days = ⊥
IsLong now (some expiry) warning_days =
    (now < expiry) × (now + pos_part warning_days * day < expiry + neg_part warning_days * day)

-- For any threshold, one below zero included: the state is unavailable exactly if the certificate is
-- missing or has run out, and healthy exactly if it has not run out and more than the threshold is left;
-- and as time goes by it never improves from unavailable to degraded or healthy, nor from degraded to
-- healthy.
pub certificate_state-worsens :
    (now later : ℕ) (expiry : Option ℕ) (warning_days : ℤ)
    → now ≤ later
    → ((certificate_state now expiry warning_days ≡ Health.unavailable) ↔ IsOver now expiry)
      × ((certificate_state now expiry warning_days ≡ Health.healthy)
          ↔ IsLong now expiry warning_days)
      × (rank (certificate_state now expiry warning_days)
          ≤ rank (certificate_state later expiry warning_days))
unfolding certificate_state
certificate_state-worsens now later none warning_days h =
    ((λ e. tt, λ e. refl), (λ e. ground arith, λ e. absurd e), omega arith)
certificate_state-worsens now later (some expiry) warning_days h = (
  (λ e. ground arith, λ e. ground arith),
  (λ e. (ground arith, ground arith), λ e. ground (arith, e.0, e.1)),
  ground arith,
)
