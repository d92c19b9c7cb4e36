-- ===== src/Auth/Limiter.antt =====
-- The rate limiter of admin-api/app/auth.py.
use mqtt_broker_stack.Common.{
  ℕ, ◌+◌, ◌*◌, Text, codes, get, put, Bool, true, false, not, Option, none, some, List, [], ◌∷◌,
  ◌++◌, leb, length, if◌then◌else◌,
}
use mqtt_broker_stack.Models.{http, Exec, gets, ◌>>=◌, ◌>>◌, raise_if, modify, Env, read_monotonic}
use mqtt_broker_stack.Auth.Base.{second}

-- The `while` loop of `RateLimiter.check`, for a deque with its oldest entry in front.
unfoldable pub drop_old : ℕ → ℕ → List ℕ → List ℕ
drop_old window now [] = []
drop_old window now (a ∷ attempts) =
    let rest = drop_old window now attempts in if leb (a + window) now then rest else a ∷ attempts

abbrev pub attempts_of : Option (List ℕ) → List ℕ
attempts_of none = []
attempts_of (some l) = l

-- The deque after a check, and whether the request may pass.
unfoldable pub check_deque : ℕ → ℕ → ℕ → List ℕ → Bool × List ℕ
unfolding drop_old
check_deque limit window now attempts =
    let live = drop_old window now attempts in
    if leb limit (length live) then (false, live) else (true, live ++ now ∷ [])

module _ (env : Env) where
  -- `RateLimiter.check`
  unfoldable pub check : Text → ℕ → ℕ → Exec (Unit {0})
  unfolding check_deque
  check key limit window_seconds = do
    now ← read_monotonic env
    attempts ← gets (λ w. attempts_of (get key w.attempts))
    let outcome = check_deque limit (window_seconds * second) now attempts
    modify (λ w. record w { attempts = put key outcome.1 w.attempts })
    raise_if (not outcome.0) (http 429 (codes "Too many requests"))
