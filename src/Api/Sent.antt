-- ===== src/Api/Sent.antt =====
-- Which methods send no command to the broker.
use mqtt_broker_stack.Common.{
  ℕ, Text, ◌≡◌, refl, ◌∙◌, Option, [], ◌+◌, Option-cases, inl, inr, arith, ◌==◌,
}
use mqtt_broker_stack.Models.{
  World, OperatorSession, Result, ok, raised, Exec, continue, ◌>>=◌, Env,
}
use mqtt_broker_stack.Auth.{
  Actor, Credentials, text_or, find_session, find_operator, expired_session, delete_session, admit,
  current_actor, check_role, check_csrf, require_csrf, require_role, require_mutation_role,
}
use mqtt_broker_stack.Api.Bodies.{authorize, security_admin}

pub record KeepsSent {A : Type 0} (m : Exec A) : Type 0 where
  pub at : (w : World) → (m w).1.sent ≡ w.sent

continue-sent :
    {A B : Type 0} (f : A → Exec B) (r : Result A × World)
    → ((a : A) → KeepsSent (f a))
    → (continue r.0 f r.1).1.sent ≡ r.1.sent
continue-sent f (ok a, v) k = (k a).at v
continue-sent f (raised e, v) k = refl

pub KeepsSent-bind :
    {A B : Type 0} (m : Exec A) (f : A → Exec B)
    → KeepsSent m
    → ((a : A) → KeepsSent (f a))
    → KeepsSent (m >>= f)
KeepsSent-bind m f k g = record { at = λ w. continue-sent f (m w) g ∙ k.at w }

module _ (env : Env) where
  admit-KeepsSent : (now : ℕ) (s : OperatorSession) → KeepsSent (admit now s)
  unfolding admit
  admit-KeepsSent now s = record {
    at = λ w. elim (Option-cases (find_operator (λ o. o.id == s.operator_id) w.db.operators)) [
      | inl n ↦ ground arith
      | inr (o, f) ↦ ground arith
    ];
  }

  current_actor-KeepsSent : (token : Option Text) → KeepsSent (current_actor env token)
  unfolding current_actor expired_session delete_session
  current_actor-KeepsSent token = record {
    at = λ w.
        elim (Option-cases
          (find_session (λ s. s.token_hash == env.sha256 (text_or token [])) w.db.sessions)) [
            | inl n ↦ ground arith
            | inr (s, f) ↦ ground (
              arith,
              (admit-KeepsSent (env.clock w.clock_reads) s).at
                  (record w { clock_reads = w.clock_reads + 1 }),
            )
          ];
  }

  check_csrf-KeepsSent :
      (header cookie : Text) (actor : Actor) → KeepsSent (check_csrf env header cookie actor)
  unfolding check_csrf
  check_csrf-KeepsSent header cookie actor = record { at = λ w. ground arith }

  check_role-KeepsSent : (minimum : Text) (actor : Actor) → KeepsSent (check_role minimum actor)
  unfolding check_role
  check_role-KeepsSent minimum actor = record { at = λ w. ground arith }

  pub require_role-KeepsSent :
      (minimum : Text) (credentials : Credentials)
      → KeepsSent (require_role env minimum credentials)
  unfolding require_role
  require_role-KeepsSent minimum credentials =
      KeepsSent-bind (current_actor env credentials.token) (check_role minimum)
        (current_actor-KeepsSent credentials.token) (check_role-KeepsSent minimum)

  pub authorize-KeepsSent : (credentials : Credentials) → KeepsSent (authorize env credentials)
  unfolding authorize require_mutation_role require_csrf
  authorize-KeepsSent credentials =
      KeepsSent-bind (require_csrf env credentials) (check_role security_admin)
        (KeepsSent-bind (current_actor env credentials.token) _
          (current_actor-KeepsSent credentials.token)
          (λ a.
            KeepsSent-bind
              (check_csrf env (text_or credentials.csrf_header [])
                (text_or credentials.csrf_cookie []) a)
              _ (check_csrf-KeepsSent _ _ a) (λ _. record { at = λ w. refl })))
        (check_role-KeepsSent security_admin)
