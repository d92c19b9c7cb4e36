-- ===== src/Api/Questions.antt =====
-- The routes of Queries as one request type, and what they leave alone.
use mqtt_broker_stack.Common.{
  codes, one_of, true, is_empty, ◌++◌, ◌==◌, Text, ◌≡◌, ◌≢◌, refl, ap, ◌∙◌, ◌⊎◌, inl, inr,
}
use mqtt_broker_stack.Models.{
  World, Json, Exception, Result, ok, raised, raised-bind, Exec, pure, ◌>>=◌, ◌>>◌, >>=-eq-ok, Env,
  read_clock,
}
use mqtt_broker_stack.Auth.{Actor, Credentials, Request, current_actor, check_role, require_role}
use mqtt_broker_stack.Auth.Sessions.{IsAuthentic, current_actor_sound, check_role_sound}
use mqtt_broker_stack.Policy.Evaluate.{Decision}
use mqtt_broker_stack.Api.Sent.{require_role-KeepsSent}
use mqtt_broker_stack.Api.Asking.{
  Asked, OnlyAsks, OnlyAsks-bind, silent, pure-OnlyAsks, quiet, question_names, if-OnlyAsks,
  iterate-OnlyAsks, clients_with-OnlyAsks, all_rows-OnlyAsks,
}
use mqtt_broker_stack.Api.Asks.{
  require_role-OnlyAsks, list_objects-OnlyAsks, ask-OnlyAsks, audit-OnlyAsks,
}
use mqtt_broker_stack.Api.Queries
use mqtt_broker_stack.Api.Queries.{Views, PermissionQuery, viewer, connections_reply, list_objects}

pub data Question : Type 0 where
  list_clients : (Json → Text) → (Text → Text) → Text → Question
  list_groups : Question
  list_roles : Question
  connections : Question
  evaluate : Views → PermissionQuery → Question

pub data Answer : Type 0 where
  value : Json → Answer
  decision : Decision → Answer

unfoldable pub serve : Env → Request → Credentials → Question → Exec Answer
serve env request credentials (Question.list_clients str_of casefold q) = do
  found ← Queries.list_clients env credentials str_of casefold q
  pure (value found)
serve env request credentials Question.list_groups = do
  found ← Queries.list_groups env credentials
  pure (value found)
serve env request credentials Question.list_roles = do
  found ← Queries.list_roles env credentials
  pure (value found)
serve env request credentials Question.connections = do
  found ← Queries.connections env credentials
  pure (value found)
serve env request credentials (Question.evaluate views q) = do
  found ← Queries.evaluate env views q request credentials
  pure (decision found)

module _ (env : Env) (credentials : Credentials) where
  list_clients-OnlyAsks :
      (str_of : Json → Text) (casefold : Text → Text) (q : Text)
      → OnlyAsks (Queries.list_clients env credentials str_of casefold q)
  unfolding Queries.list_clients
  list_clients-OnlyAsks str_of casefold q =
      OnlyAsks-bind _ _ (require_role-OnlyAsks env viewer credentials) (λ actor.
        OnlyAsks-bind _ _ (list_objects-OnlyAsks env (codes "Clients") (unfold ◌==◌ in refl))
          (λ clients. if-OnlyAsks (is_empty q) (silent (λ w. refl)) (
            OnlyAsks-bind _ _ (iterate-OnlyAsks clients) (λ items.
              OnlyAsks-bind _ _ (clients_with-OnlyAsks str_of casefold (casefold q) items)
                (λ found. silent (λ w. refl))))))

  list-OnlyAsks :
      (kind : Text)
      → one_of (codes "list" ++ kind) question_names ≡ true
      → OnlyAsks (require_role env viewer credentials >> list_objects env kind)
  list-OnlyAsks kind q =
      OnlyAsks-bind _ _ (require_role-OnlyAsks env viewer credentials)
        (λ actor. list_objects-OnlyAsks env kind q)

  connections-OnlyAsks : OnlyAsks (Queries.connections env credentials)
  unfolding Queries.connections
  connections-OnlyAsks = OnlyAsks-bind _ _ (require_role-OnlyAsks env viewer credentials) (λ actor.
      OnlyAsks-bind _ _ (list_objects-OnlyAsks env (codes "Clients") (unfold ◌==◌ in refl))
        (λ clients.
          OnlyAsks-bind (read_clock env) _ (record { at = λ w. quiet refl refl refl })
            (λ now. OnlyAsks-bind _ _ (iterate-OnlyAsks clients) (λ items.
              OnlyAsks-bind _ _ (all_rows-OnlyAsks (env.timestamp now) items)
                (λ rows. pure-OnlyAsks (connections_reply (env.timestamp now) rows))))))

  evaluate-OnlyAsks :
      (views : Views) (q : PermissionQuery) (request : Request)
      → OnlyAsks (Queries.evaluate env views q request credentials)
  unfolding Queries.evaluate
  evaluate-OnlyAsks views q request =
      OnlyAsks-bind _ _ (require_role-OnlyAsks env viewer credentials) (λ actor.
        OnlyAsks-bind _ _ (ask-OnlyAsks env views q) (λ replies.
          OnlyAsks-bind _ _ (audit-OnlyAsks env request _ _ _ _ _) (λ _. silent (λ w. refl))))

module _ (env : Env) (request : Request) (credentials : Credentials) where
  serve-OnlyAsks : (question : Question) → OnlyAsks (serve env request credentials question)
  unfolding serve Queries.list_groups Queries.list_roles
  serve-OnlyAsks (Question.list_clients str_of casefold q) =
      OnlyAsks-bind _ _ (list_clients-OnlyAsks env credentials str_of casefold q)
        (λ found. silent (λ w. refl))
  serve-OnlyAsks Question.list_groups =
      OnlyAsks-bind _ _ (list-OnlyAsks env credentials (codes "Groups") (unfold ◌==◌ in refl))
        (λ found. silent (λ w. refl))
  serve-OnlyAsks Question.list_roles =
      OnlyAsks-bind _ _ (list-OnlyAsks env credentials (codes "Roles") (unfold ◌==◌ in refl))
        (λ found. silent (λ w. refl))
  serve-OnlyAsks Question.connections =
      OnlyAsks-bind _ _ (connections-OnlyAsks env credentials) (λ found. silent (λ w. refl))
  serve-OnlyAsks (Question.evaluate views q) =
      OnlyAsks-bind _ _ (evaluate-OnlyAsks env credentials views q request)
        (λ found. silent (λ w. refl))

  -- A request without the role of a viewer ends with the error of the check, in the state after it.
  serve_refused :
      (question : Question) (w w' : World) (e : Exception)
      → require_role env viewer credentials w ≡ (raised e, w')
      → serve env request credentials question w ≡ (raised e, w')
  unfolding serve Queries.list_clients Queries.list_groups Queries.list_roles Queries.connections
      Queries.evaluate
  serve_refused (Question.list_clients str_of casefold q) w w' e h =
      raised-bind (Queries.list_clients env credentials str_of casefold q) _ w w' e
        (raised-bind (require_role env viewer credentials) _ w w' e h)
  serve_refused Question.list_groups w w' e h =
      raised-bind (Queries.list_groups env credentials) _ w w' e
        (raised-bind (require_role env viewer credentials) _ w w' e h)
  serve_refused Question.list_roles w w' e h =
      raised-bind (Queries.list_roles env credentials) _ w w' e
        (raised-bind (require_role env viewer credentials) _ w w' e h)
  serve_refused Question.connections w w' e h =
      raised-bind (Queries.connections env credentials) _ w w' e
        (raised-bind (require_role env viewer credentials) _ w w' e h)
  serve_refused (Question.evaluate views q) w w' e h =
      raised-bind (Queries.evaluate env views q request credentials) _ w w' e
        (raised-bind (require_role env viewer credentials) _ w w' e h)

  outcome_cases :
      (w : World)
      → ((e : Exception) × (require_role env viewer credentials w
            ≡ (raised e, (require_role env viewer credentials w).1)))
        ⊎ ((a : Actor) × (require_role env viewer credentials w
              ≡ (ok a, (require_role env viewer credentials w).1)))
  outcome_cases w = go (require_role env viewer credentials w)
    where
      go :
          (r : Result Actor × World)
          → ((e : Exception) × (r ≡ (raised e, r.1))) ⊎ ((a : Actor) × (r ≡ (ok a, r.1)))
      go (ok a, v) = inr (a, refl)
      go (raised e, v) = inl (e, refl)

  let_in :
      (w v : World) (a : Actor)
      → require_role env viewer credentials w ≡ (ok a, v)
      → IsAuthentic env credentials.token w a
  unfolding require_role check_role
  let_in w v a h =
      let (b, u, p, q) = >>=-eq-ok (current_actor env credentials.token) (check_role viewer) w h in
      let (_, _, _, _, _, same, _) = check_role_sound env viewer b a u v q in
      rw same (current_actor_sound env credentials.token w b u p)

  -- Whatever question is asked, only commands that read are sent to the broker, no operator changes, and
  -- the audit table keeps its rows; and if anything is sent, the request came from an authentic,
  -- enabled operator.
  pub serve-Asked :
      (question : Question) (w : World)
      → Asked w (serve env request credentials question w).1
        × ((serve env request credentials question w).1.sent ≢ w.sent
            → (a : Actor) × IsAuthentic env credentials.token w a)
  serve-Asked question w = (
    (serve-OnlyAsks question).at w,
    λ n. elim (outcome_cases w) [
      | inl (e, h) ↦ absurd (
          n (
            ap (λ (r : Result Answer × World). r.1.sent)
              (serve_refused question w (require_role env viewer credentials w).1 e h)
            ∙ (require_role-KeepsSent env viewer credentials).at w))
      | inr (a, h) ↦ (a, let_in w (require_role env viewer credentials w).1 a h)
    ],
  )
