-- ===== src/Auth/Sessions.antt =====
-- What `current_actor`, the role tests and the CSRF test of admin-api/app/auth.py let through.
use mqtt_broker_stack.Common.{
  ℕ, ◌+◌, ◌≤◌, ◌<◌, Text, ◌≡◌, sym, ap, ◌∙◌, Bool, true, false, Option, none, some, List, [], ◌∷◌,
  arith, ◌==◌, eq_iff, is_empty, if◌then◌else◌, Bool-cases, Option-cases, inl, inr, Memᴰ,
}
use mqtt_broker_stack.Models.{Operator, OperatorSession, World, ok, ◌>>=◌, pure, Env, >>=-eq-ok}
use mqtt_broker_stack.Auth.Base.{Actor, role_rank, text_or}
use mqtt_broker_stack.Auth.Access.{
  Credentials, expired_session, known_role, admit, current_actor, check_role, check_csrf,
  require_csrf, require_mutation_role,
}
use mqtt_broker_stack.Auth.Login.{find_operator, find_session, map_sessions}

find_session-mem :
    (p : OperatorSession → Bool) (l : List OperatorSession) (s : OperatorSession)
    → find_session p l ≡ some s
    → Memᴰ s l × (p s ≡ true)
unfolding find_session
find_session-mem p [] s e = cc
find_session-mem p (x ∷ xs) s e = elim (Bool-cases (p x)) [
  | inl h ↦ let same : x ≡ s = ground arith in (Memᴰ.head (sym same), rw (← same) h)
  | inr h ↦ let (m, q) = find_session-mem p xs s (ground arith) in (Memᴰ.tail m, q)
]

pub find_operator-mem :
    (p : Operator → Bool) (l : List Operator) (o : Operator)
    → find_operator p l ≡ some o
    → Memᴰ o l × (p o ≡ true)
unfolding find_operator
find_operator-mem p [] o e = cc
find_operator-mem p (x ∷ xs) o e = elim (Bool-cases (p x)) [
  | inl h ↦ let same : x ≡ o = ground arith in (Memᴰ.head (sym same), rw (← same) h)
  | inr h ↦ let (m, q) = find_operator-mem p xs o (ground arith) in (Memᴰ.tail m, q)
]

module _ (env : Env) where
  -- Who a request is made by, by the rows of the database before it.
  pub record IsAuthentic (token : Option Text) (w : World) (actor : Actor) : Type 0 where
    pub row : OperatorSession
    pub session_listed : Memᴰ row w.db.sessions
    pub token_hash : row.token_hash ≡ env.sha256 (text_or token [])
    pub token_given : is_empty (text_or token []) ≡ false
    pub unexpired : env.clock w.clock_reads < row.expires_at
    pub operator_listed : Memᴰ actor.operator w.db.operators
    pub owner : actor.operator.id ≡ row.operator_id
    pub enabled : actor.operator.enabled ≡ true
    pub known : known_role actor.operator ≡ true
    pub session : actor.session ≡ record row { last_seen_at = env.clock w.clock_reads }

  admit_sound :
      (now : ℕ) (s : OperatorSession) (w : World) (actor : Actor) (w' : World)
      → admit now s w ≡ (ok actor, w')
      → (find_operator (λ o. o.id == s.operator_id) w.db.operators ≡ some actor.operator)
        × (actor.operator.enabled ≡ true)
        × (known_role actor.operator ≡ true)
        × (actor.session ≡ record s { last_seen_at = now })
        × (w' ≡ map_sessions (λ t. if t.id == s.id then record t { last_seen_at = now } else t) w)
  unfolding admit
  admit_sound now s w actor w' e =
      elim (Option-cases (find_operator (λ o. o.id == s.operator_id) w.db.operators)) [
        | inl n ↦ ground arith
        | inr (o, f) ↦ ground arith
      ]

  -- The cases of `current_actor` with a session that is live.
  current_actor_live :
      (token : Option Text) (w : World) (actor : Actor) (w' : World)
      → current_actor env token w ≡ (ok actor, w')
      → (s : OperatorSession) × (find_session
            (λ t. t.token_hash == env.sha256 (text_or token []))
            w.db.sessions
          ≡ some s)
        × (is_empty (text_or token []) ≡ false)
        × (env.clock w.clock_reads < s.expires_at)
        × (admit (env.clock w.clock_reads) s (record w { clock_reads = w.clock_reads + 1 })
            ≡ (ok actor, w'))
  current_actor_live token w actor w' e =
      elim (Option-cases
        (find_session (λ t. t.token_hash == env.sha256 (text_or token [])) w.db.sessions)) [
          | inl n ↦ absurd (no_session n)
          | inr (s, f) ↦
              (s, f, given s f, live s f, unfold current_actor expired_session in ground arith)
        ]
    where
      no_session :
          find_session (λ t. t.token_hash == env.sha256 (text_or token [])) w.db.sessions ≡ none → ⊥
      no_session n = unfold current_actor expired_session in ground arith

      given :
          (s : OperatorSession)
          → find_session (λ t. t.token_hash == env.sha256 (text_or token [])) w.db.sessions ≡ some s
          → is_empty (text_or token []) ≡ false
      given s f = unfold current_actor expired_session in ground arith

      live :
          (s : OperatorSession)
          → find_session (λ t. t.token_hash == env.sha256 (text_or token [])) w.db.sessions ≡ some s
          → env.clock w.clock_reads < s.expires_at
      live s f = unfold current_actor expired_session in ground arith

  -- If `current_actor` lets an actor in, the token is not empty and hashes to the stored hash of a
  -- session that has not run out, and the session's operator is enabled and has one of the four roles.
  pub current_actor_sound :
      (token : Option Text) (w : World) (actor : Actor) (w' : World)
      → current_actor env token w ≡ (ok actor, w')
      → IsAuthentic token w actor
  current_actor_sound token w actor w' e =
      let (s, f, given, live, a) = current_actor_live token w actor w' e in
      let (found, enabled, known, session, _) =
        admit_sound (env.clock w.clock_reads) s _ actor w' a in
      let (listed, hash) = find_session-mem _ w.db.sessions s f in
      let (op, owner) = find_operator-mem _ w.db.operators actor.operator found in
      record {
        row = s;
        session_listed = listed;
        token_hash = (eq_iff s.token_hash _).0 hash;
        token_given = given;
        unexpired = live;
        operator_listed = op;
        owner = (eq_iff actor.operator.id s.operator_id).0 owner;
        enabled = enabled;
        known = known;
        session = session;
      }

  pub check_role_sound :
      (minimum : Text) (actor a : Actor) (w w' : World)
      → check_role minimum actor w ≡ (ok a, w')
      → (have : ℕ) × (want : ℕ) × (role_rank a.operator.role ≡ some have)
        × (role_rank minimum ≡ some want)
        × (want ≤ have)
        × (a ≡ actor)
        × (w' ≡ w)
  check_role_sound minimum actor a w w' e = elim (Option-cases (role_rank actor.operator.role)) [
    | inl n ↦ absurd (no_have n)
    | inr (have, h) ↦ elim (Option-cases (role_rank minimum)) [
      | inl n ↦ absurd (no_want have h n)
      | inr (want, k) ↦ passes have want h k
    ]
  ]
    where
      no_have : role_rank actor.operator.role ≡ none → ⊥
      no_have n = unfold check_role in ground arith

      no_want :
          (have : ℕ) → role_rank actor.operator.role ≡ some have → role_rank minimum ≡ none → ⊥
      no_want have h n = unfold check_role in ground arith

      same :
          (have want : ℕ)
          → role_rank actor.operator.role ≡ some have
          → role_rank minimum ≡ some want
          → (want ≤ have) × (a ≡ actor) × (w' ≡ w)
      same have want h k = unfold check_role in ground arith

      passes :
          (have want : ℕ)
          → role_rank actor.operator.role ≡ some have
          → role_rank minimum ≡ some want
          → (have : ℕ) × (want : ℕ) × (role_rank a.operator.role ≡ some have)
            × (role_rank minimum ≡ some want)
            × (want ≤ have)
            × (a ≡ actor)
            × (w' ≡ w)
      passes have want h k =
          let (le, e1, e2) = same have want h k in (have, want, rw e1 h, k, le, e1, e2)

  check_csrf_sound :
      (header cookie : Text) (actor : Actor) (w w' : World)
      → check_csrf env header cookie actor w ≡ (ok tt, w')
      → (is_empty header ≡ false)
        × (header ≡ cookie)
        × (env.sha256 header ≡ actor.session.csrf_hash)
        × (w' ≡ w)
  unfolding check_csrf
  check_csrf_sound header cookie actor w w' e =
      ground (arith, eq_iff header cookie, eq_iff (env.sha256 header) actor.session.csrf_hash)

  -- What a mutating request has shown when its handler runs.
  pub record IsAuthorized (minimum : Text) (credentials : Credentials) (w : World) (actor : Actor)
      : Type 0 where
    pub authentic : IsAuthentic credentials.token w actor
    pub have : ℕ
    pub want : ℕ
    pub rank : role_rank actor.operator.role ≡ some have
    pub minimum_rank : role_rank minimum ≡ some want
    pub enough : want ≤ have
    pub csrf_given : is_empty (text_or credentials.csrf_header []) ≡ false
    pub csrf_double : text_or credentials.csrf_header [] ≡ text_or credentials.csrf_cookie []
    pub csrf_bound : env.sha256 (text_or credentials.csrf_header []) ≡ actor.session.csrf_hash

  require_csrf_steps :
      (credentials : Credentials) (w : World) (actor : Actor) (w' : World)
      → require_csrf env credentials w ≡ (ok actor, w')
      → (v : World) × (current_actor env credentials.token w ≡ (ok actor, v))
        × (check_csrf env
              (text_or credentials.csrf_header [])
              (text_or credentials.csrf_cookie [])
              actor
              v
            ≡ (ok tt, w'))
  unfolding require_csrf
  require_csrf_steps credentials w actor w' e =
      let (a, v, first, rest) =
        >>=-eq-ok (current_actor env credentials.token)
          (λ b.
            check_csrf env (text_or credentials.csrf_header []) (text_or credentials.csrf_cookie [])
              b
            >>= λ _. pure b)
          w e in
      let (u, z, second, last) =
        >>=-eq-ok
          (check_csrf env (text_or credentials.csrf_header []) (text_or credentials.csrf_cookie [])
            a)
          (λ _. pure a) v rest in
      let same : a ≡ actor = cc last in
      let end_world : z ≡ w' = cc last in
      (
        v,
        first ∙ ap (λ b. (ok b, v)) same,
        ap
              (λ b.
                check_csrf env (text_or credentials.csrf_header [])
                  (text_or credentials.csrf_cookie []) b v)
              (sym same)
            ∙ second
            ∙ ap (λ z'. (ok tt, z')) end_world,
      )

  -- If `require_mutation_role` lets an actor in, the actor is an authentic operator whose role is at
  -- least the minimum, with the CSRF token sent twice and bound to the session.
  pub require_mutation_role_sound :
      (minimum : Text) (credentials : Credentials) (w : World) (actor : Actor) (w' : World)
      → require_mutation_role env minimum credentials w ≡ (ok actor, w')
      → IsAuthorized minimum credentials w actor
  unfolding require_mutation_role
  require_mutation_role_sound minimum credentials w actor w' e =
      let (a, v, first, rest) = >>=-eq-ok (require_csrf env credentials) (check_role minimum) w e in
      let (have, want, rank, minimum_rank, enough, same, _) =
        check_role_sound minimum a actor v w' rest in
      let (u, actor_step, csrf_step) = require_csrf_steps credentials w a v first in
      let (given, double, bound, _) =
        check_csrf_sound (text_or credentials.csrf_header []) (text_or credentials.csrf_cookie []) a
          u v csrf_step in
      record {
        authentic = current_actor_sound credentials.token w actor u (rw same actor_step);
        have = have;
        want = want;
        rank = rank;
        minimum_rank = minimum_rank;
        enough = enough;
        csrf_given = given;
        csrf_double = double;
        csrf_bound = rw same bound;
      }
