-- ===== src/Auth/RoundTrip.antt =====
-- A session that `create_session` of admin-api/app/auth.py opens is accepted by `current_actor` and
-- `require_csrf` until it runs out.
use mqtt_broker_stack.Common.{
  ℕ, ◌+◌, ◌*◌, ◌<◌, Text, ◌≡◌, refl, ap, ◌∙◌, Bool, true, false, none, some, List, [], ◌∷◌, ◌++◌,
  arith, ◌==◌, eq_refl, is_empty, map, all, if◌then◌else◌, Bool-cases, inl, inr,
}
use mqtt_broker_stack.Models.{Operator, OperatorSession, World, ok, Env}
use mqtt_broker_stack.Auth.Base.{AuthSettings, Request, Actor, second}
use mqtt_broker_stack.Auth.Login.{find_operator, find_session, create_session}
use mqtt_broker_stack.Auth.Access.{
  expired_session, known_role, admit, current_actor, check_csrf, require_csrf, is_ascii,
}

find_session-append :
    (p : OperatorSession → Bool) (l : List OperatorSession) (s : OperatorSession)
    → find_session p l ≡ none
    → p s ≡ true
    → find_session p (l ++ s ∷ []) ≡ some s
unfolding find_session
find_session-append p [] s e h = rw h refl
find_session-append p (x ∷ xs) s e h = elim (Bool-cases (p x)) [
  | inl t ↦ ground arith
  | inr f ↦ let ih = find_session-append p xs s (ground arith) h in ground arith
]

find_operator-map :
    (p : Operator → Bool) (f : Operator → Operator) (l : List Operator) (o : Operator)
    → ((x : Operator) → p (f x) ≡ p x)
    → find_operator p l ≡ some o
    → find_operator p (map f l) ≡ some (f o)
unfolding find_operator
find_operator-map p f [] o k e = cc
find_operator-map p f (x ∷ xs) o k e = elim (Bool-cases (p x)) [
  | inl t ↦ let same : x ≡ o = ground arith in rw (k x, t) (ap (λ y. some (f y)) same)
  | inr n ↦ let ih = find_operator-map p f xs o k (ground arith) in rw (k x, n) ih
]

module _ (env : Env) (settings : AuthSettings) (operator : Operator) (request : Request)
    (w : World) where
  abbrev pub new_token : Text
  new_token = env.token w.secrets_drawn

  abbrev pub new_csrf : Text
  new_csrf = env.token (w.secrets_drawn + 1)

  abbrev pub opened : World
  opened = (create_session env settings operator request w).1

  abbrev pub expiry : ℕ
  expiry = env.clock w.clock_reads + settings.session_ttl_seconds * second

  abbrev pub signed : Operator
  signed = record operator { last_login_at = some (env.clock (w.clock_reads + 1)) }

  -- What must hold of the operator and of the random token when the session is opened.
  pub record CanOpen : Type 0 where
    pub token_given : is_empty new_token ≡ false
    pub fresh : find_session (λ s. s.token_hash == env.sha256 new_token) w.db.sessions ≡ none
    pub listed : find_operator (λ o. o.id == operator.id) w.db.operators ≡ some operator
    pub enabled : operator.enabled ≡ true
    pub known : known_role operator ≡ true

  found_session :
      CanOpen
      → (s : OperatorSession) × (find_session
            (λ t. t.token_hash == env.sha256 new_token)
            opened.db.sessions
          ≡ some s)
        × (s.operator_id ≡ operator.id)
        × (s.expires_at ≡ expiry)
        × (s.csrf_hash ≡ env.sha256 new_csrf)
  unfolding create_session
  found_session c = (
    _,
    find_session-append _ w.db.sessions _ c.fresh (eq_refl (env.sha256 new_token)),
    refl,
    refl,
    refl,
  )

  found_operator :
      CanOpen → find_operator (λ o. o.id == operator.id) opened.db.operators ≡ some signed
  unfolding create_session
  found_operator c =
      find_operator-map (λ o. o.id == operator.id)
        (λ o.
          if o.id == operator.id
          then record o { last_login_at = some (env.clock (w.clock_reads + 1)) }
          else o)
        w.db.operators operator
        (λ x. elim (Bool-cases (x.id == operator.id)) [ inl t ↦ rw t t | inr n ↦ rw n n ]) c.listed
      ∙ rw (eq_refl operator.id) refl

  -- Where the tables are as `create_session` left them and the session has not run out.
  pub record IsLater (v : World) : Type 0 where
    pub same : v.db ≡ opened.db
    pub early : env.clock v.clock_reads < expiry

  -- The actor that the new session stands for.
  pub record IsSigned (actor : Actor) : Type 0 where
    pub operator_is : actor.operator ≡ signed
    pub csrf_is : actor.session.csrf_hash ≡ env.sha256 new_csrf

  admit_opened :
      (now : ℕ) (s : OperatorSession) (v : World)
      → s.operator_id ≡ operator.id
      → s.csrf_hash ≡ env.sha256 new_csrf
      → find_operator (λ o. o.id == operator.id) v.db.operators ≡ some signed
      → operator.enabled ≡ true
      → known_role operator ≡ true
      → (a : Actor) × ((admit now s v).0 ≡ ok a) × IsSigned a
  unfolding admit
  admit_opened now s v i h f e k =
      rw (i, f, e, k) (_, refl, record { operator_is = refl; csrf_is = h })

  create_session-current_actor :
      (v : World)
      → CanOpen
      → IsLater v
      → (a : Actor) × ((current_actor env (some new_token) v).0 ≡ ok a) × IsSigned a
  unfolding current_actor expired_session
  create_session-current_actor v c l =
      let (s, f, i, x, h) = found_session c in
      let (a, e, g) =
        admit_opened (env.clock v.clock_reads) s (record v { clock_reads = v.clock_reads + 1 }) i h
          (rw l.same (found_operator c)) c.enabled c.known in
      (
        a,
        (let f' : find_session (λ t. t.token_hash == env.sha256 new_token) v.db.sessions ≡ some s =
              rw l.same f in
            rw (c.token_given, f', x) (ground (arith, l.early, e))),
        g,
      )

  check_csrf-opened :
      (a : Actor) (v : World)
      → IsSigned a
      → is_empty new_csrf ≡ false
      → all is_ascii new_csrf ≡ true
      → (check_csrf env new_csrf new_csrf a v).0 ≡ ok tt
  unfolding check_csrf
  check_csrf-opened a v g n h =
      rw (n, h, eq_refl new_csrf, g.csrf_is, eq_refl (env.sha256 new_csrf)) refl

  -- If the new tokens are not empty, the CSRF token is ASCII, no stored session has the new token's
  -- hash, and the operator is listed, enabled and has a known role, then as long as the tables stay as
  -- `create_session` left them and the session's time has not passed, a request that sends the two new
  -- cookies and repeats the CSRF token in its header passes `require_csrf` as that operator.
  pub create_session-require_csrf :
      (v : World)
      → CanOpen
      → is_empty new_csrf ≡ false
      → all is_ascii new_csrf ≡ true
      → IsLater v
      → (a : Actor) × ((require_csrf env
            (record {
              token = some new_token;
              csrf_header = some new_csrf;
              csrf_cookie = some new_csrf;
            })
            v).0
          ≡ ok a)
        × IsSigned a
  unfolding require_csrf
  create_session-require_csrf v c n h l =
      let (a, e, g) = create_session-current_actor v c l in
      (a, rw (e, check_csrf-opened a (current_actor env (some new_token) v).1 g n h) refl, g)
