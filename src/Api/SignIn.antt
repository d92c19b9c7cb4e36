-- ===== src/Api/SignIn.antt =====
-- The routes `login` and `logout` of admin-api/app/main.py: who is let in, and what is left behind.
use mqtt_broker_stack.Common.{
  List, All, All-of_mem, keep, mem_of_mem-keep, ◌≢◌, ◌*◌, Text, codes, ◌≡◌, refl, sym, ap, ◌∙◌,
  true, false, not, Option, none, some, ◌++◌, ◌==◌, eq_iff, is_empty, get, Memᴰ, Bool-cases, inl,
  inr, arith, if◌then◌else◌,
}
use mqtt_broker_stack.Models.{
  OperatorSession, Operator, World, Json, http, Result, ok, Exec, raise_if, ◌>>=◌, >>=-eq-ok, Env,
  verified, mismatch, malformed, Verification,
}
use mqtt_broker_stack.Auth.{
  Actor, Credentials, require_csrf, delete_session, clear_session_cookies, AuthSettings, Request,
  source_ip, check, check_deque, attempts_of, second, verify_password, find_operator,
}
use mqtt_broker_stack.Auth.Sessions.{find_operator-mem}
use mqtt_broker_stack.Audit.{append_event}
use mqtt_broker_stack.Api.{audit}
use mqtt_broker_stack.Api.Session.{
  local_subject, after_login_check, login_limited, accept_password, admit_login, login, logout,
}

module _ (env : Env) (settings : AuthSettings) (request : Request) where
  login_limited-ok :
      (username : Text) (w v : World)
      → login_limited env settings request username w ≡ (ok tt, v)
      → v.db ≡ w.db
  unfolding login_limited after_login_check check
  login_limited-ok username w v e =
      elim (Bool-cases
        (check_deque 5 (300 * second) (env.monotonic w.monotonic_reads) (
          attempts_of (
            get (codes "login:" ++ (source_ip request ++ (codes ":" ++ username)))
              w.attempts))).0) [ inl t ↦ ground arith | inr n ↦ ground arith ]

  -- The operator that a password was accepted for.
  pub record IsAccepted (username password : Text) (w : World) (o : Operator) : Type 0 where
    pub listed : Memᴰ o w.db.operators
    pub subject : o.subject ≡ local_subject username
    pub enabled : o.enabled ≡ true
    pub hash : Text
    pub has_hash : o.password_hash ≡ some hash
    pub hash_given : is_empty hash ≡ false
    pub verified_hash : env.verify hash password ≡ verified

  verify_password-true :
      (password : Text) (h : Option Text) (w v : World)
      → verify_password env password h w ≡ (ok true, v)
      → (t : Text) × (h ≡ some t) × (is_empty t ≡ false) × (env.verify t password ≡ verified)
  unfolding verify_password
  verify_password-true password none w v e = ground arith
  verify_password-true password (some t) w v e = elim (Bool-cases (is_empty t)) [
    | inl y ↦ ground arith
    | inr n ↦ (t, refl, n, go (env.verify t password) refl)
  ]
    where
      go : (r : Verification) → env.verify t password ≡ r → env.verify t password ≡ verified
      go verified q = q
      go mismatch q = ground arith
      go malformed q = ground arith

  accept_password-some :
      (found : Option Operator) (password : Text) (w v : World) (o : Operator)
      → accept_password env settings request found password w ≡ (ok (some o), v)
      → (found ≡ some o)
        × (o.enabled ≡ true)
        × ((t : Text) × (o.password_hash ≡ some t)
            × (is_empty t ≡ false)
            × (env.verify t password ≡ verified))
  unfolding accept_password
  accept_password-some none password w v o e = ground arith
  accept_password-some (some x) password w v o e = elim (Bool-cases x.enabled) [
    | inl y ↦
        let accepting : Exec (Option Operator) =
          verify_password env password x.password_hash >>= λ b.
          λ z. (ok (if b then some x else none), z) in
        let e' : accepting w ≡ (ok (some o), v) =
          ap (λ b. (if b then accepting else λ z. (ok none, z)) w) (sym y) ∙ e in
        let (b, z, p, q) = >>=-eq-ok (verify_password env password x.password_hash) _ w e' in
        let accepted : (b ≡ true) × (x ≡ o) = ground arith in
        let same : x ≡ o = accepted.1 in
        (
          ap some same,
          rw (← same) y,
          rw (← same) (verify_password-true password x.password_hash w z (p ∙ rw accepted.0 refl)),
        )
    | inr n ↦ ground arith
  ]

  admit_login-ok :
      (username : Text) (accepted : Option Operator) (w v : World) (j : Json)
      → admit_login env settings request username accepted w ≡ (ok j, v)
      → (o : Operator) × (accepted ≡ some o)
  unfolding admit_login audit
  admit_login-ok username none w v j e = ground arith
  admit_login-ok username (some o) w v j e = (o, refl)

  -- If `login` succeeds, there is an enabled operator with the subject "local:" and the user name whose
  -- stored password hash is not empty and is the hash of the password.
  pub login_sound :
      (username password : Text) (w v : World) (j : Json)
      → login env settings request username password w ≡ (ok j, v)
      → (o : Operator) × IsAccepted username password w o
  unfolding login
  login_sound username password w v j e =
      let (_, w1, a1, e1) =
        >>=-eq-ok
          (raise_if (not settings.local_auth_enabled)
            (http 404 (codes "Local authentication is disabled")))
          _ w e in
      let (_, w2, a2, e2) = >>=-eq-ok (login_limited env settings request username) _ w1 e1 in
      let (accepted, w3, a3, e3) =
        >>=-eq-ok
          (accept_password env settings request
            (find_operator (λ o. o.subject == local_subject username) w2.db.operators) password)
          _ w2 e2 in
      let (o, some_o) = admit_login-ok username accepted w3 v j e3 in
      let (found, enabled, hashes) =
        accept_password-some _ password w2 w3 o (a3 ∙ rw some_o refl) in
      let (t, has, given, verified_hash) = hashes in
      let same : w1 ≡ w = ap (λ (r : Result (Unit {0}) × World). r.1) (sym a1) in
      let kept : w2.db ≡ w.db =
        login_limited-ok username w1 w2 a2 ∙ ap (λ (x : World). x.db) same in
      let (listed, subject) = find_operator-mem _ w2.db.operators o found in
      (
        o,
        record {
          listed = rw kept at listed;
          subject = (eq_iff o.subject (local_subject username)).0 subject;
          enabled = enabled;
          hash = t;
          has_hash = has;
          hash_given = given;
          verified_hash = verified_hash;
        },
      )

  keep-All :
      (id : Text) (l : List OperatorSession)
      → All (λ (s : OperatorSession). s.id ≢ id) (keep (λ t. not (t.id == id)) l)
  keep-All id l =
      All-of_mem (λ (s : OperatorSession). s.id ≢ id) (keep (λ t. not (t.id == id)) l)
        (λ s m. λ e.
          let h : not (s.id == id) ≡ true =
            (mem_of_mem-keep (λ (t : OperatorSession). not (t.id == id)) l m).1 in
          let same : s.id == id ≡ true = (eq_iff s.id id).1 e in ground arith)

  -- If `logout` succeeds, then it was for the actor that `require_csrf` let in, and afterwards no session
  -- has the id of that actor's session.
  pub logout-ends :
      (credentials : Credentials) (w v : World) (j : Json)
      → logout env settings request credentials w ≡ (ok j, v)
      → (a : Actor) × ((require_csrf env credentials w).0 ≡ ok a)
        × All (λ (s : OperatorSession). s.id ≢ a.session.id) v.db.sessions
  unfolding logout delete_session clear_session_cookies audit append_event
  logout-ends credentials w v j e =
      let (a, u, p, q) = >>=-eq-ok (require_csrf env credentials) _ w e in
      let after : keep (λ t. not (t.id == a.session.id)) u.db.sessions ≡ v.db.sessions =
        ap (λ (r : Result Json × World). r.1.db.sessions) q in
      (
        a,
        ap (λ (r : Result Actor × World). r.0) p,
        rw (← after) (keep-All a.session.id u.db.sessions),
      )
