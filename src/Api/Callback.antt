-- ===== src/Api/Callback.antt =====
-- The callback of Oidc: the operator that is recorded when it succeeds.
use mqtt_broker_stack.Common.{
  ap₂, ℕ, ◌+◌, Text, codes, ◌≡◌, List, refl, subst, ap, inl, inr, not, Option, none, some, [], ◌∷◌,
  ◌++◌, ◌==◌, eq_iff, eq_refl, Bool-cases, Memᴰ, mem-map, arith, if◌then◌else◌,
}
use mqtt_broker_stack.Models.{
  Operator, World, Exception, http, key_error, attribute_error, OperatorSession, Exec, Result, ok,
  raised, raise_if, or_raise, ◌>>=◌, >>=-eq-ok, Env,
}
use mqtt_broker_stack.Auth.{AuthSettings, Request, find_operator, find_session, create_session}
use mqtt_broker_stack.Auth.Sessions.{find_operator-mem}
use mqtt_broker_stack.Audit.{append_event}
use mqtt_broker_stack.Api.{audit}
use mqtt_broker_stack.Api.Oidc.{
  OidcSettings, Claims, claimed_role, oidc_subject, add_operator, record_operator, admit_claims,
  after_claims, oidc_callback,
}
use mqtt_broker_stack.Api.Granted.{IsGranted, claimed_role-IsGranted}

or_raise-ok :
    {A : Type 0} (o : Option A) (x : Exception) (w v : World) (a : A)
    → or_raise o x w ≡ (ok a, v)
    → (o ≡ some a) × (w ≡ v)
or_raise-ok none x w v a e = ground arith
or_raise-ok (some b) x w v a e = ground arith

-- The table has the operator of the subject, with the role.
pub record IsRecorded (subject role : Text) (w : World) : Type 0 where
  pub operator : Operator
  pub listed : Memᴰ operator w.db.operators
  pub has_subject : operator.subject ≡ subject
  pub has_role : operator.role ≡ role

mem_of_append-last : {A : Type 0} (xs : List A) (a : A) → Memᴰ a (xs ++ a ∷ [])
mem_of_append-last [] a = Memᴰ.head refl
mem_of_append-last (x ∷ xs) a = Memᴰ.tail (mem_of_append-last xs a)

module _ (env : Env) (oidc : OidcSettings) (settings : AuthSettings) (request : Request) where
  record_operator-IsRecorded :
      (claims : Claims) (sub role : Text) (found : Option Operator) (w v : World) (o : Operator)
      → ((x : Operator)
          → found ≡ some x
          → Memᴰ x w.db.operators × (x.subject ≡ oidc_subject env oidc settings request claims sub))
      → record_operator env oidc settings request claims sub role found w ≡ (ok o, v)
      → IsRecorded (oidc_subject env oidc settings request claims sub) role v
  unfolding record_operator add_operator
  record_operator-IsRecorded claims sub role none w v o h e =
      subst (IsRecorded (oidc_subject env oidc settings request claims sub) role)
        (ap (λ (r : Result Operator × World). r.1) e)
        (record {
          operator = _;
          listed = mem_of_append-last w.db.operators _;
          has_subject = refl;
          has_role = refl;
        })
  record_operator-IsRecorded claims sub role (some x) w v o h e =
      let (listed, subject) = h x refl in
      subst (IsRecorded (oidc_subject env oidc settings request claims sub) role)
        (ap (λ (r : Result Operator × World). r.1) e)
        (record {
          operator = _;
          listed = mem-map _ w.db.operators listed;
          has_subject = rw (eq_refl x.id) subject;
          has_role = rw (eq_refl x.id) refl;
        })

  create_session-IsRecorded :
      (operator : Operator) (subject role csrf : Text) (w v : World)
      → IsRecorded subject role w
      → create_session env settings operator request w ≡ (ok csrf, v)
      → IsRecorded subject role v
  unfolding create_session
  create_session-IsRecorded operator subject role csrf w v i e =
      let login : ℕ = env.clock (w.clock_reads + 1) in
      let g : Operator → Operator =
        λ o. if o.id == operator.id then record o { last_login_at = some login } else o in
      subst (IsRecorded subject role) (ap (λ (r : Result Text × World). r.1) e) (record {
        operator = g i.operator;
        listed = mem-map g w.db.operators i.listed;
        has_subject = elim (Bool-cases (i.operator.id == operator.id)) [
          | inl y ↦ rw y i.has_subject
          | inr n ↦ rw n i.has_subject
        ];
        has_role = elim (Bool-cases (i.operator.id == operator.id)) [
          | inl y ↦ rw y i.has_role
          | inr n ↦ rw n i.has_role
        ];
      })

  after_claims-ok :
      (type_name : Exception → Text) (r : Result (Unit {0})) (w v : World)
      → after_claims env oidc settings request type_name r w ≡ (ok tt, v)
      → (r ≡ ok tt) × (w ≡ v)
  unfolding after_claims audit append_event
  after_claims-ok type_name (ok tt) w v e = ground arith
  after_claims-ok type_name (raised x) w v e = ground arith

  admit_claims-IsRecorded :
      (claims : Claims) (w v : World)
      → admit_claims env oidc settings request claims w ≡ (ok tt, v)
      → (sub : Text) × (claims.sub ≡ some sub)
        × ((role : Text) × IsGranted claims.role role
            × IsRecorded (oidc_subject env oidc settings request claims sub) role v)
  unfolding admit_claims audit append_event
  admit_claims-IsRecorded claims w v e =
      let (sub, w1, p1, e1) = >>=-eq-ok (or_raise claims.sub key_error) _ w e in
      let (role, w2, p2, e2) = >>=-eq-ok (claimed_role claims.role) _ w1 e1 in
      let subject : Text = oidc_subject env oidc settings request claims sub in
      let found : Option Operator = find_operator (λ o. o.subject == subject) w2.db.operators in
      let (o, w3, p3, e3) =
        >>=-eq-ok (record_operator env oidc settings request claims sub role found) _ w2 e2 in
      let (csrf, w4, p4, e4) = >>=-eq-ok (create_session env settings o request) _ w3 e3 in
      let row : Option OperatorSession =
        find_session (λ s. s.csrf_hash == env.sha256 csrf) w4.db.sessions in
      let (session, w5, p5, e5) = >>=-eq-ok (or_raise row attribute_error) _ w4 e4 in
      let recorded : IsRecorded subject role w3 =
        record_operator-IsRecorded claims sub role found w2 w3 o
          (λ x f.
            let (m, q) = find_operator-mem (λ o. o.subject == subject) w2.db.operators x f in
            (m, (eq_iff x.subject subject).0 q))
          p3 in
      let i : IsRecorded subject role w5 =
        subst (IsRecorded subject role) (or_raise-ok row attribute_error w4 w5 session p5).1
          (create_session-IsRecorded o subject role csrf w3 w4 recorded p4) in
      (
        sub,
        (or_raise-ok claims.sub key_error w w1 sub p1).0,
        (
          role,
          (claimed_role-IsGranted claims.role role w1 w2 p2).0,
          subst (IsRecorded subject role) (ap (λ (r : Result (Unit {0}) × World). r.1) e5) (record {
            operator = i.operator;
            listed = i.listed;
            has_subject = i.has_subject;
            has_role = i.has_role;
          }),
        ),
      )

  -- If `oidc_callback` succeeds, then the provider gave claims with a subject; afterwards there is an
  -- operator with that subject whose role is one of the four, is claimed unless it is the lowest one,
  -- and is the highest of the claimed ones.
  pub oidc_callback-IsGranted :
      (type_name : Exception → Text) (answered : Result Claims) (w v : World)
      → oidc_callback env oidc settings request type_name answered w ≡ (ok tt, v)
      → (claims : Claims) × (answered ≡ ok claims)
        × ((sub : Text) × (claims.sub ≡ some sub)
            × ((role : Text) × IsGranted claims.role role
                × IsRecorded (oidc_subject env oidc settings request claims sub) role v))
  unfolding oidc_callback
  oidc_callback-IsGranted type_name answered w v e =
      let (_, u, p, q) =
        >>=-eq-ok (raise_if (not oidc.enabled) (http 404 (codes "OIDC is not configured"))) _ w e in
      let admit : Exec (Unit {0}) =
        (λ x. (answered, x)) >>= admit_claims env oidc settings request in
      let (good, same) = after_claims-ok type_name (admit u).0 (admit u).1 v q in
      let passed : admit u ≡ (ok tt, v) = ap₂ (λ r x. (r, x)) good same in
      let (claims, z, a, b) =
        >>=-eq-ok (λ x. (answered, x)) (admit_claims env oidc settings request) u passed in
      (claims, ap (λ (r : Result Claims × World). r.0) a, admit_claims-IsRecorded claims z v b)
