-- ===== src/Api/Health.antt =====
-- The readiness check of admin-api/app/main.py. Whether the database answers and whether the file of the
-- broker's certificate authority is there are parameters.
use mqtt_broker_stack.Common.{
  ℕ, Text, codes, ◌≡◌, refl, sym, ap, ◌∙◌, ◌≢◌, eq_iff, false≢true, ◌↔◌, ◌⊎◌, inl, inr, Bool, true,
  false, ◌&&◌, not, List, [], ◌∷◌, ◌++◌, ◌==◌, is_empty, Bool-cases, arith, if◌then◌else◌,
}
use mqtt_broker_stack.Models.{
  World, BrokerCommand, Json, done, broker_error, Result, ok, raised, Exec, pure, raise, ◌>>=◌, Env,
  Reply, answer, failure, continue,
}
use mqtt_broker_stack.Config.{Settings}
use mqtt_broker_stack.Api.{command}

-- `except BrokerError` around the command.
unfoldable pub broker_failures : Result Json → Exec (List Text)
broker_failures (ok _) = pure []
broker_failures (raised (broker_error t)) = pure (codes "broker" ∷ [])
broker_failures (raised e) = raise e

abbrev pub if_not : Bool → Text → List Text
if_not true name = []
if_not false name = name ∷ []

is_empty_iff : (t : Text) → (is_empty t ≡ false) ↔ (t ≢ [])
is_empty_iff [] = (λ h. ground arith, λ h. absurd (h refl))
is_empty_iff (c ∷ t) = (λ h e. cc e, λ h. refl)

status_cases :
    (d s : Bool) (b : List Text) (name secret : Text)
    → let status : ℕ = if is_empty (if_not d name ++ (b ++ if_not s secret)) then 200 else 503 in
      ((status ≡ 200) ⊎ (status ≡ 503))
      × ((status ≡ 200) ↔ ((d ≡ true) × (is_empty b ≡ true) × (s ≡ true)))
status_cases true true [] name secret = (inl refl, (λ h. (refl, refl, refl), λ h. refl))
status_cases true false [] name secret = (inr refl, (λ h. ground arith, λ h. ground arith))
status_cases true s (x ∷ b) name secret = (inr refl, (λ h. ground arith, λ h. ground arith))
status_cases false s b name secret = (inr refl, (λ h. ground arith, λ h. ground arith))

module _ {Float : Type 0} (env : Env) (settings : Settings Float) (database ca_file : Bool) where
  abbrev pub has_credentials : Bool
  has_credentials = not (is_empty settings.broker_password) && ca_file

  unfoldable pub check_broker : Exec (List Text)
  unfolding broker_failures
  check_broker w =
      if not has_credentials
      then (ok (codes "broker_credentials" ∷ []), w)
      else (let (r, w') = command env (codes "getDefaultACLAccess") done w in broker_failures r w')

  abbrev pub has_session_secret : Bool
  has_session_secret =
      not (settings.environment == codes "production" && is_empty settings.session_secret)

  -- The status code of the answer, and the failures in it.
  abbrev pub verdict : List Text → ℕ × List Text
  verdict broker =
      let failures : List Text =
        if_not database (codes "database")
        ++ (broker ++ if_not has_session_secret (codes "session_secret")) in
      (if is_empty failures then 200 else 503, failures)

  unfoldable pub readiness : Exec (ℕ × List Text)
  unfolding check_broker
  readiness = do broker ← check_broker; pure (verdict broker)

  abbrev defaults_command : BrokerCommand
  defaults_command = record { command = codes "getDefaultACLAccess"; arguments = done }

  pub record IsReady (w : World) : Type 0 where
    pub database_answers : database ≡ true
    pub password_given : settings.broker_password ≢ []
    pub ca_file_found : ca_file ≡ true
    pub answered : (j : Json) × (env.reply w.sent defaults_command ≡ answer j)
    pub session_secret : settings.environment ≡ codes "production" → settings.session_secret ≢ []

  has_credentials_iff :
      (has_credentials ≡ true) ↔ ((settings.broker_password ≢ []) × (ca_file ≡ true))
  has_credentials_iff = (
    λ h. ((is_empty_iff settings.broker_password).0 (ground arith), ground arith),
    λ h.
        let given : is_empty settings.broker_password ≡ false =
          (is_empty_iff settings.broker_password).1 h.0 in
        ground (arith, h.1),
  )

  has_session_secret_iff :
      (has_session_secret ≡ true)
      ↔ (settings.environment ≡ codes "production" → settings.session_secret ≢ [])
  has_session_secret_iff = (
    λ h e.
        let production : settings.environment == codes "production" ≡ true =
          (eq_iff settings.environment (codes "production")).1 e in
        (is_empty_iff settings.session_secret).0 (ground arith),
    λ f. elim (Bool-cases (settings.environment == codes "production")) [
      | inl y ↦
          let given : is_empty settings.session_secret ≡ false =
            (is_empty_iff settings.session_secret).1
              (f ((eq_iff settings.environment (codes "production")).0 y)) in
          ground arith
      | inr n ↦ ground arith
    ],
  )

  reply_cases : (r : Reply) → ((j : Json) × (r ≡ answer j)) ⊎ ((t : Text) × (r ≡ failure t))
  reply_cases (answer j) = inl (j, refl)
  reply_cases (failure t) = inr (t, refl)

  -- What the part for the broker finds.
  data Found (w : World) (r : Result (List Text)) : Type 0 where
    usable :
        (j : Json)
        → env.reply w.sent defaults_command ≡ answer j
        → has_credentials ≡ true
        → r ≡ ok []
        → Found w r
    unusable :
        (name : Text)
        → ((j : Json) → env.reply w.sent defaults_command ≡ answer j → has_credentials ≡ false)
        → r ≡ ok (name ∷ [])
        → Found w r

  check_broker-Found : (w : World) → Found w (check_broker w).0
  unfolding check_broker command broker_failures
  check_broker-Found w = elim (Bool-cases has_credentials) [
    | inl c ↦ elim (reply_cases (env.reply w.sent defaults_command)) [
      | inl (j, a) ↦ usable j a c (rw (c, a) refl)
      | inr (t, f) ↦ unusable (codes "broker") (λ j a. ground arith) (rw (c, f) refl)
    ]
    | inr c ↦ unusable (codes "broker_credentials") (λ j a. c) (rw c refl)
  ]

  readiness-verdict :
      (w : World) (b : List Text) → (check_broker w).0 ≡ ok b → (readiness w).0 ≡ ok (verdict b)
  unfolding readiness
  readiness-verdict w b e = ap (λ r. (continue r (λ b. pure (verdict b)) (check_broker w).1).0) e

  -- Where the broker's command ends with an answer or a `BrokerError`, the check gives the status 200
  -- exactly if the database answers, the broker's password is not empty and the file of its certificate
  -- authority is there, the broker answers the command, and in production the session secret is not empty;
  -- otherwise the status is 503.
  pub readiness-IsReady :
      (w : World)
      → (r : ℕ × List Text) × ((readiness w).0 ≡ ok r)
        × ((r.0 ≡ 200) ⊎ (r.0 ≡ 503))
        × ((r.0 ≡ 200) ↔ IsReady w)
  readiness-IsReady w = elim (check_broker-Found w) [
    | usable j a c e ↦
        let (range, exact) =
          status_cases database has_session_secret [] (codes "database") (codes "session_secret") in
        (
          verdict [],
          readiness-verdict w [] e,
          range,
          (
            λ h.
                let (d, _, s) = exact.0 h in
                record {
                  database_answers = d;
                  password_given = (has_credentials_iff.0 c).0;
                  ca_file_found = (has_credentials_iff.0 c).1;
                  answered = (j, a);
                  session_secret = has_session_secret_iff.0 s;
                },
            λ i. exact.1 (i.database_answers, refl, has_session_secret_iff.1 i.session_secret),
          ),
        )
    | unusable name n e ↦
        let (range, exact) =
          status_cases database has_session_secret (name ∷ []) (codes "database")
            (codes "session_secret") in
        (
          verdict (name ∷ []),
          readiness-verdict w (name ∷ []) e,
          range,
          (
            λ h. let (d, x, s) = exact.0 h in absurd (false≢true x),
            λ i.
                let no : has_credentials ≡ false = n i.answered.0 i.answered.1 in
                absurd
                  (false≢true (sym no ∙ has_credentials_iff.1 (i.password_given, i.ca_file_found))),
          ),
        )
  ]
