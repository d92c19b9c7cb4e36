-- ===== src/Models.antt =====
-- The tables of admin-api/app/models.py, the process state that the handlers share, and methods that
-- read and write it and may raise. Times are whole microseconds; `time.monotonic()` is read on a
-- clock of its own.
use mqtt_broker_stack.Common.{
  ℕ, ◌+◌, ◌≡◌, refl, ap, Text, Dict, Bool, Option, none, some, List, if◌then◌else◌,
}

pub record Operator : Type 0 where
  pub id : Text
  pub subject : Text
  pub display_name : Text
  pub role : Text
  pub password_hash : Option Text
  pub enabled : Bool
  pub created_at : ℕ
  pub last_login_at : Option ℕ

pub record OperatorSession : Type 0 where
  pub id : Text
  pub operator_id : Text
  pub token_hash : Text
  pub csrf_hash : Text
  pub source_ip : Text
  pub user_agent : Text
  pub expires_at : ℕ
  pub created_at : ℕ
  pub last_seen_at : ℕ

pub record AuditEvent : Type 0 where
  pub sequence : ℕ
  pub occurred_at : ℕ
  pub actor_id : Option Text
  pub actor_role : Option Text
  pub source_ip : Text
  pub correlation_id : Text
  pub action : Text
  pub target : Text
  pub result : Text
  pub metadata_json : Text
  pub previous_hash : Text
  pub event_hash : Text

-- The rows in the order in which they were added.
pub record Database : Type 0 where
  pub operators : List Operator
  pub sessions : List OperatorSession
  pub events : List AuditEvent

-- JSON values: what handlers put into audit metadata and broker commands. No handler makes a
-- fraction.
mutual
  pub data Json : Type 0 where
    null : Json
    bool : Bool → Json
    number : ℕ → Json
    minus : ℕ → Json
    string : Text → Json
    array : Items → Json
    object : Fields → Json

  pub data Items : Type 0 where
    end : Items
    item : Json → Items → Items

  pub data Fields : Type 0 where
    done : Fields
    field : Text → Json → Fields → Fields

pub record Cookie : Type 0 where
  pub name : Text
  pub value : Text
  pub httponly : Bool
  pub secure : Bool
  pub max_age : ℕ

pub record BrokerCommand : Type 0 where
  pub command : Text
  pub arguments : Fields

-- The state of the API process: the database, the rate limiter's deques, the commands that were sent
-- to the broker, the cookies of the current response, and how often each clock and the source of
-- random tokens were read.
pub record World : Type 0 where
  pub db : Database
  pub attempts : Dict (List ℕ)
  pub sent : List BrokerCommand
  pub cookies : List Cookie
  pub clock_reads : ℕ
  pub monotonic_reads : ℕ
  pub secrets_drawn : ℕ

pub data Exception : Type 0 where
  http : ℕ → Text → Exception
  broker_error : Text → Exception
  key_error : Exception
  attribute_error : Exception
  verification_error : Exception
  type_error : Exception

pub data Result {ℓ} (A : Type ℓ) : Type ℓ where
  ok : A → Result A
  raised : Exception → Result A

-- What was written before a raise stays written: every write is committed at once.
abbrev pub Exec : Type 0 → Type 0
Exec A = World → Result A × World

module _ {A : Type 0} where
  abbrev pub pure : A → Exec A
  pure a w = (ok a, w)

  abbrev pub raise : Exception → Exec A
  raise e w = (raised e, w)

  abbrev pub gets : (World → A) → Exec A
  gets f w = (ok (f w), w)

  abbrev pub or_raise : Option A → Exception → Exec A
  or_raise none e = raise e
  or_raise (some a) e = pure a

abbrev pub continue : {A B : Type 0} → Result A → (A → Exec B) → Exec B
continue (ok a) f w = f a w
continue (raised e) f w = (raised e, w)

infixl 5 ◌>>=◌ ◌>>◌
abbrev pub ◌>>=◌ : {A B : Type 0} → Exec A → (A → Exec B) → Exec B
◌>>=◌ m f w = let (r, w') = m w in continue r f w'

abbrev pub ◌>>◌ : {A B : Type 0} → Exec A → Exec B → Exec B
m >> k = m >>= λ _. k

abbrev pub raise_if : Bool → Exception → Exec (Unit {0})
raise_if b e w = (if b then raised e else ok tt, w)

abbrev pub modify : (World → World) → Exec (Unit {0})
modify f w = (ok tt, f w)

-- A broker command is answered with data or with a `BrokerError`.
pub data Reply : Type 0 where
  answer : Json → Reply
  failure : Text → Reply

pub data Verification : Type 0 where
  verified mismatch malformed : Verification

-- What the program takes from outside: the n-th reading of each clock, the n-th random token,
-- SHA-256, the password hasher, the JSON text of a value (with sorted keys) and back, `str.lower`, the
-- text of a time stamp, and the broker's reply to a command after the commands sent before it.
pub record Env : Type 0 where
  pub clock : ℕ → ℕ
  pub monotonic : ℕ → ℕ
  pub token : ℕ → Text
  pub sha256 : Text → Text
  pub verify : Text → Text → Verification
  pub dumps : Json → Text
  pub loads : Text → Json
  pub lower : Text → Text
  pub timestamp : ℕ → Text
  pub reply : List BrokerCommand → BrokerCommand → Reply

module _ (env : Env) where
  abbrev pub read_clock : Exec ℕ
  read_clock w = (ok (env.clock w.clock_reads), record w { clock_reads = w.clock_reads + 1 })

  abbrev pub read_monotonic : Exec ℕ
  read_monotonic w =
      (ok (env.monotonic w.monotonic_reads), record w { monotonic_reads = w.monotonic_reads + 1 })

  abbrev pub draw_token : Exec Text
  draw_token w = (ok (env.token w.secrets_drawn), record w { secrets_drawn = w.secrets_drawn + 1 })

-- Inversion of a bind that succeeds.
pub >>=-eq-ok :
    {A B : Type 0} (m : Exec A) (f : A → Exec B) (w : World) {b : B} {w' : World}
    → (m >>= f) w ≡ (ok b, w')
    → (a : A) × (v : World) × (m w ≡ (ok a, v)) × (f a v ≡ (ok b, w'))
>>=-eq-ok {A} {B} m f w {b} {w'} e = go (m w) refl e
  where
    go :
        (r : Result A × World)
        → m w ≡ r
        → continue r.0 f r.1 ≡ (ok b, w')
        → (a : A) × (v : World) × (m w ≡ (ok a, v)) × (f a v ≡ (ok b, w'))
    go (ok a, v) p q = (a, v, p, q)
    go (raised x, v) p q = cc

pub raised-bind :
    {A B : Type 0} (m : Exec A) (f : A → Exec B) (w w' : World) (e : Exception)
    → m w ≡ (raised e, w')
    → (m >>= f) w ≡ (raised e, w')
raised-bind m f w w' e h = ap (λ r. continue r.0 f r.1) h
