-- ===== src/Auth/Base.antt =====
-- The records and small functions that the parts of admin-api/app/auth.py share.
use mqtt_broker_stack.Common.{
  ℕ, Text, codes, Bool, true, false, Option, none, some, ◌==◌, if◌then◌else◌,
}
use mqtt_broker_stack.Models.{Operator, OperatorSession}

-- The settings of admin-api/app/config.py that the sessions use.
pub record AuthSettings : Type 0 where
  pub local_auth_enabled : Bool
  pub bootstrap_username : Text
  pub bootstrap_password : Text
  pub session_ttl_seconds : ℕ
  pub cookie_secure : Bool

-- The parts of a request that the handlers read.
pub record Request : Type 0 where
  pub client_host : Option Text
  pub user_agent : Option Text
  pub correlation_id : Text

pub record Actor : Type 0 where
  pub operator : Operator
  pub session : OperatorSession

abbrev pub second : ℕ
second = 1000000

-- `ROLES`
unfoldable pub role_rank : Text → Option ℕ
role_rank role =
    if role == codes "viewer"
    then some 0
    else if role == codes "operator"
    then some 1
    else if role == codes "security_admin"
    then some 2
    else if role == codes "super_admin"
    then some 3
    else none

abbrev pub is_some {ℓ} : {A : Type ℓ} → Option A → Bool
is_some none = false
is_some (some a) = true

abbrev pub text_or : Option Text → Text → Text
text_or none d = d
text_or (some t) d = t

unfoldable pub source_ip : Request → Text
source_ip request = text_or request.client_host (codes "unknown")
