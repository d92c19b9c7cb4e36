-- ===== src/Api/Bodies.antt =====
-- The request bodies of admin-api/app/schemas.py, as they are after validation, the fields that they
-- become in a broker command, and the dependency that the mutating routes of main.py share.
use mqtt_broker_stack.Common.{suc, Text, codes, Bool, Option, none, some, List, [], ◌∷◌}
use mqtt_broker_stack.Common.Int.{ℤ, pos, negsuc}
use mqtt_broker_stack.Models.{Json, number, minus, string, Fields, field, Exec, Env}
use mqtt_broker_stack.Auth.{Actor, Credentials, require_mutation_role}

abbrev pub text_field : Text → Text → Fields → Fields
text_field k t rest = field k (string t) rest

-- `exclude_none=True`
abbrev pub some_field : Text → Option Text → Fields → Fields
some_field k none rest = rest
some_field k (some t) rest = field k (string t) rest

abbrev pub int_json : ℤ → Json
int_json (pos n) = number n
int_json (negsuc n) = minus (suc n)

-- Request bodies of admin-api/app/schemas.py, as they are after validation.
pub record ClientCreate : Type 0 where
  pub username : Text
  pub password : Text
  pub clientid : Option Text
  pub textname : Option Text
  pub textdescription : Option Text

pub record NamedObject : Type 0 where
  pub name : Text
  pub textname : Option Text
  pub textdescription : Option Text

pub record Assignment : Type 0 where
  pub name : Text
  pub priority : ℤ

pub record AclCreate : Type 0 where
  pub acltype : Text
  pub topic : Text
  pub allow : Bool
  pub priority : ℤ
  pub elevated_confirmation : Bool

abbrev pub security_admin : Text
security_admin = codes "security_admin"

abbrev pub broad_topics : List Text
broad_topics = codes "#" ∷ codes "$CONTROL/#" ∷ codes "$SYS/#" ∷ []

-- `Depends(require_mutation_role("security_admin"))`, which runs before the body of a handler.
unfoldable pub authorize : Env → Credentials → Exec Actor
authorize env credentials = require_mutation_role env security_admin credentials
