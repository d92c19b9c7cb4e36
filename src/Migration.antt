-- ===== src/Migration.antt =====
-- scripts/migrate_dynsec.py: from a password file, an ownership table and an ACL file to a Dynamic
-- Security state with one role for each client and a default denial. Here are the failures; each
-- module below has one part of the script.
pub mod Passwords
pub mod Owners
pub mod Acls
pub mod State
pub mod Decision
use mqtt_broker_stack.Common.{
  ℕ, Text, codes, Bool, true, false, ◌&&◌, ◌||◌, not, List, [], ◌∷◌, all, is_empty, leb, nat_eq,
  ◌≡◌, refl,
}

-- The messages of `MigrationError` with what they name, `RotationRequired`, and the exceptions of
-- Python itself. A number is that of a line.
pub data Failure : Type 0 where
  invalid_password_entry : ℕ → Failure
  invalid_username : ℕ → Text → Failure
  duplicate_password : Text → Failure
  rotation_required : List Text → Failure
  no_identities : Failure
  invalid_header : Failure
  empty_owner_field : Failure
  invalid_group : Text → Failure
  duplicate_owner : Text → Failure
  coverage_mismatch : (missing extra : List Text) → Failure
  invalid_acl : ℕ → Text → Failure
  access_required : ℕ → Text → Failure
  empty_topic : ℕ → Failure
  invalid_acl_user : ℕ → Text → Failure
  unsupported_directive : ℕ → Text → Failure
  unknown_acl_users : List Text → Failure
  no_admin : Failure
  missing_admin_roles : Failure
  value_error : Failure
  key_error : Failure
  attribute_error : Failure
  type_error : Failure

pub data Attempt {ℓ} (A : Type ℓ) : Type ℓ where
  returned : A → Attempt A
  failed : Failure → Attempt A

infixl 5 ◌>>=◌ ◌>>◌
abbrev pub ◌>>=◌ {ℓ κ} : {A : Type ℓ} {B : Type κ} → Attempt A → (A → Attempt B) → Attempt B
returned a >>= f = f a
failed e >>= f = failed e

abbrev pub ◌>>◌ {ℓ} : {B : Type ℓ} → Attempt (Unit {0}) → Attempt B → Attempt B
m >> k = m >>= λ _. k

abbrev pub fail_if : Bool → Failure → Attempt (Unit {0})
fail_if true e = failed e
fail_if false e = returned tt

-- What a step that returned must have had.
pub >>=-eq-returned {ℓ κ} :
    {A : Type ℓ} {B : Type κ} (m : Attempt A) (f : A → Attempt B) {b : B}
    → (m >>= f) ≡ returned b
    → (a : A) × (m ≡ returned a) × (f a ≡ returned b)
>>=-eq-returned (returned a) f h = (a, refl, h)
>>=-eq-returned (failed e) f h = cc

pub >>-eq-returned {ℓ} :
    {B : Type ℓ} (t : Bool) (e : Failure) (k : Attempt B) {b : B}
    → (fail_if t e >> k) ≡ returned b
    → (t ≡ false) × (k ≡ returned b)
>>-eq-returned true e k h = cc
>>-eq-returned false e k h = (refl, h)

abbrev in_range : ℕ → ℕ → ℕ → Bool
in_range low high c = leb low c && leb c high

-- `NAME_PATTERN`
unfoldable pub is_name_char : ℕ → Bool
is_name_char c =
    in_range b'A' b'Z' c
    || in_range b'a' b'z' c
    || in_range b'0' b'9' c
    || nat_eq c b'.'
    || nat_eq c b'_'
    || nat_eq c b'-'

-- `NAME_PATTERN.fullmatch`
unfoldable pub is_name : Text → Bool
unfolding is_name_char
is_name s = not (is_empty s) && all is_name_char s

-- `PRESERVED_ROLES`
abbrev pub preserved_roles : List Text
preserved_roles = codes "dynsec-admin" ∷ codes "sys-observe" ∷ codes "sys-notify" ∷ []
