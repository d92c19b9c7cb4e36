-- ===== src/Migration/Passwords.antt =====
-- `parse_password_file` of scripts/migrate_dynsec.py, for the text of the file.
pub mod Complete
use mqtt_broker_stack.Common.{
  ℕ, ◌+◌, ◌*◌, zero, suc, Text, codes, Dict, has_key, put, Bool, true, false, ◌&&◌, ◌||◌, not,
  Option, none, some, List, [], ◌∷◌, ◌++◌, ◌==◌, all, ltb, length, nat_eq, is_empty, starts_with,
  strip, splitlines, split_once, split_on, sort_by, text_leb, if◌then◌else◌,
}
use mqtt_broker_stack.Migration.{
  Attempt, returned, failed, ◌>>=◌, ◌>>◌, fail_if, is_name, invalid_password_entry,
  invalid_username, duplicate_password, rotation_required, no_identities, value_error,
}

-- The stored secret of a client: an Argon2 text as it stands, or the parts of a "$7$" text.
pub data Credential : Type 0 where
  encoded : Text → Credential
  pbkdf2 : (password salt : Text) → (iterations : ℕ) → Credential

pub record Client : Type 0 where
  pub username : Text
  pub credential : Credential

-- Python's tables of digits: whether `isdigit` holds, and the value that `int` reads.
pub record Digits : Type 0 where
  pub is_digit : ℕ → Bool
  pub decimal : ℕ → Option ℕ

-- `line` is a comment or blank.
unfoldable pub is_skipped : Text → Bool
unfolding starts_with
is_skipped line = is_empty line || starts_with line (codes "#")

abbrev pub or_empty : Option Text → Text
or_empty none = []
or_empty (some t) = t

abbrev pub part : ℕ → List Text → Text
part i [] = []
part zero (t ∷ ts) = t
part (suc i) (t ∷ ts) = part i ts

-- The clients so far, and the identities whose hashes must be rotated.
pub record Passwords : Type 0 where
  pub clients : Dict Client
  pub rotation : List Text

abbrev pub add_client : Text → Option Credential → Passwords → Passwords
add_client username none p = record p { rotation = p.rotation ++ username ∷ [] }
add_client username (some c) p = record p {
  clients = put username (record { username = username; credential = c }) p.clients;
}

abbrev pub check_passwords : Passwords → Attempt (Dict Client)
check_passwords p = do
  fail_if (not (is_empty p.rotation)) (rotation_required (sort_by text_leb p.rotation))
  fail_if (is_empty p.clients) no_identities
  returned p.clients

module _ (digits : Digits) where
  unfoldable pub digits_value : ℕ → Text → Option ℕ
  digits_value n [] = some n
  digits_value n (c ∷ s) = elim (digits.decimal c) [
    | none ↦ none
    | some d ↦ digits_value (n * 10 + d) s
  ]

  -- `int(s)` for a text that is `isdigit`; Python reads at most 4300 digits.
  unfoldable pub int : Text → Attempt ℕ
  int s =
      if ltb 4300 (length s)
      then failed value_error
      else (elim (digits_value 0 s) [ none ↦ failed value_error | some n ↦ returned n ])

  unfoldable pub isdigit : Text → Bool
  isdigit s = not (is_empty s) && all digits.is_digit s

  -- The credential in a password hash, or `none` where it must be rotated.
  unfoldable pub credential_of : Text → Attempt (Option Credential)
  unfolding starts_with split_on isdigit
  credential_of password_hash =
      if starts_with password_hash (codes "$argon2id$")
      then returned (some (encoded password_hash))
      else if starts_with password_hash (codes "$7$")
      then (let parts = split_on b'$' password_hash in
          if not (nat_eq (length parts) 5)
            || not (isdigit (part 2 parts))
            || is_empty (part 3 parts)
            || is_empty (part 4 parts)
          then returned none
          else (do
            iterations ← int (part 2 parts)
            returned (some (pbkdf2 (part 4 parts) (part 3 parts) iterations))))
      else returned none

  -- The body of the loop behind the test for a comment.
  unfoldable pub password_entry : ℕ → Option (Text × Text) → Passwords → Attempt Passwords
  password_entry number none p = failed (invalid_password_entry number)
  password_entry number (some (username, password_hash)) p = do
    fail_if (not (is_name username)) (invalid_username number username)
    fail_if (has_key username p.clients) (duplicate_password username)
    credential ← credential_of password_hash
    returned (add_client username credential p)

  unfoldable pub password_line : ℕ → Text → Passwords → Attempt Passwords
  unfolding password_entry is_skipped split_once
  password_line number line p =
      if is_skipped line then returned p else password_entry number (split_once b':' line) p

  unfoldable pub password_lines : ℕ → List Text → Passwords → Attempt Passwords
  unfolding password_line strip
  password_lines number [] p = returned p
  password_lines number (raw_line ∷ lines) p = do
    q ← password_line number (strip raw_line) p
    password_lines (suc number) lines q

  unfoldable pub parse_password_file : Text → Attempt (Dict Client)
  unfolding password_lines splitlines
  parse_password_file file = do
    p ← password_lines 1 (splitlines file) (record { clients = []; rotation = [] })
    check_passwords p
