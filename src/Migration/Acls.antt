-- ===== src/Migration/Acls.antt =====
-- The ACL file of scripts/migrate_dynsec.py: `parse_acl_line`, `parse_acl_file` and
-- `deduplicate_acls`.
pub mod Unique
pub mod Parsed
use mqtt_broker_stack.Common.{
  ℕ, suc, Text, codes, Dict, get, put, Bool, true, false, ◌&&◌, ◌||◌, not, Option, none, some, List,
  [], ◌∷◌, ◌++◌, map, ◌==◌, nat_eq, leb, ltb, is_empty, join, strip, split_words, splitlines,
  starts_with, strip_prefix, sort_by, text_leb, if◌then◌else◌,
}
use mqtt_broker_stack.Migration.{
  Attempt, returned, failed, ◌>>=◌, ◌>>◌, fail_if, is_name, invalid_acl, access_required,
  empty_topic, invalid_acl_user, unsupported_directive,
}
use mqtt_broker_stack.Migration.Passwords.{is_skipped, or_empty}

pub record Rule : Type 0 where
  pub acltype : Text
  pub topic : Text
  pub priority : ℕ
  pub allow : Bool

abbrev send_type : Text
send_type = codes "publishClientSend"

abbrev receive_types : List Text
receive_types =
    codes "publishClientReceive" ∷ codes "subscribePattern" ∷ codes "unsubscribePattern" ∷ []

-- `ACCESS_TYPES`
unfoldable pub access_types : Text → Option (List Text)
access_types access =
    if access == codes "read"
    then some receive_types
    else if access == codes "write"
    then some (send_type ∷ [])
    else if access == codes "readwrite" || access == codes "deny"
    then some (send_type ∷ receive_types)
    else none

-- The priority is 10 for what is allowed and 100 for what is denied.
abbrev pub rule_for : Bool → Text → Text → Rule
rule_for allow topic acltype = record {
  acltype = acltype;
  topic = topic;
  priority = if allow then 10 else 100;
  allow = allow;
}

-- The end of `parse_acl_line`, once the access word has been looked up.
unfoldable pub line_rules : ℕ → Text → Text → List Text → Attempt (List Rule)
line_rules number access topic types = do
  fail_if (is_empty topic) (empty_topic number)
  returned (map (rule_for (not (access == codes "deny")) topic) types)

abbrev pub line_access : ℕ → Text → Text → Text → Option (List Text) → Attempt (List Rule)
line_access number line access topic none = failed (access_required number line)
line_access number line access topic (some types) = line_rules number access topic types

unfoldable pub parse_tokens : ℕ → Text → List Text → Attempt (List Rule)
unfolding line_rules access_types
parse_tokens number line [] = failed (invalid_acl number line)
parse_tokens number line (directive ∷ []) = failed (invalid_acl number line)
parse_tokens number line (directive ∷ topic ∷ []) =
    if directive == codes "topic" || directive == codes "pattern"
    then line_access number line (codes "readwrite") topic (access_types (codes "readwrite"))
    else failed (invalid_acl number line)
parse_tokens number line (directive ∷ access ∷ topic ∷ more) =
    if directive == codes "topic" || directive == codes "pattern"
    then line_access number line access (join (codes " ") (topic ∷ more)) (access_types access)
    else failed (invalid_acl number line)

unfoldable pub parse_acl_line : Text → ℕ → Attempt (List Rule)
unfolding parse_tokens split_words
parse_acl_line line number = parse_tokens number line (split_words line)

-- The rules of everybody, those of each user, and the user of the current section.
pub record AclFile : Type 0 where
  pub global : List Rule
  pub users : Dict (List Rule)
  pub current : Option Text

abbrev pub rules_or_empty : Option (List Rule) → List Rule
rules_or_empty none = []
rules_or_empty (some rs) = rs

-- `user_acls.setdefault(user, []).extend(rules)`
unfoldable pub extend_user : Text → List Rule → Dict (List Rule) → Dict (List Rule)
unfolding get put
extend_user user rules users = put user (rules_or_empty (get user users) ++ rules) users

-- Where the rules of a line go.
unfoldable pub add_rules : Text → List Rule → Option Text → AclFile → AclFile
unfolding extend_user starts_with
add_rules line rules none a = record a { global = a.global ++ rules }
add_rules line rules (some user) a =
    if starts_with line (codes "pattern ")
    then record a { global = a.global ++ rules }
    else record a { users = extend_user user rules a.users }

-- A `user` line.
unfoldable pub user_line : ℕ → Text → AclFile → Attempt AclFile
unfolding extend_user
user_line number user a = do
  fail_if (not (is_name user)) (invalid_acl_user number user)
  returned (record a { users = extend_user user [] a.users; current = some user })

unfoldable pub acl_line : ℕ → Text → AclFile → Attempt AclFile
unfolding is_skipped user_line parse_acl_line add_rules starts_with strip_prefix strip
acl_line number line a =
    if is_skipped line
    then returned a
    else if starts_with line (codes "user ")
    then user_line number (strip (or_empty (strip_prefix (codes "user ") line))) a
    else if not (starts_with line (codes "topic ") || starts_with line (codes "pattern "))
    then failed (unsupported_directive number line)
    else (do rules ← parse_acl_line line number; returned (add_rules line rules a.current a))

unfoldable pub acl_lines : ℕ → List Text → AclFile → Attempt AclFile
unfolding acl_line strip
acl_lines number [] a = returned a
acl_lines number (raw_line ∷ lines) a = do
  b ← acl_line number (strip raw_line) a
  acl_lines (suc number) lines b

abbrev pub no_rules : AclFile
no_rules = record { global = []; users = []; current = none }

-- `none` for a file that is not given or not there.
unfoldable pub parse_acl_file : Option Text → Attempt AclFile
unfolding acl_lines splitlines
parse_acl_file none = returned no_rules
parse_acl_file (some file) = acl_lines 1 (splitlines file) no_rules

abbrev pub bool_eq : Bool → Bool → Bool
bool_eq true b = b
bool_eq false b = not b

abbrev pub rule_eq : Rule → Rule → Bool
rule_eq a b =
    a.acltype == b.acltype
    && a.topic == b.topic
    && nat_eq a.priority b.priority
    && bool_eq a.allow b.allow

-- `unique[key] = acl`: the four parts of the key are all of the rule, so that an equal rule stays.
unfoldable pub add_unique : Rule → List Rule → List Rule
add_unique r [] = r ∷ []
add_unique r (s ∷ rs) = let rest = s ∷ add_unique r rs in if rule_eq s r then r ∷ rs else rest

unfoldable pub add_all : List Rule → List Rule → List Rule
unfolding add_unique
add_all [] unique = unique
add_all (r ∷ rs) unique = add_all rs (add_unique r unique)

-- The order of the keys `(-priority, topic, acltype)`.
unfoldable pub rule_before : Rule → Rule → Bool
rule_before a b =
    if nat_eq a.priority b.priority
    then (if a.topic == b.topic then text_leb a.acltype b.acltype else text_leb a.topic b.topic)
    else ltb b.priority a.priority

unfoldable pub deduplicate_acls : List Rule → List Rule
unfolding add_all rule_before
deduplicate_acls acls = sort_by rule_before (add_all acls [])
