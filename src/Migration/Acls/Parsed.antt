-- ===== src/Migration/Acls/Parsed.antt =====
-- Every rule that `parse_acl_file` of scripts/migrate_dynsec.py reads is of one of four types, has a topic
-- and has the priority of its kind.
use mqtt_broker_stack.Common.{
  ℕ, suc, Text, codes, Dict, get, put, ◌≡◌, inl, inr, refl, Bool, true, false, ◌||◌, not, Option,
  none, some, List, [], ◌∷◌, map, ◌==◌, arith, All, All-append, is_empty, join, one_of, starts_with,
  splitlines, strip, strip_prefix, Bool-cases, if_cases,
}
use mqtt_broker_stack.Migration.{
  returned, failed, >>=-eq-returned, >>-eq-returned, invalid_acl, empty_topic, is_name,
  invalid_acl_user,
}
use mqtt_broker_stack.Migration.Passwords.{is_skipped, or_empty}
use mqtt_broker_stack.Migration.Acls.{
  Rule, access_types, rule_for, line_rules, line_access, parse_tokens, parse_acl_line, AclFile,
  rules_or_empty, extend_user, add_rules, user_line, acl_line, acl_lines, no_rules, parse_acl_file,
}
use mqtt_broker_stack.Migration.Acls.Unique.{IsRanked}

abbrev pub rule_types : List Text
rule_types =
    codes "publishClientSend"
    ∷ codes "publishClientReceive"
    ∷ codes "subscribePattern"
    ∷ codes "unsubscribePattern"
    ∷ []

pub record IsRule (r : Rule) : Type 0 where
  pub ranked : IsRanked r
  pub typed : one_of r.acltype rule_types ≡ true
  pub has_topic : is_empty r.topic ≡ false

map-IsRule :
    (allow : Bool) (topic : Text) (types : List Text)
    → is_empty topic ≡ false
    → All (λ t. one_of t rule_types ≡ true) types
    → All IsRule (map (rule_for allow topic) types)
map-IsRule allow topic [] n h = tt
map-IsRule allow topic (t ∷ types) n h =
    (record { ranked = refl; typed = h.0; has_topic = n }, map-IsRule allow topic types n h.1)

abbrev IsTyped : List Text → Type 0
IsTyped types = All (λ t. one_of t rule_types ≡ true) types

abbrev IfSome : Option (List Text) → Type 0
IfSome none = Unit
IfSome (some types) = IsTyped types

access_types-IfSome : (access : Text) → IfSome (access_types access)
unfolding access_types ◌==◌
access_types-IfSome access =
    if_cases IfSome (access == codes "read") _ _ (refl, (refl, (refl, tt)))
      (if_cases IfSome (access == codes "write") _ _ (refl, tt)
        (if_cases IfSome (access == codes "readwrite" || access == codes "deny") _ _
          (refl, (refl, (refl, (refl, tt)))) tt))

line_access-IsRule :
    (number : ℕ) (line access topic : Text) (types : Option (List Text)) (rs : List Rule)
    → IfSome types
    → line_access number line access topic types ≡ returned rs
    → All IsRule rs
unfolding line_rules
line_access-IsRule number line access topic none rs t e = ground arith
line_access-IsRule number line access topic (some types) rs t e =
    let (n, r) = >>-eq-returned (is_empty topic) (empty_topic number) _ e in
    let same : map (rule_for (not (access == codes "deny")) topic) types ≡ rs = cc r in
    rw (← same) (map-IsRule (not (access == codes "deny")) topic types n t)

parse_tokens-IsRule :
    (number : ℕ) (line : Text) (tokens : List Text) (rs : List Rule)
    → parse_tokens number line tokens ≡ returned rs
    → All IsRule rs
unfolding parse_tokens
parse_tokens-IsRule number line [] rs e = ground arith
parse_tokens-IsRule number line (directive ∷ []) rs e = ground arith
parse_tokens-IsRule number line (directive ∷ topic ∷ []) rs e =
    elim (Bool-cases (directive == codes "topic" || directive == codes "pattern")) [
      | inl t ↦
          line_access-IsRule number line (codes "readwrite") topic
            (access_types (codes "readwrite")) rs (access_types-IfSome (codes "readwrite"))
            (rw t at e)
      | inr f ↦ let e' : failed (invalid_acl number line) ≡ returned rs = rw f at e in cc
    ]
parse_tokens-IsRule number line (directive ∷ access ∷ topic ∷ more) rs e =
    elim (Bool-cases (directive == codes "topic" || directive == codes "pattern")) [
      | inl t ↦
          line_access-IsRule number line access (join (codes " ") (topic ∷ more))
            (access_types access) rs (access_types-IfSome access) (rw t at e)
      | inr f ↦ let e' : failed (invalid_acl number line) ≡ returned rs = rw f at e in cc
    ]

abbrev pub HasRules : Dict (List Rule) → Type 0
HasRules [] = Unit
HasRules ((u, rs) ∷ users) = All IsRule rs × HasRules users

put-HasRules :
    (u : Text) (rs : List Rule) (users : Dict (List Rule))
    → All IsRule rs
    → HasRules users
    → HasRules (put u rs users)
unfolding put
put-HasRules u rs [] h d = (h, tt)
put-HasRules u rs ((v, ss) ∷ users) h d =
    if_cases HasRules (v == u) _ _ (h, d.1) (d.0, put-HasRules u rs users h d.1)

pub get-HasRules :
    (u : Text) (users : Dict (List Rule))
    → HasRules users
    → All IsRule (rules_or_empty (get u users))
unfolding get
get-HasRules u [] d = tt
get-HasRules u ((v, ss) ∷ users) d =
    if_cases (λ o. All IsRule (rules_or_empty o)) (v == u) _ _ d.0 (get-HasRules u users d.1)

pub record IsParsed (a : AclFile) : Type 0 where
  pub global_rules : All IsRule a.global
  pub user_rules : HasRules a.users

extend_user-HasRules :
    (u : Text) (rs : List Rule) (users : Dict (List Rule))
    → All IsRule rs
    → HasRules users
    → HasRules (extend_user u rs users)
unfolding extend_user
extend_user-HasRules u rs users h d =
    put-HasRules u _ users
      (All-append IsRule (rules_or_empty (get u users)) rs (get-HasRules u users d) h) d

add_rules-IsParsed :
    (line : Text) (rs : List Rule) (current : Option Text) (a : AclFile)
    → All IsRule rs
    → IsParsed a
    → IsParsed (add_rules line rs current a)
unfolding add_rules
add_rules-IsParsed line rs none a h p = record {
  global_rules = All-append IsRule a.global rs p.global_rules h;
  user_rules = p.user_rules;
}
add_rules-IsParsed line rs (some u) a h p =
    if_cases IsParsed (starts_with line (codes "pattern ")) _ _
      (record {
        global_rules = All-append IsRule a.global rs p.global_rules h;
        user_rules = p.user_rules;
      })
      (record {
        global_rules = p.global_rules;
        user_rules = extend_user-HasRules u rs a.users h p.user_rules;
      })

user_line-IsParsed :
    (number : ℕ) (u : Text) (a b : AclFile)
    → user_line number u a ≡ returned b
    → IsParsed a
    → IsParsed b
unfolding user_line
user_line-IsParsed number u a b e p =
    let (n, r) = >>-eq-returned (not (is_name u)) (invalid_acl_user number u) _ e in
    let same : record a { users = extend_user u [] a.users; current = some u } ≡ b = cc r in
    rw (← same) (record {
      global_rules = p.global_rules;
      user_rules = extend_user-HasRules u [] a.users tt p.user_rules;
    })

acl_line-IsParsed :
    (number : ℕ) (line : Text) (a b : AclFile)
    → acl_line number line a ≡ returned b
    → IsParsed a
    → IsParsed b
unfolding acl_line
acl_line-IsParsed number line a b e p = elim (Bool-cases (is_skipped line)) [
  | inl t ↦ let same : a ≡ b = ground arith in rw (← same) p
  | inr f ↦ elim (Bool-cases (starts_with line (codes "user "))) [
    | inl t ↦
        user_line-IsParsed number (strip (or_empty (strip_prefix (codes "user ") line))) a b
          (ground arith) p
    | inr g ↦
        elim (Bool-cases
          (not (starts_with line (codes "topic ") || starts_with line (codes "pattern ")))) [
            | inl t ↦ ground arith
            | inr h ↦
                let (rs, m, r) =
                  >>=-eq-returned (parse_acl_line line number)
                    (λ rs. returned (add_rules line rs a.current a)) {b = b} (ground arith) in
                let same : add_rules line rs a.current a ≡ b = cc r in
                rw (← same) (
                  add_rules-IsParsed line rs a.current a
                    (unfold parse_acl_line in parse_tokens-IsRule number line _ rs m) p)
          ]
  ]
]

acl_lines-IsParsed :
    (number : ℕ) (lines : List Text) (a b : AclFile)
    → acl_lines number lines a ≡ returned b
    → IsParsed a
    → IsParsed b
unfolding acl_lines
acl_lines-IsParsed number [] a b e p = let same : a ≡ b = cc e in rw (← same) p
acl_lines-IsParsed number (raw_line ∷ lines) a b e p =
    let (c, m, r) =
      >>=-eq-returned (acl_line number (strip raw_line) a) (λ q. acl_lines (suc number) lines q)
        e in
    acl_lines-IsParsed (suc number) lines c b r (acl_line-IsParsed number (strip raw_line) a c m p)

-- Every rule of an ACL file that is accepted, for everybody or for one user, has one of the four types
-- that the script writes, has a topic, and has priority 10 if it allows and 100 if it denies.
pub parse_acl_file-IsParsed :
    (file : Option Text) (a : AclFile) → parse_acl_file file ≡ returned a → IsParsed a
unfolding parse_acl_file
parse_acl_file-IsParsed none a e =
    let same : no_rules ≡ a = cc e in rw (← same) (record { global_rules = tt; user_rules = tt })
parse_acl_file-IsParsed (some file) a e =
    acl_lines-IsParsed 1 (splitlines file) no_rules a e
      (record { global_rules = tt; user_rules = tt })
