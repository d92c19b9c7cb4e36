-- ===== src/Migration/State/Tests.antt =====
-- A migration of two identities, and the theorems on scripts/migrate_dynsec.py there.
use mqtt_broker_stack.Common.{
  ◌-◌, Text, codes, String, Dict, get, put, has_key, keys, ◌≡◌, ◌↔◌, refl, Bool, true, false, ◌&&◌,
  none, some, [], ◌∷◌, ◌++◌, Memᴰ, leb, ◌==◌, if◌then◌else◌, sort_by, text_compare, splitlines,
  split_once, split_words, strip, starts_with, split_on, strip_prefix, file_lines, join, one_of,
}
use mqtt_broker_stack.Models.{Json, string, array, object, end, item, done, field}
use mqtt_broker_stack.Policy.Evaluate.{Role, evaluate_permission}
use mqtt_broker_stack.Migration.{Attempt, returned, failed, is_name}
use mqtt_broker_stack.Migration.Passwords.{
  Digits, Client, encoded, pbkdf2, parse_password_file, password_lines, isdigit, int, digits_value,
  credential_of,
}
use mqtt_broker_stack.Migration.Passwords.Complete.{
  identity_of, IsRead, parse_password_file_complete,
}
use mqtt_broker_stack.Migration.Owners.{Owner, parse_owners, csv_records, fresh, sorted_difference}
use mqtt_broker_stack.Migration.Owners.Coverage.{AreRead, IsTable, parse_owners-covers}
use mqtt_broker_stack.Migration.Acls.{
  Rule, AclFile, rules_or_empty, parse_acl_file, acl_lines, deduplicate_acls,
}
use mqtt_broker_stack.Migration.Acls.Unique.{IsCanonical, deduplicate_acls-IsCanonical_iff}
use mqtt_broker_stack.Migration.Acls.Parsed.{IsParsed, parse_acl_file-IsParsed}
use mqtt_broker_stack.Migration.Decision.{permits}
use mqtt_broker_stack.Migration.State.Parts.{
  migrated_client, State, MigratedClient, client_for, deny_all,
}
use mqtt_broker_stack.Migration.State.{migrate}
use mqtt_broker_stack.Migration.State.Identities.{IsPopulated, migrate-identities}
use mqtt_broker_stack.Migration.State.Allowed.{
  policy_client, policy_groups, policy_roles, policy_defaults, migrate-evaluate_permission,
}

abbrev ascii : Digits
ascii = record {
  is_digit = λ c. leb b'0' c && leb c b'9';
  decimal = λ c. if leb b'0' c && leb c b'9' then some (c - b'0') else none;
}

abbrev password_file : Text
password_file = codes "# identities\nview:$7$101$c2FsdA==$cGFzcw==\n\n sensor:$argon2id$x \n"

abbrev clients : Dict Client
clients =
    (
      codes "view",
      record {
        username = codes "view";
        credential = pbkdf2 (codes "cGFzcw==") (codes "c2FsdA==") 101;
      },
    )
    ∷ (
      codes "sensor",
      record { username = codes "sensor"; credential = encoded (codes "$argon2id$x") },
    )
    ∷ []

read_passwords : parse_password_file ascii password_file ≡ returned clients
unfolding parse_password_file splitlines strip split_once split_on put has_key ◌==◌ starts_with
    credential_of int digits_value is_name isdigit password_lines
read_passwords = refl

parse_password_file_complete_example :
    (has_key (codes "sensor") clients ≡ true) × IsRead ascii password_file clients
parse_password_file_complete_example =
    parse_password_file_complete ascii password_file clients (codes " sensor:$argon2id$x ")
      (codes "sensor") read_passwords listed named
  where
    listed : Memᴰ (codes " sensor:$argon2id$x ") (splitlines password_file)
    listed = unfold splitlines in Memᴰ.tail (Memᴰ.tail (Memᴰ.tail (Memᴰ.head refl)))

    named : identity_of (codes " sensor:$argon2id$x ") ≡ some (codes "sensor")
    named = unfold identity_of in refl

abbrev owners_file : Text
owners_file = codes "username,owner,group\nsensor,\"Plant, north\",field\r\n\nview,Ops,desk\n"

abbrev owners : Dict Owner
owners =
    (codes "sensor", record { owner = codes "Plant, north"; group = codes "field" })
    ∷ (codes "view", record { owner = codes "Ops"; group = codes "desk" })
    ∷ []

read_owners : parse_owners owners_file (keys clients) ≡ returned owners
unfolding parse_owners csv_records file_lines strip put has_key ◌==◌ sorted_difference sort_by
    text_compare starts_with is_name
read_owners = refl

parse_owners-covers_example :
    (has_key (codes "view") owners ≡ one_of (codes "view") (keys clients))
    × AreRead owners
    × IsTable (csv_records fresh (file_lines owners_file)) owners
parse_owners-covers_example =
    parse_owners-covers owners_file (keys clients) owners (codes "view") read_owners

abbrev acl_file : Text
acl_file =
    codes
      "topic read news/#\nuser sensor\ntopic write site/%u/data\ntopic deny site/sensor/data/raw\npattern write any/%u\n"

abbrev denied : Rule
denied = record {
  acltype = codes "publishClientSend";
  topic = codes "site/sensor/data/raw";
  priority = 100;
  allow = false;
}

abbrev acls : AclFile
acls = record {
  global =
      record {
        acltype = codes "publishClientReceive";
        topic = codes "news/#";
        priority = 10;
        allow = true;
      }
      ∷ record {
        acltype = codes "subscribePattern";
        topic = codes "news/#";
        priority = 10;
        allow = true;
      }
      ∷ record {
        acltype = codes "unsubscribePattern";
        topic = codes "news/#";
        priority = 10;
        allow = true;
      }
      ∷ record {
        acltype = codes "publishClientSend";
        topic = codes "any/%u";
        priority = 10;
        allow = true;
      }
      ∷ [];
  users =
      (
        codes "sensor",
        record {
          acltype = codes "publishClientSend";
          topic = codes "site/%u/data";
          priority = 10;
          allow = true;
        }
            ∷ denied
            ∷ record {
              acltype = codes "publishClientReceive";
              topic = codes "site/sensor/data/raw";
              priority = 100;
              allow = false;
            }
            ∷ record {
              acltype = codes "subscribePattern";
              topic = codes "site/sensor/data/raw";
              priority = 100;
              allow = false;
            }
            ∷ record {
              acltype = codes "unsubscribePattern";
              topic = codes "site/sensor/data/raw";
              priority = 100;
              allow = false;
            }
            ∷ [],
      )
      ∷ [];
  current = some (codes "sensor");
}

read_acls : parse_acl_file (some acl_file) ≡ returned acls
unfolding parse_acl_file splitlines strip split_words strip_prefix put get ◌==◌ starts_with is_name
    join acl_lines
read_acls = refl

parse_acl_file-IsParsed_example : IsParsed acls
parse_acl_file-IsParsed_example = parse_acl_file-IsParsed (some acl_file) acls read_acls

deduplicate_acls-IsCanonical_iff_example :
    IsCanonical (denied ∷ denied ∷ []) (denied ∷ [])
    ↔ (denied ∷ [] ≡ deduplicate_acls (denied ∷ denied ∷ []))
deduplicate_acls-IsCanonical_iff_example =
    deduplicate_acls-IsCanonical_iff (denied ∷ denied ∷ []) (denied ∷ []) (refl, (refl, tt))

abbrev named_role : String → Json
named_role name = object (field (codes "rolename") (string (codes name)) done)

abbrev base : Json
base = object (
    field (codes "clients")
      (array (item (object (field (codes "username") (string (codes "admin")) done)) end))
      (field (codes "roles")
        (array (
          item (named_role "dynsec-admin")
            (item (named_role "sys-observe") (item (named_role "app") end))))
        done))

abbrev migrated : Attempt State
migrated = migrate ascii password_file (some acl_file) owners_file base

-- What an attempt has returned, and an empty state for a failure.
abbrev state_of : Attempt State → State
state_of (returned st) = st
state_of (failed e) = record {
  default_acl_access = deny_all;
  clients = [];
  groups = [];
  roles = [];
  anonymous_group = [];
}

migrates : migrated ≡ returned (state_of migrated)
unfolding migrate is_name credential_of int digits_value ◌==◌ sort_by join text_compare
migrates = refl

abbrev sensor : MigratedClient
sensor =
    client_for (codes "sensor") (record { owner = codes "Plant, north"; group = codes "field" })
      (record { username = codes "sensor"; credential = encoded (codes "$argon2id$x") })

migrates_sensor : Memᴰ (migrated_client sensor) (state_of migrated).clients
unfolding migrate is_name credential_of int digits_value ◌==◌ sort_by join text_compare
migrates_sensor = Memᴰ.tail (Memᴰ.head refl)

abbrev no_rules : Json → Role
no_rules j = record { acls = [] }

abbrev allowed : Text → Bool
allowed topic =
    (evaluate_permission sensor.username (codes "c1") topic (codes "publishClientSend")
      (policy_client (state_of migrated) sensor) (policy_groups (state_of migrated).groups [])
      (policy_roles no_rules (state_of migrated).roles [])
      (policy_defaults (state_of migrated).default_acl_access)).allow

migrate-evaluate_permission_example :
    allowed (codes "site/sensor/data")
    ≡ permits sensor.username
        (codes "c1")
        (codes "site/sensor/data")
        (codes "publishClientSend")
        (acls.global ++ rules_or_empty (get sensor.username acls.users))
migrate-evaluate_permission_example =
    migrate-evaluate_permission ascii password_file (some acl_file) owners_file base
      (state_of migrated) no_rules acls sensor (codes "c1") (codes "site/sensor/data")
      (codes "publishClientSend") migrates read_acls migrates_sensor

migrate-identities_example :
    IsPopulated ascii password_file (some acl_file) owners_file base (state_of migrated) clients
migrate-identities_example =
    migrate-identities ascii password_file (some acl_file) owners_file base (state_of migrated)
      clients migrates read_passwords
