-- ===== src/Samples.antt =====
-- A concrete environment and an empty state, for the tests: clocks that count, a hash that puts a 7 in
-- front, and a JSON text that keeps only the texts and numbers of a value. Then a state in which an operator is signed in.
use mqtt_broker_stack.Common.{
  ℕ, ◌+◌, Text, codes, true, none, some, [], ◌∷◌, ◌++◌, ◌==◌, if◌then◌else◌,
}
use mqtt_broker_stack.Auth.{AuthSettings, Request, Actor, Credentials}
use mqtt_broker_stack.Models.{
  Json, null, bool, number, minus, string, array, object, Items, end, item, Fields, done, field,
  Operator, OperatorSession, Env, World, verified, mismatch, answer,
}

unfoldable mutual
  pub size : Json → Text
  size null = []
  size (bool b) = []
  size (number n) = n ∷ []
  size (minus n) = n ∷ []
  size (string t) = t
  size (array is) = size_items is
  size (object fs) = size_fields fs

  pub size_items : Items → Text
  size_items end = []
  size_items (item v is) = size v ++ size_items is

  pub size_fields : Fields → Text
  size_fields done = []
  size_fields (field k v fs) = size v ++ size_fields fs

abbrev pub sample : Env
sample = record {
  clock = λ n. n + 100;
  monotonic = λ n. n;
  token = λ n. n ∷ [];
  sha256 = λ t. 7 ∷ t;
  verify = λ h p. if h == (7 ∷ p) then verified else mismatch;
  dumps = size;
  loads = string;
  lower = λ t. t;
  timestamp = λ n. n ∷ [];
  reply = λ sent c. answer null;
}

abbrev pub start : World
start = record {
  db = record { operators = []; sessions = []; events = [] };
  attempts = [];
  sent = [];
  cookies = [];
  clock_reads = 0;
  monotonic_reads = 0;
  secrets_drawn = 0;
}

abbrev pub alice : Operator
alice = record {
  id = codes "1";
  subject = codes "local:alice";
  display_name = codes "alice";
  role = codes "super_admin";
  password_hash = some (7 ∷ codes "pw");
  enabled = true;
  created_at = 0;
  last_login_at = none;
}

abbrev pub session : ℕ → OperatorSession
session expires = record {
  id = codes "s";
  operator_id = codes "1";
  token_hash = 7 ∷ codes "t";
  csrf_hash = 7 ∷ codes "x";
  source_ip = codes "10.0.0.1";
  user_agent = [];
  expires_at = expires;
  created_at = 0;
  last_seen_at = 0;
}

abbrev pub signed_in : ℕ → World
signed_in expires = record start {
  db = record start.db { operators = alice ∷ []; sessions = session expires ∷ [] };
}

abbrev pub actor : Actor
actor = record { operator = alice; session = record (session 200) { last_seen_at = 100 } }

abbrev pub credentials : Credentials
credentials = record {
  token = some (codes "t");
  csrf_header = some (codes "x");
  csrf_cookie = some (codes "x");
}

abbrev pub request : Request
request = record {
  client_host = some (codes "10.0.0.1");
  correlation_id = codes "c";
  user_agent = none;
}

abbrev pub settings : AuthSettings
settings = record {
  local_auth_enabled = true;
  bootstrap_username = codes "admin";
  bootstrap_password = [];
  session_ttl_seconds = 1;
  cookie_secure = true;
}

abbrev pub signed_out : World
signed_out = record start { db = record start.db { operators = alice ∷ [] } }
