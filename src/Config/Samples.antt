-- ===== src/Config/Samples.antt =====
-- A concrete environment for admin-api/app/config.py, for the tests, and the settings in it.
use mqtt_broker_stack.Common.{
  ℕ, codes, true, false, none, some, [], ◌∷◌, ◌==◌, if◌then◌else◌, length,
}
use mqtt_broker_stack.Common.Int.{pos}
use mqtt_broker_stack.Config.{Environment, Settings}

-- Only the file of the first operator's password is there.
abbrev pub plain : Environment ℕ
plain = record {
  variable = λ name. none;
  file = λ path.
      if path == codes "/run/secrets/admin_bootstrap_password" then some (codes " pw ") else none;
  lower = λ t. if t == codes "True" then codes "true" else codes "false";
  int = λ t. some (pos (length t));
  float = λ t. some (length t);
}

abbrev pub plain_settings : Settings ℕ
plain_settings = record {
  environment = codes "production";
  database_url = codes "sqlite:///./admin.db";
  public_url = codes "http://localhost:8088";
  allowed_hosts = codes "localhost" ∷ codes "127.0.0.1" ∷ [];
  cookie_secure = true;
  session_ttl_seconds = pos 5;
  session_secret = [];
  local_auth_enabled = false;
  bootstrap_username = codes "admin";
  bootstrap_password = codes "pw";
  oidc_discovery_url = [];
  oidc_client_id = [];
  oidc_client_secret = [];
  oidc_role_claim = codes "mqtt_admin_role";
  broker_host = codes "mosquitto-control";
  broker_port = pos 4;
  broker_username = codes "admin";
  broker_password = [];
  broker_ca_file = codes "/mosquitto/config/certs/ca.crt";
  broker_timeout_seconds = 1;
  certificate_file = codes "/mosquitto/config/certs/server.crt";
  certificate_warning_days = pos 2;
  backup_max_age_hours = pos 2;
  backup_marker_file = codes "/broker-status/last-backup";
}
