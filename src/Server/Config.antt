-- ===== src/Server/Config.antt =====
-- crates/zetmq-server/src/config.rs: the configuration, and how the command line overrides it.
use zet_mq.Prelude.{ℕ, Bool, ◌&&◌, not, List, [], ◌∷◌, Option, none, some, is_some, str_eq}
use zet_mq.Text.{Str}
use zet_mq.Server.Auth.{PermissionsConfig}

pub record UserConfig : Type 0 where
  pub username : Str
  pub password : Str
  pub permissions : PermissionsConfig

pub record AuthConfig : Type 0 where
  pub auth_type : Str
  pub token : Option Str
  pub users : List UserConfig

-- `none`
abbrev pub default_auth_type : Str
default_auth_type = b'n' ∷ b'o' ∷ b'n' ∷ b'e' ∷ []

abbrev pub default_auth : AuthConfig
default_auth = record { auth_type = default_auth_type; token = none; users = [] }

unfoldable pub is_enabled : AuthConfig → Bool
is_enabled auth = not (str_eq auth.auth_type default_auth_type)

pub record TlsConfig : Type 0 where
  pub cert_file : Option Str
  pub key_file : Option Str

abbrev pub default_tls : TlsConfig
default_tls = record { cert_file = none; key_file = none }

abbrev pub is_tls_enabled : TlsConfig → Bool
is_tls_enabled tls = is_some tls.cert_file && is_some tls.key_file

pub record ServerConfig : Type 0 where
  pub host : Str
  pub port : ℕ
  pub max_connections : ℕ
  pub max_payload_bytes : ℕ
  pub connection_output_buffer : ℕ
  pub max_frame_size : ℕ
  pub worker_threads : ℕ
  pub log_level : Str
  pub heartbeat_interval_secs : ℕ
  pub heartbeat_timeout_secs : ℕ
  pub admin_port : ℕ
  pub drain_timeout_secs : ℕ
  pub max_subscriptions_per_connection : ℕ
  pub auth : AuthConfig
  pub tls : TlsConfig

-- `127.0.0.1`
abbrev pub default_host : Str
default_host = b'1' ∷ b'2' ∷ b'7' ∷ b'.' ∷ b'0' ∷ b'.' ∷ b'0' ∷ b'.' ∷ b'1' ∷ []

-- `info`
abbrev pub default_log_level : Str
default_log_level = b'i' ∷ b'n' ∷ b'f' ∷ b'o' ∷ []

abbrev pub default_config : ServerConfig
default_config = record {
  host = default_host;
  port = 4222;
  max_connections = 10000;
  max_payload_bytes = 1048576;
  connection_output_buffer = 65536;
  max_frame_size = 2097152;
  worker_threads = 0;
  log_level = default_log_level;
  heartbeat_interval_secs = 30;
  heartbeat_timeout_secs = 60;
  admin_port = 8222;
  drain_timeout_secs = 5;
  max_subscriptions_per_connection = 1024;
  auth = default_auth;
  tls = default_tls;
}

-- The command line, with the path of a configuration file.
pub record Cli : Type 0 where
  pub config_file : Option Str
  pub host : Option Str
  pub port : Option ℕ
  pub log_level : Option Str
  pub worker_threads : Option ℕ

abbrev or_else {ℓ} : {A : Type ℓ} → Option A → A → A
or_else none d = d
or_else (some x) d = x

-- What the command line gives overrides the configuration.
abbrev pub overridden : Cli → ServerConfig → ServerConfig
overridden cli config = record config {
  host = or_else cli.host config.host;
  port = or_else cli.port config.port;
  log_level = or_else cli.log_level config.log_level;
  worker_threads = or_else cli.worker_threads config.worker_threads;
}

-- `load` reads a file in TOML; where it fails, the process exits.
unfoldable pub resolve : (Str → Option ServerConfig) → Cli → Option ServerConfig
resolve load cli = elim cli.config_file [
  | none ↦ some (overridden cli default_config)
  | some path ↦ elim (load path) [ none ↦ none | some config ↦ some (overridden cli config) ]
]
