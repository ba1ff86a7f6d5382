-- ===== src/Config.antt =====
-- src/config.rs: the records of `config.json` and their defaults.
pub mod Defaults
pub mod Files
use naleystogramm_server.Base.{ℕ, Bool, Text}

pub record ServerConfig : Type 0 where
  pub port : ℕ
  pub name : Text
  pub description : Text
  pub public : Bool

pub record RegistrationConfig : Type 0 where
  pub is_open : Bool
  pub require_email : Bool
  pub require_invite : Bool
  pub max_users : ℕ
  pub username_min_length : ℕ
  pub username_max_length : ℕ
  pub username_regex : Text

pub record TokensConfig : Type 0 where
  pub ttl_days : ℕ
  pub max_per_user : ℕ

pub record StorageConfig : Type 0 where
  pub driver : Text
  pub path : Text
  pub url : Text

pub record PresenceConfig : Type 0 where
  pub offline_after_minutes : ℕ
  pub ip_update_interval_seconds : ℕ

pub record CompatibilityConfig : Type 0 where
  pub min_client_version : Text

pub record RelayConfig : Type 0 where
  pub enabled : Bool
  pub max_sessions : ℕ
  pub session_timeout_seconds : ℕ
  pub max_session_bytes : ℕ

pub record GroupConfig : Type 0 where
  pub name : Text
  pub description : Text
  pub max_members : ℕ
  pub invite_only : Bool
  pub history : Bool
  pub history_limit : ℕ
  pub allow_file_relay : Bool
  pub broadcast_only : Bool

pub record Config : Type 0 where
  pub server : ServerConfig
  pub registration : RegistrationConfig
  pub tokens : TokensConfig
  pub storage : StorageConfig
  pub presence : PresenceConfig
  pub compatibility : CompatibilityConfig
  pub relay : RelayConfig
  pub group : GroupConfig
