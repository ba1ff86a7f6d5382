-- ===== src/Config/Defaults.antt =====
-- How serde fills in what `config.json` leaves out: the `#[serde(default)]` attributes, the
-- `default_*` functions and the two `Default` implementations of src/config.rs. A file is taken
-- after the JSON is parsed and its values are of their types, a section by its fields.
use naleystogramm_server.Base.{ℕ, Bool, true, false, [], Option, none, some, Text, codes}
use naleystogramm_server.Config.{
  Config, ServerConfig, RegistrationConfig, TokensConfig, StorageConfig, PresenceConfig,
  CompatibilityConfig, RelayConfig, GroupConfig,
}

-- The fields that a section of the file has.
pub record ServerFields : Type 0 where
  pub port : Option ℕ
  pub name : Option Text
  pub description : Option Text
  pub public : Option Bool

pub record RegistrationFields : Type 0 where
  pub is_open : Option Bool
  pub require_email : Option Bool
  pub require_invite : Option Bool
  pub max_users : Option ℕ
  pub username_min_length : Option ℕ
  pub username_max_length : Option ℕ
  pub username_regex : Option Text

pub record TokensFields : Type 0 where
  pub ttl_days : Option ℕ
  pub max_per_user : Option ℕ

pub record StorageFields : Type 0 where
  pub driver : Option Text
  pub path : Option Text
  pub url : Option Text

pub record PresenceFields : Type 0 where
  pub offline_after_minutes : Option ℕ
  pub ip_update_interval_seconds : Option ℕ

pub record CompatibilityFields : Type 0 where
  pub min_client_version : Option Text

pub record RelayFields : Type 0 where
  pub enabled : Option Bool
  pub max_sessions : Option ℕ
  pub session_timeout_seconds : Option ℕ
  pub max_session_bytes : Option ℕ

pub record GroupFields : Type 0 where
  pub name : Option Text
  pub description : Option Text
  pub max_members : Option ℕ
  pub invite_only : Option Bool
  pub history : Option Bool
  pub history_limit : Option ℕ
  pub allow_file_relay : Option Bool
  pub broadcast_only : Option Bool

pub record ConfigFields : Type 0 where
  pub server : Option ServerFields
  pub registration : Option RegistrationFields
  pub tokens : Option TokensFields
  pub storage : Option StorageFields
  pub presence : Option PresenceFields
  pub compatibility : Option CompatibilityFields
  pub relay : Option RelayFields
  pub group : Option GroupFields

abbrev pub or_default {ℓ} : {A : Type ℓ} → A → Option A → A
or_default d none = d
or_default d (some a) = a

-- A section without a default is required.
abbrev pub required {ℓ κ} : {A : Type ℓ} {B : Type κ} → Option A → (A → Option B) → Option B
required none f = none
required (some a) f = f a

abbrev pub default_port : ℕ
default_port = 47822

abbrev pub default_server_name : Text
default_server_name = codes "Naleystogramm Server"

abbrev pub default_username_regex : Text
default_username_regex = codes "^[a-zA-Z0-9_.\\-]+$"

abbrev pub default_session_timeout : ℕ
default_session_timeout = 30

abbrev pub default_history_limit : ℕ
default_history_limit = 1000

unfoldable pub server_of : ServerFields → ServerConfig
server_of f = record {
  port = or_default default_port f.port;
  name = or_default default_server_name f.name;
  description = or_default [] f.description;
  public = or_default true f.public;
}

unfoldable pub registration_of : RegistrationFields → RegistrationConfig
registration_of f = record {
  is_open = or_default true f.is_open;
  require_email = or_default false f.require_email;
  require_invite = or_default false f.require_invite;
  max_users = or_default 0 f.max_users;
  username_min_length = or_default 3 f.username_min_length;
  username_max_length = or_default 32 f.username_max_length;
  username_regex = or_default default_username_regex f.username_regex;
}

unfoldable pub tokens_of : TokensFields → TokensConfig
tokens_of f = record {
  ttl_days = or_default 0 f.ttl_days;
  max_per_user = or_default 3 f.max_per_user;
}

unfoldable pub storage_of : StorageFields → StorageConfig
storage_of f = record {
  driver = or_default (codes "sqlite") f.driver;
  path = or_default (codes "./naleys_server.db") f.path;
  url = or_default [] f.url;
}

unfoldable pub presence_of : PresenceFields → PresenceConfig
presence_of f = record {
  offline_after_minutes = or_default 30 f.offline_after_minutes;
  ip_update_interval_seconds = or_default 60 f.ip_update_interval_seconds;
}

unfoldable pub compatibility_of : CompatibilityFields → CompatibilityConfig
compatibility_of f = record {
  min_client_version = or_default (codes "latest") f.min_client_version;
}

unfoldable pub relay_of : RelayFields → RelayConfig
relay_of f = record {
  enabled = or_default true f.enabled;
  max_sessions = or_default 0 f.max_sessions;
  session_timeout_seconds = or_default default_session_timeout f.session_timeout_seconds;
  max_session_bytes = or_default 0 f.max_session_bytes;
}

unfoldable pub group_of : GroupFields → GroupConfig
group_of f = record {
  name = or_default [] f.name;
  description = or_default [] f.description;
  max_members = or_default 0 f.max_members;
  invite_only = or_default false f.invite_only;
  history = or_default true f.history;
  history_limit = or_default default_history_limit f.history_limit;
  allow_file_relay = or_default true f.allow_file_relay;
  broadcast_only = or_default false f.broadcast_only;
}

-- `RelayConfig::default` and `GroupConfig::default`, which stand for a missing section.
unfoldable pub default_relay : RelayConfig
default_relay = record {
  enabled = true;
  max_sessions = 0;
  session_timeout_seconds = 30;
  max_session_bytes = 0;
}

unfoldable pub default_group : GroupConfig
default_group = record {
  name = [];
  description = [];
  max_members = 0;
  invite_only = false;
  history = true;
  history_limit = 1000;
  allow_file_relay = true;
  broadcast_only = false;
}

abbrev pub relay_section : Option RelayFields → RelayConfig
relay_section none = default_relay
relay_section (some f) = relay_of f

abbrev pub group_section : Option GroupFields → GroupConfig
group_section none = default_group
group_section (some f) = group_of f

-- The file with that relay and that group.
abbrev pub config_with : ConfigFields → RelayConfig → GroupConfig → Option Config
config_with f relay group = required f.server λ server. required f.registration λ registration.
    required f.tokens λ tokens. required f.storage λ storage. required f.presence λ presence.
      required f.compatibility λ compatibility. some (record {
        server = server_of server;
        registration = registration_of registration;
        tokens = tokens_of tokens;
        storage = storage_of storage;
        presence = presence_of presence;
        compatibility = compatibility_of compatibility;
        relay = relay;
        group = group;
      })

unfoldable pub config_of : ConfigFields → Option Config
unfolding server_of registration_of tokens_of storage_of presence_of compatibility_of relay_of
    group_of
config_of f = config_with f (relay_section f.relay) (group_section f.group)
