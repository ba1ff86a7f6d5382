-- ===== src/Config/Files.antt =====
-- Which configuration a `config.json` stands for (src/config.rs).
use naleystogramm_server.Base.{◌≡◌, refl, ap, ◌∙◌, Option, none, some}
use naleystogramm_server.Config.Defaults.{
  ConfigFields, RelayFields, GroupFields, config_of, relay_of, group_of, default_relay,
  default_group, or_default, relay_section, group_section, config_with,
}

abbrev empty_relay : RelayFields
empty_relay = record {
  enabled = none;
  max_sessions = none;
  session_timeout_seconds = none;
  max_session_bytes = none;
}

abbrev empty_group : GroupFields
empty_group = record {
  name = none;
  description = none;
  max_members = none;
  invite_only = none;
  history = none;
  history_limit = none;
  allow_file_relay = none;
  broadcast_only = none;
}

-- The file with an empty relay and an empty group section in place of missing ones.
unfoldable pub with_sections : ConfigFields → ConfigFields
with_sections f = record f {
  relay = some (or_default empty_relay f.relay);
  group = some (or_default empty_group f.group);
}

same_relay :
    (o : Option RelayFields) → relay_section (some (or_default empty_relay o)) ≡ relay_section o
unfolding relay_of default_relay
same_relay none = refl
same_relay (some f) = refl

same_group :
    (o : Option GroupFields) → group_section (some (or_default empty_group o)) ≡ group_section o
unfolding group_of default_group
same_group none = refl
same_group (some f) = refl

-- The two lists of defaults of src/config.rs agree: the `Default` implementations for a missing
-- relay or group section give what the attributes of the fields give for an empty one.
pub config_of-with_sections : (f : ConfigFields) → config_of (with_sections f) ≡ config_of f
unfolding config_of with_sections
config_of-with_sections f =
    ap (λ r. config_with f r (group_section (some (or_default empty_group f.group))))
      (same_relay f.relay)
    ∙ ap (λ g. config_with f (relay_section f.relay) g) (same_group f.group)
