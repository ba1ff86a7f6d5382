-- ===== src/Tests/Settings.antt =====
-- A file of src/config.rs, and a relay session's two sockets (src/relay.rs).
use naleystogramm_server.Base.{◌≡◌, refl, true, List, [], ◌∷◌, ◌++◌, some, none, codes}
use naleystogramm_server.Config.Defaults.{ConfigFields, config_of}
use naleystogramm_server.Config.Files.{with_sections, config_of-with_sections}
use naleystogramm_server.Relay.Sockets.{
  WsMsg, Next, relaying, opened, Event, from_a, notified, joined, from_b, recv_a, recv_b, run,
}
use naleystogramm_server.Relay.Fifo.{data_of, heard_a, heard_b, IsPrefix}
use naleystogramm_server.Relay.Outcome.{drain, run-IsPrefix, run-drain}
use naleystogramm_server.Relay.Unaware.Creator.{run-relaying}
use naleystogramm_server.Relay.Unaware.Joiner.{run-running}
use naleystogramm_server.Relay.Sockets.{running}

-- A file without the relay and group sections.
abbrev short : ConfigFields
short = record {
  server = some (record { port = some 8443; name = none; description = none; public = none });
  registration = some (record {
    is_open = none;
    require_email = none;
    require_invite = none;
    max_users = some 10;
    username_min_length = none;
    username_max_length = none;
    username_regex = none;
  });
  tokens = some (record { ttl_days = none; max_per_user = none });
  storage = some (record { driver = none; path = none; url = none });
  presence = some (record { offline_after_minutes = none; ip_update_interval_seconds = none });
  compatibility = some (record { min_client_version = none });
  relay = none;
  group = none;
}

config_of-with_sections_example : config_of (with_sections short) ≡ config_of short
config_of-with_sections_example = config_of-with_sections short

abbrev hello : WsMsg
hello = WsMsg.text (codes "hello")

abbrev chunk : WsMsg
chunk = WsMsg.binary (1 ∷ 2 ∷ [])

-- The creator speaks before the joiner comes, and after.
abbrev exchange : List Event
exchange =
    from_a (Next.frame hello)
    ∷ joined
    ∷ from_a (Next.frame (WsMsg.ping []))
    ∷ notified
    ∷ from_a (Next.frame chunk)
    ∷ from_b (Next.frame hello)
    ∷ recv_a true
    ∷ []

run-IsPrefix_example :
    let l = run exchange opened in
    IsPrefix (data_of l.to_b) (heard_a exchange opened)
    × IsPrefix (data_of l.to_a) (heard_b exchange opened)
run-IsPrefix_example = run-IsPrefix exchange

run-drain_example :
    data_of (run (exchange ++ drain (run exchange opened).a_to_b) opened).to_b
    ≡ heard_a exchange opened
unfolding run
run-drain_example = run-drain exchange refl refl

-- The joiner leaves, and the creator speaks no more.
abbrev leaving : List Event
leaving = from_b (Next.frame WsMsg.close) ∷ recv_a true ∷ recv_b true ∷ []

run-relaying_example : (run leaving (run exchange opened)).creator ≡ relaying
unfolding run
run-relaying_example = run-relaying exchange leaving refl refl

-- The creator leaves, and the joiner speaks no more.
abbrev creator_leaving : List Event
creator_leaving = from_a Next.nothing ∷ recv_b true ∷ recv_b true ∷ recv_b true ∷ []

run-running_example : (run creator_leaving (run exchange opened)).joiner ≡ running
unfolding run
run-running_example = run-running exchange creator_leaving refl refl
