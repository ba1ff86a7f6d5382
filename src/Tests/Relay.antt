-- ===== src/Tests/Relay.antt =====
-- A relay session in the sample world (src/relay.rs).
use naleystogramm_server.Base.{
  ◌≤◌, ◌≡◌, refl, List, [], ◌∷◌, some, Text, codes, arith, get, text_eq,
}
use naleystogramm_server.State.{AppState, InitializedRelay, new}
use naleystogramm_server.Auth.{hash_token}
use naleystogramm_server.Relay
use naleystogramm_server.Relay.{Opened, Event, relay_ws, run, sessions, session_not_found}
use naleystogramm_server.Relay.Sessions.{sessions-run}
use naleystogramm_server.Relay.Handover.{IsEntitled, relay_ws-IsEntitled, relay_ws-handover}
use naleystogramm_server.Base.{false}
use naleystogramm_server.Tables.Valid.{IsValid}
use naleystogramm_server.Discovery.Router
use naleystogramm_server.Start
use naleystogramm_server.Start.{Call, start}
use naleystogramm_server.Start.Serving.{run-IsValid}
use naleystogramm_server.Tests.Samples.{world, config, state, tables, request, random, carol}

abbrev call : Text
call = codes "5f3c"

-- Ann makes a session, its creator comes and goes, and bob makes another.
abbrev events : List Event
events =
    Relay.Event.create (request (codes "naleys_a")) call (codes "11") (codes "22")
    ∷ Relay.Event.join (request (codes "naleys_b")) call
    ∷ Relay.Event.open_socket 2_000 call (some (codes "naleys_11"))
    ∷ Relay.Event.creator_gone call
    ∷ Relay.Event.create (request (codes "naleys_b")) (codes "77aa") (codes "33") (codes "44")
    ∷ Relay.Event.tick 3_000
    ∷ []

sessions-run_example : sessions (run world events (new tables [] config (codes "discovery"))) ≤ 100
sessions-run_example = sessions-run world events tables [] config (codes "discovery") (omega arith)

abbrev session : InitializedRelay
session = record {
  token_a_hash = codes "naleys_11";
  token_b = codes "naleys_22";
  token_b_hash = codes "naleys_22";
  creator_id = 1;
  created_at = 1_000;
}

abbrev with_session : AppState
with_session = record state { relay_init = (call, session) ∷ [] }

relay_ws-IsEntitled_example :
    IsEntitled with_session call
      (hash_token world (codes "naleys_11"))
      (relay_ws world 2_000 call (some (codes "naleys_11")) with_session)
relay_ws-IsEntitled_example = relay_ws-IsEntitled world 2_000 call (codes "naleys_11") with_session

relay_ws-handover_example :
    let first = relay_ws world 2_000 call (some (codes "naleys_11")) with_session in
    let second = relay_ws world 2_500 call (some (codes "naleys_22")) first.1 in
    (first.0 ≡ Opened.creator 0)
    × (second.0 ≡ Opened.joiner 0)
    × ((relay_ws world 2_600 call (some (codes "naleys_22")) second.1).0 ≡ session_not_found)
unfolding get text_eq hash_token
relay_ws-handover_example =
    relay_ws-handover world 2_000 2_500 2_600 call (codes "naleys_11") (codes "naleys_22")
      (codes "naleys_22") session with_session refl refl refl

-- Carol registers and makes a relay session for herself, and leaves.
abbrev calls : List Call
calls =
    Call.discovery (Router.Endpoint.register random carol) (request [])
    ∷ Call.relay (Relay.Event.create (request (codes "naleys_0123")) call (codes "11") (codes "22"))
    ∷ Call.relay (Relay.Event.join (request (codes "naleys_0123")) call)
    ∷ Call.discovery Router.Endpoint.unregister (request (codes "naleys_0123"))
    ∷ []

run-IsValid_example :
    IsValid world.to_lowercase
      (Start.run world calls (start (false ∷ []) config (codes "discovery")).state).pool
run-IsValid_example = run-IsValid world calls (false ∷ []) config (codes "discovery")
