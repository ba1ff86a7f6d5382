-- ===== src/Start.antt =====
-- src/main.rs: the server that `main` puts together, of a configuration and a mode, and runs of it in
-- discovery mode.
pub mod GroupMode
pub mod Serving
use naleystogramm_server.Base.{Bool, List, [], ◌∷◌, Text, codes, text_eq, ◌||◌, if◌then◌else◌}
use naleystogramm_server.Extern.{Extern}
use naleystogramm_server.Config.{Config}
use naleystogramm_server.Tables.{migrate}
use naleystogramm_server.State.{AppState, new}
use naleystogramm_server.Discovery.Requests.{Request}
use naleystogramm_server.Discovery.Router
use naleystogramm_server.Relay

-- The routers of the modules discovery, relay and group.
pub data RouterName : Type 0 where
  discovery relay group : RouterName

-- Which routers `build_router` merges, in this order.
unfoldable pub build_router : Text → List RouterName
build_router mode =
    if text_eq mode (codes "group") || text_eq mode (codes "channel")
    then RouterName.group ∷ RouterName.relay ∷ []
    else RouterName.discovery ∷ RouterName.relay ∷ []

-- The state that the handlers share, the routers, and whether `refresh_loop` runs.
pub record Server : Type 0 where
  pub state : AppState
  pub routers : List RouterName
  pub refreshes : Bool

-- `main` on a new database file; `faults` are those of the statements after the migration.
unfoldable pub start : List Bool → Config → Text → Server
unfolding build_router
start faults config mode = record {
  state = new migrate faults config mode;
  routers = build_router mode;
  refreshes = text_eq config.compatibility.min_client_version (codes "latest");
}

-- What the server does in discovery mode: a request to one of the handlers of the discovery router,
-- or a request, a socket or a turn of the cleanup of the relay.
pub data Call : Type 0 where
  discovery : Router.Endpoint → Request → Call
  relay : Relay.Event → Call

module _ (x : Extern) where
  unfoldable pub run : List Call → AppState → AppState
  run [] s = s
  run (Call.discovery e rq ∷ ts) s = run ts (Router.route x e rq s).1
  run (Call.relay e ∷ ts) s = run ts (Relay.step x e s)
