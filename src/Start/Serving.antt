-- ===== src/Start/Serving.antt =====
-- Runs of a server in discovery mode: the handlers of src/discovery.rs and src/relay.rs, which
-- `build_router` of src/main.rs puts behind one port, on one database.
use naleystogramm_server.Base.{Bool, List, [], ◌∷◌, Text}
use naleystogramm_server.Extern.{Extern}
use naleystogramm_server.Config.{Config}
use naleystogramm_server.Tables.Valid.{IsValid, migrate-IsValid}
use naleystogramm_server.State.{AppState, new}
use naleystogramm_server.Discovery.Router.{route}
use naleystogramm_server.Discovery.Writes.{Valid}
use naleystogramm_server.Discovery.Validity.{route-Valid}
use naleystogramm_server.Relay
use naleystogramm_server.Relay.References.{step-Valid}
use naleystogramm_server.Start.{Call, start, run}

module _ (x : Extern) where
  run_from :
      (ts : List Call) (s : AppState)
      → Valid x s.config s.pool
      → Valid x (run x ts s).config (run x ts s).pool
  unfolding run
  run_from [] s h = h
  run_from (Call.discovery e rq ∷ ts) s h = run_from ts (route x e rq s).1 (route-Valid x e rq s h)
  run_from (Call.relay e ∷ ts) s h = run_from ts (Relay.step x e s) (step-Valid x e s h)

  -- From a new database, whatever requests come to the discovery and to the relay handlers, one
  -- after the other, with turns of the relay's sockets and of its cleanup between them, and
  -- whichever statements the database fails: the ids of users and of tokens, the lower-case names,
  -- the token hashes, the invite codes and the ids of relay sessions stay distinct, no id of a user
  -- or a token is above its table's counter, a user has at most one presence row, each lower-case
  -- name is that of its username, every presence row and every token belongs to a user that is
  -- there, and so does every creator and every user of an invite and every creator and every joiner
  -- of a relay session, where the column is not null.
  pub run-IsValid :
      (ts : List Call) (faults : List Bool) (config : Config) (mode : Text)
      → IsValid x.to_lowercase (run x ts (start faults config mode).state).pool
  unfolding new start
  run-IsValid ts faults config mode =
      run_from ts (start faults config mode).state (migrate-IsValid x.to_lowercase)
