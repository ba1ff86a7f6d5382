-- ===== src/Discovery/Router.antt =====
-- `router` of src/discovery.rs: which handler a request goes to, and runs of requests.
use naleystogramm_server.Base.{ℕ, List, [], ◌∷◌, Option, Text}
use naleystogramm_server.Extern.{Extern}
use naleystogramm_server.Error.{Response}
use naleystogramm_server.State.{AppState}
use naleystogramm_server.Action.{Action}
use naleystogramm_server.Discovery.Requests.{Request}
use naleystogramm_server.Discovery.Register.{RegisterReq}
use naleystogramm_server.Discovery.Register
use naleystogramm_server.Discovery.Directory
use naleystogramm_server.Discovery.Account.{UpdateReq}
use naleystogramm_server.Discovery.Account
use naleystogramm_server.Discovery.Tokens
use naleystogramm_server.Discovery.Invites

-- A method and path, with the parsed body or query, and what the handler takes from the random
-- generator.
pub data Endpoint : Type 0 where
  info heartbeat unregister : Endpoint
  register : List ℕ → RegisterReq → Endpoint
  lookup : Text → Endpoint
  search : Option Text → Endpoint
  update : UpdateReq → Endpoint
  token_refresh : List ℕ → Endpoint
  invite_create : ℕ → Endpoint

module _ (x : Extern) where
  unfoldable pub route : Endpoint → Request → Action Response
  route Endpoint.info rq = Directory.info x rq
  route (Endpoint.register random body) rq = Register.register x rq random body
  route (Endpoint.lookup username) rq = Directory.lookup x rq username
  route (Endpoint.search q) rq = Directory.search x q
  route (Endpoint.update body) rq = Account.update x rq body
  route Endpoint.heartbeat rq = Account.heartbeat x rq
  route Endpoint.unregister rq = Account.unregister x rq
  route (Endpoint.token_refresh random) rq = Tokens.token_refresh x rq random
  route (Endpoint.invite_create random) rq = Invites.invite_create x rq random

  -- The state after a run of requests, one after the other.
  unfoldable pub serve : List (Endpoint × Request) → AppState → AppState
  serve [] s = s
  serve ((e, rq) ∷ rest) s = serve rest (route e rq s).1
