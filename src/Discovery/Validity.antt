-- ===== src/Discovery/Validity.antt =====
-- Each handler of src/discovery.rs keeps the database well-formed.
use naleystogramm_server.Base.{refl, Option, Text}
use naleystogramm_server.Extern.{Extern}
use naleystogramm_server.State.{AppState}
use naleystogramm_server.Action.Rules.{post-always}
use naleystogramm_server.Action.Reads.{Reads, Keeps, Keeps-Reads, reads_rules}
use naleystogramm_server.Discovery.Requests.{Request}
use naleystogramm_server.Discovery.Directory.{limit_lookup, lookup, info}
use naleystogramm_server.Discovery.Directory
use naleystogramm_server.Discovery.Router
use naleystogramm_server.Discovery.Router.{route, serve}
use naleystogramm_server.Discovery.Writes.{
  Valid, register-Keeps, update-Keeps, heartbeat-Keeps, unregister-Keeps, token_refresh-Keeps,
  invite_create-Keeps,
}

module _ (x : Extern) where
  limit_lookup-Reads : (rq : Request) → Reads (limit_lookup rq)
  unfolding limit_lookup
  limit_lookup-Reads rq = record { at = λ s. (refl, refl) }

  pub lookup-Reads : (rq : Request) (username : Text) → Reads (lookup x rq username)
  unfolding lookup
  lookup-Reads rq username = search (reads_rules, limit_lookup-Reads) depth 14

  pub search-Reads : (q : Option Text) → Reads (Directory.search x q)
  unfolding Directory.search
  search-Reads q = search reads_rules depth 10

  pub info-Reads : (rq : Request) → Reads (info x rq)
  unfolding info
  info-Reads rq = search reads_rules depth 10

  route-Keeps : (e : Router.Endpoint) (rq : Request) → Keeps (Valid x) (route x e rq)
  unfolding route
  route-Keeps Router.Endpoint.info rq = Keeps-Reads _ (info-Reads rq)
  route-Keeps (Router.Endpoint.register random body) rq = register-Keeps x rq random body
  route-Keeps (Router.Endpoint.lookup username) rq = Keeps-Reads _ (lookup-Reads rq username)
  route-Keeps (Router.Endpoint.search q) rq = Keeps-Reads _ (search-Reads q)
  route-Keeps (Router.Endpoint.update body) rq = update-Keeps x rq body
  route-Keeps Router.Endpoint.heartbeat rq = heartbeat-Keeps x rq
  route-Keeps Router.Endpoint.unregister rq = unregister-Keeps x rq
  route-Keeps (Router.Endpoint.token_refresh random) rq = token_refresh-Keeps x rq random
  route-Keeps (Router.Endpoint.invite_create random) rq = invite_create-Keeps x rq random

  -- However a handler ends, it leaves a well-formed database well-formed.
  pub route-Valid :
      (e : Router.Endpoint) (rq : Request) (s : AppState)
      → Valid x s.config s.pool
      → Valid x (route x e rq s).1.config (route x e rq s).1.pool
  route-Valid e rq s h = post-always _ (route x e rq s) ((route-Keeps e rq).at s h)
