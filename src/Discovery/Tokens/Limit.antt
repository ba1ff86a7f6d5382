-- ===== src/Discovery/Tokens/Limit.antt =====
-- All handlers of src/discovery.rs and the number of tokens of a user.
use naleystogramm_server.Base.{
  ℕ, ◌≤◌, Bool, List, [], ◌∷◌, Option, none, some, Text, codes, arith, max,
}
use naleystogramm_server.Extern.{Extern}
use naleystogramm_server.Config.{Config}
use naleystogramm_server.Error.{Response, StatusCode, Body}
use naleystogramm_server.Tables.{migrate}
use naleystogramm_server.Tables.Valid.{migrate-IsValid, migrate-tokens}
use naleystogramm_server.Tables.Kept
use naleystogramm_server.Tables.Kept.{Leaves}
use naleystogramm_server.State.{AppState, new}
use naleystogramm_server.Action.{pure}
use naleystogramm_server.Action.Rules.{post-always}
use naleystogramm_server.Action.Reads.{
  Reads-pure, Keeps, Keeps-bind, Keeps-if, Keeps-Reads, Holds, reads_rules,
}
use naleystogramm_server.Discovery.Requests.{Request}
use naleystogramm_server.Discovery.Register.{RegisterReq, register, register_current}
use naleystogramm_server.Discovery.Account.{UpdateReq, update, heartbeat, unregister}
use naleystogramm_server.Discovery.Invites.{invite_create}
use naleystogramm_server.Discovery.Router
use naleystogramm_server.Discovery.Router.{route, serve}
use naleystogramm_server.Discovery.Tokens.{tokens_of}
use naleystogramm_server.Discovery.Tokens.Bound.{
  IsBounded, IsBounded-query, touch_presence-fewer, upsert_presence-fewer, insert_invite-fewer,
  delete_user-fewer,
}
use naleystogramm_server.Discovery.Checks.{
  resolve_token-Reads, limit_register-Reads, check_body-Reads, server_full-Reads,
}
use naleystogramm_server.Discovery.Validity.{lookup-Reads, search-Reads, info-Reads}
use naleystogramm_server.Discovery.Tokens.Issue.{create_account-IsBounded, token_refresh-IsBounded}
use naleystogramm_server.Base.{subst}
use naleystogramm_server.State.{AppState}
use naleystogramm_server.Discovery.Settings.{serve-config}

module _ (x : Extern) where
  register_current-IsBounded :
      (rq : Request) (random : List ℕ) (body : RegisterReq)
      → Keeps (IsBounded x) (register_current x rq random body)
  unfolding register_current
  register_current-IsBounded rq random body =
      Keeps-bind _ _ (Keeps-Reads _ (check_body-Reads x body)) λ _.
        Keeps-bind _ _ (Keeps-Reads _ (server_full-Reads x)) λ full.
          Keeps-if full _ _ (Keeps-Reads _ (Reads-pure _))
            (create_account-IsBounded x rq random body)

  register-IsBounded :
      (rq : Request) (random : List ℕ) (body : RegisterReq)
      → Keeps (IsBounded x) (register x rq random body)
  unfolding register
  register-IsBounded rq random body =
      Keeps-bind _ _ (Keeps-Reads _ (limit_register-Reads rq)) λ allowed.
        Keeps-bind _ _ (Keeps-Reads _ (search reads_rules))
          λ _. Keeps-bind _ _ (Keeps-Reads _ (search reads_rules)) λ outdated. go outdated
    where
      go :
          (o : Option Text)
          → Keeps {A = Response} (IsBounded x) (elim o [
            | some min ↦ pure (record {
              status = StatusCode.upgrade_required;
              body = Body.too_old (codes "client_too_old") min;
            })
            | none ↦ register_current x rq random body
          ])
      go none = register_current-IsBounded rq random body
      go (some min) = Keeps-Reads _ (Reads-pure _)

  update-IsBounded : (rq : Request) (body : UpdateReq) → Keeps (IsBounded x) (update x rq body)
  unfolding update
  update-IsBounded rq body = Keeps-bind _ _ (Keeps-Reads _ (resolve_token-Reads x rq)) λ i.
      Keeps-bind _ _ (Keeps-Reads _ (search reads_rules)) λ _.
        Keeps-bind _ _
          (IsBounded-query x _ (Kept.upsert_presence-IsValid x.to_lowercase _ i body.ip body.port)
            (upsert_presence-fewer x _ i body.ip body.port))
          λ _. Keeps-Reads _ (Reads-pure _)

  heartbeat-IsBounded : (rq : Request) → Keeps (IsBounded x) (heartbeat x rq)
  unfolding heartbeat
  heartbeat-IsBounded rq = Keeps-bind _ _ (Keeps-Reads _ (resolve_token-Reads x rq)) λ i.
      Keeps-bind _ _
        (IsBounded-query x _ (Kept.touch_presence-IsValid x.to_lowercase _ i)
          (touch_presence-fewer x _ i))
        λ _. Keeps-Reads _ (Reads-pure _)

  unregister-IsBounded : (rq : Request) → Keeps (IsBounded x) (unregister x rq)
  unfolding unregister
  unregister-IsBounded rq = Keeps-bind _ _ (Keeps-Reads _ (resolve_token-Reads x rq)) λ i.
      Keeps-bind _ _
        (IsBounded-query x _ (Kept.delete_user-IsValid x.to_lowercase i) (delete_user-fewer x i))
        λ _. Keeps-Reads _ (Reads-pure _)

  invite_create-IsBounded :
      (rq : Request) (random : ℕ) → Keeps (IsBounded x) (invite_create x rq random)
  unfolding invite_create
  invite_create-IsBounded rq random = Keeps-bind _ _ (Keeps-Reads _ (resolve_token-Reads x rq)) λ i.
      Keeps-bind _ _
        (IsBounded-query x _ (Kept.insert_invite-IsValid x.to_lowercase _ _ i)
          (insert_invite-fewer x _ _ i))
        λ _. Keeps-Reads _ (Reads-pure _)

  route-IsBounded : (e : Router.Endpoint) (rq : Request) → Keeps (IsBounded x) (route x e rq)
  unfolding route
  route-IsBounded Router.Endpoint.info rq = Keeps-Reads _ (info-Reads x rq)
  route-IsBounded (Router.Endpoint.register random body) rq = register-IsBounded rq random body
  route-IsBounded (Router.Endpoint.lookup username) rq = Keeps-Reads _ (lookup-Reads x rq username)
  route-IsBounded (Router.Endpoint.search q) rq = Keeps-Reads _ (search-Reads x q)
  route-IsBounded (Router.Endpoint.update body) rq = update-IsBounded rq body
  route-IsBounded Router.Endpoint.heartbeat rq = heartbeat-IsBounded rq
  route-IsBounded Router.Endpoint.unregister rq = unregister-IsBounded rq
  route-IsBounded (Router.Endpoint.token_refresh random) rq = token_refresh-IsBounded x rq random
  route-IsBounded (Router.Endpoint.invite_create random) rq = invite_create-IsBounded rq random

  pub serve_from-IsBounded :
      (calls : List (Router.Endpoint × Request)) (s : AppState)
      → Holds (IsBounded x) s
      → Holds (IsBounded x) (serve x calls s)
  unfolding serve
  serve_from-IsBounded [] s h = h
  serve_from-IsBounded ((e, rq) ∷ rest) s h =
      serve_from-IsBounded rest (route x e rq s).1
        (post-always (Holds (IsBounded x)) (route x e rq s) ((route-IsBounded e rq).at s h))

  -- From a new database, whatever the requests, one after the other, and whichever statements the
  -- database fails, no user
  -- has more tokens than the `max_per_user` that the server was started with, or than one where
  -- that is 0.
  pub serve-tokens_of :
      (calls : List (Router.Endpoint × Request)) (faults : List Bool) (config : Config)
      (mode : Text) (i : ℕ)
      → tokens_of i (serve x calls (new migrate faults config mode)).pool
        ≤ max 1 config.tokens.max_per_user
  unfolding new
  serve-tokens_of calls faults config mode i =
      let start : AppState = new migrate faults config mode in
      subst (λ c. tokens_of i (serve x calls start).pool ≤ max 1 c.tokens.max_per_user)
        (serve-config x calls start)
        ((serve_from-IsBounded calls start (migrate-IsValid x.to_lowercase, none_yet)).1 i)
    where
      none_yet : (u : ℕ) → tokens_of u migrate ≤ max 1 config.tokens.max_per_user
      none_yet u = rw migrate-tokens omega arith
