-- ===== src/Discovery/Settings.antt =====
-- No handler of src/discovery.rs changes the configuration.
use naleystogramm_server.Base.{
  ℕ, ◌≡◌, refl, ◌∙◌, ◌⊎◌, inl, inr, List, [], ◌∷◌, Option, none, some, Text, codes,
}
use naleystogramm_server.Extern.{Extern}
use naleystogramm_server.Config.{Config}
use naleystogramm_server.Error.{DbError, Response, StatusCode, Body}
use naleystogramm_server.Tables.{Tables, Statement}
use naleystogramm_server.Tables.Kept.{Leaves}
use naleystogramm_server.State.{AppState}
use naleystogramm_server.Action.{pure, query}
use naleystogramm_server.Action.Rules.{post-always}
use naleystogramm_server.Action.Reads.{
  Keeps, Keeps-bind, Keeps-query, Keeps-if, Keeps-Reads, Reads-pure, reads_rules,
}
use naleystogramm_server.Discovery.Requests.{Request}
use naleystogramm_server.Discovery.Register.{
  RegisterReq, register, register_current, create_account, mark_invite,
}
use naleystogramm_server.Discovery.Account.{update, heartbeat, unregister}
use naleystogramm_server.Discovery.Tokens.{token_refresh, make_room}
use naleystogramm_server.Discovery.Invites.{invite_create}
use naleystogramm_server.Discovery.Router
use naleystogramm_server.Discovery.Router.{route, serve}
use naleystogramm_server.Discovery.Checks.{
  limit_register-Reads, resolve_token-Reads, server_full-Reads, check_body-Reads,
}
use naleystogramm_server.Discovery.Validity.{lookup-Reads, search-Reads, info-Reads}

module _ (x : Extern) (c₀ : Config) where
  abbrev IsFixed : Config → Tables → Type 0
  IsFixed c t = c ≡ c₀

  Leaves-IsFixed :
      {A : Type 0} (c : Config) (r : DbError ⊎ (A × Tables)) → c ≡ c₀ → Leaves (IsFixed c) r
  Leaves-IsFixed c (inl e) h = tt
  Leaves-IsFixed c (inr (a, t)) h = h

  query-IsFixed : {A : Type 0} (q : Statement A) → Keeps IsFixed (query q)
  query-IsFixed q = Keeps-query q (λ c t. Leaves-IsFixed c (q t))

  ruleset fixed_rules = (Keeps-bind, query-IsFixed, Keeps-if, Keeps-Reads, reads_rules)

  mark_invite-IsFixed :
      (rq : Request) (code : Option Text) (i : ℕ) → Keeps IsFixed (mark_invite x rq code i)
  unfolding mark_invite
  mark_invite-IsFixed rq none i = Keeps-Reads _ (Reads-pure tt)
  mark_invite-IsFixed rq (some code) i = query-IsFixed _

  create_account-IsFixed :
      (rq : Request) (random : List ℕ) (body : RegisterReq)
      → Keeps IsFixed (create_account x rq random body)
  unfolding create_account
  create_account-IsFixed rq random body = search (fixed_rules, mark_invite-IsFixed) depth 14

  register_current-IsFixed :
      (rq : Request) (random : List ℕ) (body : RegisterReq)
      → Keeps IsFixed (register_current x rq random body)
  unfolding register_current
  register_current-IsFixed rq random body =
      search (fixed_rules, check_body-Reads, server_full-Reads, create_account-IsFixed) depth 10

  register-IsFixed :
      (rq : Request) (random : List ℕ) (body : RegisterReq)
      → Keeps IsFixed (register x rq random body)
  unfolding register
  register-IsFixed rq random body =
      Keeps-bind _ _ (Keeps-Reads _ (limit_register-Reads rq)) λ allowed.
        Keeps-bind _ _ (Keeps-Reads _ (search reads_rules))
          λ _. Keeps-bind _ _ (Keeps-Reads _ (search reads_rules)) λ outdated. go outdated
    where
      go :
          (o : Option Text)
          → Keeps {A = Response} IsFixed (elim o [
            | some min ↦ pure (record {
              status = StatusCode.upgrade_required;
              body = Body.too_old (codes "client_too_old") min;
            })
            | none ↦ register_current x rq random body
          ])
      go none = register_current-IsFixed rq random body
      go (some min) = Keeps-Reads _ (Reads-pure _)

  make_room-IsFixed : (n i : ℕ) → Keeps IsFixed (make_room n i)
  unfolding make_room
  make_room-IsFixed n i = search fixed_rules depth 10

  route-IsFixed : (e : Router.Endpoint) (rq : Request) → Keeps IsFixed (route x e rq)
  unfolding route update heartbeat unregister token_refresh invite_create
  route-IsFixed Router.Endpoint.info rq = Keeps-Reads _ (info-Reads x rq)
  route-IsFixed (Router.Endpoint.register random body) rq = register-IsFixed rq random body
  route-IsFixed (Router.Endpoint.lookup username) rq = Keeps-Reads _ (lookup-Reads x rq username)
  route-IsFixed (Router.Endpoint.search q) rq = Keeps-Reads _ (search-Reads x q)
  route-IsFixed (Router.Endpoint.update body) rq =
      search (fixed_rules, resolve_token-Reads) depth 12
  route-IsFixed Router.Endpoint.heartbeat rq = search (fixed_rules, resolve_token-Reads) depth 12
  route-IsFixed Router.Endpoint.unregister rq = search (fixed_rules, resolve_token-Reads) depth 12
  route-IsFixed (Router.Endpoint.token_refresh random) rq =
      search (fixed_rules, resolve_token-Reads, make_room-IsFixed) depth 14
  route-IsFixed (Router.Endpoint.invite_create random) rq =
      search (fixed_rules, resolve_token-Reads) depth 12

pub serve-config :
    (x : Extern) (calls : List (Router.Endpoint × Request)) (s : AppState)
    → (serve x calls s).config ≡ s.config
unfolding serve
serve-config x [] s = refl
serve-config x ((e, rq) ∷ rest) s =
    serve-config x rest (route x e rq s).1
    ∙ post-always (λ s'. s'.config ≡ s.config) (route x e rq s)
        ((route-IsFixed x s.config e rq).at s refl)
