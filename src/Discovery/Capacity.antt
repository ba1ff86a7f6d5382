-- ===== src/Discovery/Capacity.antt =====
-- How many users there can be (`max_users` of `register`, src/discovery.rs).
use naleystogramm_server.Base.{
  ℕ, ◌≤◌, ◌<◌, ◌≡◌, refl, inl, inr, Bool, false, List, [], ◌∷◌, Option, none, some, Text, codes,
  arith, length, ltb, Bool-cases,
}
use naleystogramm_server.Extern.{Extern}
use naleystogramm_server.Config.{Config}
use naleystogramm_server.Error.{Response, StatusCode, Body}
use naleystogramm_server.Tables.{migrate, select}
use naleystogramm_server.Tables.Valid.{migrate-users}
use naleystogramm_server.State.{AppState, new}
use naleystogramm_server.Action.{pure, gets, query}
use naleystogramm_server.Action.Rules.{Post, Post-bind, Post-query, post-always}
use naleystogramm_server.Action.Reads.{
  Keeps, Keeps-bind, Keeps-Reads, Holds, Reads-pure, reads_rules,
}
use naleystogramm_server.Discovery.Requests.{Request}
use naleystogramm_server.Discovery.Register.{RegisterReq, register, register_current, server_full}
use naleystogramm_server.Discovery.Account.{UpdateReq, update, heartbeat, unregister}
use naleystogramm_server.Discovery.Tokens.{token_refresh}
use naleystogramm_server.Discovery.Invites.{invite_create}
use naleystogramm_server.Discovery.Router
use naleystogramm_server.Discovery.Router.{route, serve}
use naleystogramm_server.Discovery.Checks.{
  limit_register-Reads, resolve_token-Reads, check_body-Reads,
}
use naleystogramm_server.Discovery.Validity.{lookup-Reads, search-Reads, info-Reads}
use naleystogramm_server.Discovery.NoMore.{
  upsert_presence-NoMore, touch_presence-NoMore, insert_token-NoMore, insert_invite-NoMore,
  delete_user-NoMore,
}
use naleystogramm_server.Discovery.Places.{
  HasCapacity, HasFree, query-HasCapacity, make_room-HasCapacity, create_account-HasCapacity,
}

module _ (x : Extern) (n : ℕ) (positive : 0 < n) where
  server_full-HasFree :
      (s : AppState)
      → Holds (HasCapacity x n) s
      → Post
          (λ full s'. (full ≡ false → Holds (HasFree x n) s') × Holds (HasCapacity x n) s')
          (λ _ s'. Holds (HasCapacity x n) s')
          (server_full x s)
  unfolding server_full gets pure
  server_full-HasFree s h =
      Post-bind (λ m s'. (m ≡ n) × Holds (HasCapacity x n) s') (λ _ s'. Holds (HasCapacity x n) s')
        (λ full s'. (full ≡ false → Holds (HasFree x n) s') × Holds (HasCapacity x n) s') (gets _) _
        s (h.0, h)
        λ m s₁ h₁. elim (Bool-cases (ltb 0 m)) [
          | inr unlimited ↦ absurd (ground arith)
          | inl limited ↦ rw limited (
              Post-bind (λ cnt s'. (cnt ≡ length s'.pool.users) × Holds (HasCapacity x n) s')
                (λ _ s'. Holds (HasCapacity x n) s')
                (λ full s'. (full ≡ false → Holds (HasFree x n) s') × Holds (HasCapacity x n) s')
                (query _) _ s₁
                (Post-query (λ cnt s'. (cnt ≡ length s'.pool.users) × Holds (HasCapacity x n) s')
                  (λ _ s'. Holds (HasCapacity x n) s') (select (λ t. length t.users)) s₁
                  (λ e fs. h₁.1)
                  (λ fs a t e.
                    let same : (t ≡ s₁.pool) × (a ≡ length s₁.pool.users) = ground arith in
                    rw (same.0, same.1) (refl, h₁.1)))
                λ cnt s₂ h₂. ((λ e. (h₂.1.0, ground arith)), h₂.1))
        ]

  register_current-HasCapacity :
      (rq : Request) (random : List ℕ) (body : RegisterReq)
      → Keeps (HasCapacity x n) (register_current x rq random body)
  unfolding register_current pure
  register_current-HasCapacity rq random body =
      Keeps-bind _ _ (Keeps-Reads _ (check_body-Reads x body)) λ _. record {
        at = λ s h.
            Post-bind
              (λ full s'. (full ≡ false → Holds (HasFree x n) s') × Holds (HasCapacity x n) s')
              (λ _ s'. Holds (HasCapacity x n) s') (λ _ s'. Holds (HasCapacity x n) s')
              (server_full x) _ s (server_full-HasFree s h)
              λ full s' h'. elim (Bool-cases full) [
                | inl over ↦ rw over h'.1
                | inr under ↦
                    rw under (create_account-HasCapacity x n rq random body s' (h'.0 under))
              ];
      }

  register-HasCapacity :
      (rq : Request) (random : List ℕ) (body : RegisterReq)
      → Keeps (HasCapacity x n) (register x rq random body)
  unfolding register
  register-HasCapacity rq random body =
      Keeps-bind _ _ (Keeps-Reads _ (limit_register-Reads rq)) λ allowed.
        Keeps-bind _ _ (Keeps-Reads _ (search reads_rules))
          λ _. Keeps-bind _ _ (Keeps-Reads _ (search reads_rules)) λ outdated. go outdated
    where
      go :
          (o : Option Text)
          → Keeps {A = Response} (HasCapacity x n) (elim o [
            | some min ↦ pure (record {
              status = StatusCode.upgrade_required;
              body = Body.too_old (codes "client_too_old") min;
            })
            | none ↦ register_current x rq random body
          ])
      go none = register_current-HasCapacity rq random body
      go (some min) = Keeps-Reads _ (Reads-pure _)

  update-HasCapacity :
      (rq : Request) (body : UpdateReq) → Keeps (HasCapacity x n) (update x rq body)
  unfolding update
  update-HasCapacity rq body =
      search
        (
          Keeps-bind, query-HasCapacity, upsert_presence-NoMore, resolve_token-Reads, Keeps-Reads,
          reads_rules,
        )
        depth 12

  route-HasCapacity : (e : Router.Endpoint) (rq : Request) → Keeps (HasCapacity x n) (route x e rq)
  unfolding route heartbeat unregister token_refresh invite_create
  route-HasCapacity Router.Endpoint.info rq = Keeps-Reads _ (info-Reads x rq)
  route-HasCapacity (Router.Endpoint.register random body) rq = register-HasCapacity rq random body
  route-HasCapacity (Router.Endpoint.lookup username) rq =
      Keeps-Reads _ (lookup-Reads x rq username)
  route-HasCapacity (Router.Endpoint.search q) rq = Keeps-Reads _ (search-Reads x q)
  route-HasCapacity (Router.Endpoint.update body) rq = update-HasCapacity rq body
  route-HasCapacity Router.Endpoint.heartbeat rq =
      search
        (
          Keeps-bind, query-HasCapacity, touch_presence-NoMore, resolve_token-Reads, Keeps-Reads,
          reads_rules,
        )
        depth 12
  route-HasCapacity Router.Endpoint.unregister rq =
      search
        (
          Keeps-bind, query-HasCapacity, delete_user-NoMore, resolve_token-Reads, Keeps-Reads,
          reads_rules,
        )
        depth 12
  route-HasCapacity (Router.Endpoint.token_refresh random) rq =
      search
        (
          Keeps-bind, query-HasCapacity, insert_token-NoMore, make_room-HasCapacity,
          resolve_token-Reads, Keeps-Reads, reads_rules,
        )
        depth 14
  route-HasCapacity (Router.Endpoint.invite_create random) rq =
      search
        (
          Keeps-bind, query-HasCapacity, insert_invite-NoMore, resolve_token-Reads, Keeps-Reads,
          reads_rules,
        )
        depth 12

  serve-HasCapacity :
      (calls : List (Router.Endpoint × Request)) (s : AppState)
      → Holds (HasCapacity x n) s
      → Holds (HasCapacity x n) (serve x calls s)
  unfolding serve
  serve-HasCapacity [] s h = h
  serve-HasCapacity ((e, rq) ∷ rest) s h =
      serve-HasCapacity rest (route x e rq s).1
        (post-always (Holds (HasCapacity x n)) (route x e rq s) ((route-HasCapacity e rq).at s h))

-- From a new database, whatever the requests, one after the other, and whichever statements the
-- database fails: where `max_users` is not 0, there are at most that many users.
pub serve-max_users :
    (x : Extern) (calls : List (Router.Endpoint × Request)) (faults : List Bool) (config : Config)
    (mode : Text)
    → 0 < config.registration.max_users
    → length (serve x calls (new migrate faults config mode)).pool.users
      ≤ config.registration.max_users
unfolding new
serve-max_users x calls faults config mode positive =
    (serve-HasCapacity x config.registration.max_users positive calls
      (new migrate faults config mode) (refl, rw migrate-users omega arith)).1
