-- ===== src/Discovery/Places.antt =====
-- The writes of `register` and `token_refresh` (src/discovery.rs) and the number of users.
use naleystogramm_server.Base.{
  ℕ, ◌+◌, ◌≤◌, ◌<◌, ◌≡◌, ◌⊎◌, inl, inr, List, Option, none, some, Text, arith, length, subst,
}
use naleystogramm_server.Extern.{Extern}
use naleystogramm_server.Config.{Config}
use naleystogramm_server.Error.{DbError, Response}
use naleystogramm_server.Tables.{Tables, Statement, insert_presence, insert_token}
use naleystogramm_server.Tables.Kept.{Leaves}
use naleystogramm_server.State.{AppState}
use naleystogramm_server.Action.{Action, ◌>>=◌, ◌>>◌, pure, lift, gets, query}
use naleystogramm_server.Action.Rules.{Post, Post-bind, Post-query}
use naleystogramm_server.Action.Reads.{
  Keeps, Keeps-bind, Keeps-query, Keeps-if, Keeps-Reads, Holds, Reads-pure, reads_rules,
}
use naleystogramm_server.Discovery.Requests.{Request, expiry}
use naleystogramm_server.Discovery.Register.{RegisterReq, create_account, mark_invite}
use naleystogramm_server.Discovery.Tokens.{make_room}
use naleystogramm_server.Discovery.NoMore.{
  NoMore, insert_presence-NoMore, insert_token-NoMore, delete_oldest_token-NoMore,
  use_invite-NoMore, insert_user-one_more,
}

module _ (x : Extern) (n : ℕ) where
  -- `max_users` is `n`, and there are at most that many, or fewer.
  abbrev pub HasCapacity : Config → Tables → Type 0
  HasCapacity c t = (c.registration.max_users ≡ n) × (length t.users ≤ n)

  abbrev pub HasFree : Config → Tables → Type 0
  HasFree c t = (c.registration.max_users ≡ n) × (length t.users < n)

  no_more-Leaves :
      {A : Type 0} (c : Config) (t : Tables) (r : DbError ⊎ (A × Tables))
      → HasCapacity c t
      → Leaves (λ t'. length t'.users ≤ length t.users) r
      → Leaves (HasCapacity c) r
  no_more-Leaves c t (inl e) h k = tt
  no_more-Leaves c t (inr (a, t')) h k = (h.0, omega (arith, h.1, k))

  pub query-HasCapacity : {A : Type 0} (q : Statement A) → NoMore q → Keeps HasCapacity (query q)
  query-HasCapacity q no_more = Keeps-query q (λ c t h. no_more-Leaves c t (q t) h (no_more t))

  mark_invite-HasCapacity :
      (rq : Request) (code : Option Text) (i : ℕ) → Keeps HasCapacity (mark_invite x rq code i)
  unfolding mark_invite
  mark_invite-HasCapacity rq none i = Keeps-Reads _ (Reads-pure tt)
  mark_invite-HasCapacity rq (some code) i = query-HasCapacity _ (use_invite-NoMore _ i code)

  pub make_room-HasCapacity : (m i : ℕ) → Keeps HasCapacity (make_room m i)
  unfolding make_room
  make_room-HasCapacity m i =
      search
        (
          Keeps-bind, Keeps-if, query-HasCapacity, delete_oldest_token-NoMore, Keeps-Reads,
          reads_rules,
        )
        depth 10

  kept :
      {A : Type 0} (m : Action A) (s : AppState)
      → Keeps HasCapacity m
      → Holds HasCapacity s
      → Post (λ _ s'. Holds HasCapacity s') (λ _ s'. Holds HasCapacity s') (m s)
  kept m s keeps h = keeps.at s h

  -- What follows the new user's row.
  account_rest-HasCapacity :
      (rq : Request) (body : RegisterReq) (now hash : Text) (ttl_days i : ℕ) (answer : Response)
      → Keeps HasCapacity (
          query (insert_presence now i body.ip body.port)
          >> (lift (expiry x rq.now ttl_days) >>= λ expires_at.
              query (insert_token now i hash expires_at)
              >> (mark_invite x rq body.invite_code i >> pure answer)))
  account_rest-HasCapacity rq body now hash ttl_days i answer =
      search
        (
          Keeps-bind, query-HasCapacity, insert_presence-NoMore, insert_token-NoMore,
          mark_invite-HasCapacity, Keeps-Reads, reads_rules,
        )
        depth 14

  pub create_account-HasCapacity :
      (rq : Request) (random : List ℕ) (body : RegisterReq) (s : AppState)
      → Holds HasFree s
      → Post
          (λ _ s'. Holds HasCapacity s')
          (λ _ s'. Holds HasCapacity s')
          (create_account x rq random body s)
  unfolding create_account gets
  create_account-HasCapacity rq random body s free =
      Post-bind (λ _ s'. Holds HasFree s') (λ _ s'. Holds HasCapacity s')
        (λ _ s'. Holds HasCapacity s') (gets _) _ s free
        λ cfg s₁ f.
          Post-bind (λ _ s'. Holds HasCapacity s') (λ _ s'. Holds HasCapacity s')
            (λ _ s'. Holds HasCapacity s') (query _) _ s₁
            (Post-query (λ _ s'. Holds HasCapacity s') (λ _ s'. Holds HasCapacity s') _ s₁
              (λ e fs. (f.0, omega (arith, f.1)))
              λ fs i t e.
                let more =
                  subst (Leaves (λ t'. length t'.users ≤ length s₁.pool.users + 1)) e
                    (insert_user-one_more _ _ _ _ _ s₁.pool) in
                (f.0, omega (arith, f.1, more)))
            λ i s₂ h. kept _ s₂ (account_rest-HasCapacity rq body _ _ _ i _) h
