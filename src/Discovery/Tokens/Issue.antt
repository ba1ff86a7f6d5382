-- ===== src/Discovery/Tokens/Issue.antt =====
-- The two handlers of src/discovery.rs that issue a token, and the number of tokens of a user.
use naleystogramm_server.Base.{
  ℕ, ◌+◌, ◌≤◌, ◌≡◌, refl, inl, inr, List, Option, none, some, Text, arith, max, leb, Bool-cases,
  subst,
}
use naleystogramm_server.Extern.{Extern, datetime}
use naleystogramm_server.Tables.{
  select, insert_user, insert_presence, insert_token, delete_oldest_token,
}
use naleystogramm_server.Tables.Valid.{IsValid}
use naleystogramm_server.Tables.Kept
use naleystogramm_server.Tables.Kept.{Leaves}
use naleystogramm_server.State.{AppState}
use naleystogramm_server.Action.{Action, Result, ◌>>=◌, pure, lift, query, gets}
use naleystogramm_server.Action.Rules.{Post, Post-bind, Post-query, Post-weaken}
use naleystogramm_server.Action.Reads.{
  Reads-pure, Reads-gets, Reads-lift, Keeps, Keeps-bind, Keeps-Reads, Holds,
}
use naleystogramm_server.Auth.{generate_token, hash_token}
use naleystogramm_server.Discovery.Requests.{Request, expiry}
use naleystogramm_server.Discovery.Register.{RegisterReq, create_account, mark_invite}
use naleystogramm_server.Discovery.Tokens.{tokens_of, make_room, token_refresh}
use naleystogramm_server.Discovery.Tokens.Oldest.{delete_oldest_token-counts}
use naleystogramm_server.Discovery.Tokens.Bound.{
  IsBounded, HasRoom, IsBounded-query, use_invite-fewer, insert_user-HasRoom,
  insert_presence-HasRoom, insert_token-IsBounded,
}
use naleystogramm_server.Discovery.Checks.{resolve_token-Reads}

module _ (x : Extern) where
  -- Whether it ends well or not, an action leaves the bound in force.
  abbrev Bounded : {A : Type 0} → Result A × AppState → Type 0
  Bounded r = Post (λ _ s'. Holds (IsBounded x) s') (λ _ s'. Holds (IsBounded x) s') r

  mark_invite-IsBounded :
      (rq : Request) (code : Option Text) (i : ℕ) → Keeps (IsBounded x) (mark_invite x rq code i)
  unfolding mark_invite
  mark_invite-IsBounded rq none i = Keeps-Reads _ (Reads-pure tt)
  mark_invite-IsBounded rq (some code) i =
      IsBounded-query x _ (Kept.use_invite-IsValid x.to_lowercase _ i code)
        (use_invite-fewer x _ i code)

  -- From where the account has its presence on.
  issue_token-IsBounded :
      {B : Type 0} (now : Text) (i : ℕ) (hash : Text) (r : Result (Option Text))
      (k : Unit {0} → Action B) (s : AppState)
      → ((u : Unit {0}) → Keeps (IsBounded x) (k u))
      → Holds (HasRoom x i) s
      → Bounded ((lift r >>= λ expires_at. query (insert_token now i hash expires_at) >>= k) s)
  issue_token-IsBounded now i hash r k s keeps room =
      Post-bind (λ _ s'. Holds (HasRoom x i) s') (λ _ s'. Holds (IsBounded x) s')
        (λ _ s'. Holds (IsBounded x) s') (lift r) _ s
        (Post-weaken (λ _ s'. Holds (HasRoom x i) s') (λ _ s'. Holds (HasRoom x i) s') _ _
          (lift r s) ((Keeps-Reads {P = HasRoom x i} (lift r) (Reads-lift r)).at s room)
          (λ a s' h. h) (λ e s' h. h.0))
        λ expires_at s' room'.
          Post-bind (λ _ s'. Holds (IsBounded x) s') (λ _ s'. Holds (IsBounded x) s')
            (λ _ s'. Holds (IsBounded x) s') (query (insert_token now i hash expires_at)) k s'
            (insert_token-IsBounded x now i hash expires_at s' room') λ a s'' h. (keeps a).at s'' h

  pub create_account-IsBounded :
      (rq : Request) (random : List ℕ) (body : RegisterReq)
      → Keeps (IsBounded x) (create_account x rq random body)
  unfolding create_account
  create_account-IsBounded rq random body =
      let now = datetime x.calendar rq.now in
      let hash = hash_token x (generate_token x random) in
      Keeps-bind _ _ (Keeps-Reads _ (Reads-gets _)) λ cfg. record {
        at = λ s b.
            Post-bind (λ i s'. Holds (HasRoom x i) s') (λ _ s'. Holds (IsBounded x) s')
              (λ _ s'. Holds (IsBounded x) s') (query _) _ s
              (Post-query (λ i s'. Holds (HasRoom x i) s') (λ _ s'. Holds (IsBounded x) s')
                (insert_user now body.username (x.to_lowercase body.username) body.pubkey
                  body.email)
                s (λ e fs. b)
                λ fs i t e.
                  insert_user-HasRoom x s.config now body.username body.pubkey body.email s.pool t i
                    b e)
              λ i s' room.
                Post-bind (λ _ s'. Holds (HasRoom x i) s') (λ _ s'. Holds (IsBounded x) s')
                  (λ _ s'. Holds (IsBounded x) s') (query _) _ s'
                  (Post-weaken (λ _ s'. Holds (HasRoom x i) s') (λ _ s'. Holds (HasRoom x i) s') _ _
                    (query (insert_presence now i body.ip body.port) s')
                    ((insert_presence-HasRoom x now i body.ip body.port).at s' room) (λ a s' h. h)
                    (λ e s' h. h.0))
                  λ a s'' room'.
                    issue_token-IsBounded now i hash (expiry x rq.now cfg.tokens.ttl_days) _ s''
                      (λ u.
                        Keeps-bind _ _ (mark_invite-IsBounded rq body.invite_code i)
                          λ u'. Keeps-Reads _ (Reads-pure _))
                      room';
      }

  -- The two ends of `make_room`: the oldest token goes, or there is room already.
  oldest_gone :
      (i : ℕ) (s : AppState)
      → Holds (IsBounded x) s
      → Post
          (λ _ s'. Holds (HasRoom x i) s')
          (λ _ s'. Holds (IsBounded x) s')
          (query (delete_oldest_token i) s)
  oldest_gone i s b =
      Post-query (λ _ s'. Holds (HasRoom x i) s') (λ _ s'. Holds (IsBounded x) s')
        (delete_oldest_token i) s (λ e fs. b)
        λ fs a t e.
          let fewer : (u : ℕ)
              → (tokens_of u t ≤ tokens_of u s.pool)
                × (tokens_of i t + 1 ≤ max 1 (tokens_of i s.pool)) =
            λ u.
              subst
                (Leaves (λ t'.
                  (tokens_of u t' ≤ tokens_of u s.pool)
                  × (tokens_of i t' + 1 ≤ max 1 (tokens_of i s.pool))))
                e (delete_oldest_token-counts i u s.pool) in
          (
            (
              subst (Leaves (IsValid x.to_lowercase)) e
                  (Kept.delete_oldest_token-IsValid x.to_lowercase i s.pool b.0),
              λ u. omega (arith, (fewer u).0, b.1 u),
            ),
            omega (arith, (fewer i).1, b.1 i),
          )

  make_room-HasRoom :
      (i : ℕ) (s : AppState)
      → Holds (IsBounded x) s
      → Post
          (λ _ s'. Holds (HasRoom x i) s')
          (λ _ s'. Holds (IsBounded x) s')
          (make_room s.config.tokens.max_per_user i s)
  unfolding make_room pure
  make_room-HasRoom i s b =
      Post-bind
        (λ cnt s'. Holds (IsBounded x) s' × (cnt ≡ tokens_of i s'.pool) × (s'.config ≡ s.config))
        (λ _ s'. Holds (IsBounded x) s') (λ _ s'. Holds (HasRoom x i) s')
        (query (select (tokens_of i))) _ s
        (Post-query _ (λ _ s'. Holds (IsBounded x) s') (select (tokens_of i)) s (λ e fs. b)
          (λ fs a t e.
            let same : (t ≡ s.pool) × (a ≡ tokens_of i s.pool) = ground arith in
            rw (same.0, same.1) (b, refl, refl)))
        λ cnt s' h. elim (Bool-cases (leb s.config.tokens.max_per_user cnt)) [
          | inl full ↦ rw full (oldest_gone i s' h.0)
          | inr free ↦ rw free (h.0, rw h.2 ground arith)
        ]

  pub token_refresh-IsBounded :
      (rq : Request) (random : List ℕ) → Keeps (IsBounded x) (token_refresh x rq random)
  unfolding token_refresh gets
  token_refresh-IsBounded rq random = Keeps-bind _ _ (Keeps-Reads _ (resolve_token-Reads x rq)) λ i.
      record {
        at = λ s b.
            Post-bind (λ cfg s'. (cfg ≡ s'.config.tokens) × Holds (IsBounded x) s')
              (λ _ s'. Holds (IsBounded x) s') (λ _ s'. Holds (IsBounded x) s') (gets _) _ s
              (refl, b)
              λ cfg s' h.
                Post-bind (λ _ s'. Holds (HasRoom x i) s') (λ _ s'. Holds (IsBounded x) s')
                  (λ _ s'. Holds (IsBounded x) s') (make_room cfg.max_per_user i) _ s'
                  (rw h.0 (make_room-HasRoom i s' h.1))
                  λ a s'' room.
                    issue_token-IsBounded _ i _ (expiry x rq.now cfg.ttl_days) _ s''
                      (λ u. Keeps-Reads _ (Reads-pure _)) room;
      }
