-- ===== src/Discovery/Tokens/Bound.antt =====
-- How many tokens a user can have (`max_per_user`; `register` and `token_refresh` of
-- src/discovery.rs).
use naleystogramm_server.Base.{
  count_where-delete_where, ℕ, suc, ◌+◌, ◌≤◌, ◌≡◌, ◌⊎◌, inl, inr, Option, Text, arith, ◌==◌, ==_iff,
  any, max, if◌then◌else◌, Bool-cases, subst,
}
use naleystogramm_server.Extern.{Extern}
use naleystogramm_server.Config.{Config}
use naleystogramm_server.Error.{DbError}
use naleystogramm_server.Tables.{
  Tables, Statement, has_name, insert_user, insert_presence, insert_token, use_invite,
  upsert_presence, touch_presence, delete_user, insert_invite,
}
use naleystogramm_server.Tables.Valid.{IsValid}
use naleystogramm_server.Tables.Kept
use naleystogramm_server.Tables.Kept.{Leaves}
use naleystogramm_server.State.{AppState}
use naleystogramm_server.Action.{query}
use naleystogramm_server.Action.Rules.{Post, Post-query}
use naleystogramm_server.Action.Reads.{Keeps, Keeps-query, Holds}
use naleystogramm_server.Discovery.Register.Account.{no_such_user}
use naleystogramm_server.Discovery.Tokens.{tokens_of}
use naleystogramm_server.Discovery.Tokens.Oldest.{is_owned, insert_token-counts, no_tokens}

module _ (x : Extern) where
  -- The database is well-formed and nobody has more tokens than `max_per_user`, or than 1.
  abbrev pub IsBounded : Config → Tables → Type 0
  IsBounded c t = IsValid x.to_lowercase t × ((u : ℕ) → tokens_of u t ≤ max 1 c.tokens.max_per_user)

  -- And there is room for one more of user `i`.
  abbrev pub HasRoom : ℕ → Config → Tables → Type 0
  HasRoom i c t = IsBounded c t × (tokens_of i t + 1 ≤ max 1 c.tokens.max_per_user)

  IsBounded-Leaves :
      {A : Type 0} (c : Config) (t : Tables) (r : DbError ⊎ (A × Tables))
      → IsBounded c t
      → Leaves (IsValid x.to_lowercase) r
      → ((u : ℕ) → Leaves (λ t'. tokens_of u t' ≤ tokens_of u t) r)
      → Leaves (IsBounded c) r
  IsBounded-Leaves c t (inl e) b valid fewer = tt
  IsBounded-Leaves c t (inr (a, t')) b valid fewer = (valid, λ u. omega (arith, b.1 u, fewer u))

  HasRoom-Leaves :
      {A : Type 0} (i : ℕ) (c : Config) (t : Tables) (r : DbError ⊎ (A × Tables))
      → HasRoom i c t
      → Leaves (IsValid x.to_lowercase) r
      → ((u : ℕ) → Leaves (λ t'. tokens_of u t' ≤ tokens_of u t) r)
      → Leaves (HasRoom i c) r
  HasRoom-Leaves i c t (inl e) room valid fewer = tt
  HasRoom-Leaves i c t (inr (a, t')) room valid fewer =
      ((valid, λ u. omega (arith, room.0.1 u, fewer u)), omega (arith, room.1, fewer i))

  pub IsBounded-query :
      {A : Type 0} (q : Statement A)
      → ((t : Tables) → IsValid x.to_lowercase t → Leaves (IsValid x.to_lowercase) (q t))
      → ((t : Tables) (u : ℕ) → Leaves (λ t'. tokens_of u t' ≤ tokens_of u t) (q t))
      → Keeps IsBounded (query q)
  IsBounded-query q valid fewer =
      Keeps-query q (λ c t b. IsBounded-Leaves c t (q t) b (valid t b.0) (fewer t))

  insert_presence-fewer :
      (now : Text) (i : ℕ) (ip : Text) (port : ℕ) (t : Tables) (u : ℕ)
      → Leaves (λ t'. tokens_of u t' ≤ tokens_of u t) (insert_presence now i ip port t)
  unfolding insert_presence
  insert_presence-fewer now i ip port t u = ground arith

  pub upsert_presence-fewer :
      (now : Text) (i : ℕ) (ip : Text) (port : ℕ) (t : Tables) (u : ℕ)
      → Leaves (λ t'. tokens_of u t' ≤ tokens_of u t) (upsert_presence now i ip port t)
  unfolding upsert_presence
  upsert_presence-fewer now i ip port t u = ground arith

  pub touch_presence-fewer :
      (now : Text) (i : ℕ) (t : Tables) (u : ℕ)
      → Leaves (λ t'. tokens_of u t' ≤ tokens_of u t) (touch_presence now i t)
  unfolding touch_presence
  touch_presence-fewer now i t u = omega arith

  pub insert_invite-fewer :
      (now code : Text) (i : ℕ) (t : Tables) (u : ℕ)
      → Leaves (λ t'. tokens_of u t' ≤ tokens_of u t) (insert_invite now code i t)
  unfolding insert_invite
  insert_invite-fewer now code i t u = ground arith

  pub use_invite-fewer :
      (now : Text) (i : ℕ) (code : Text) (t : Tables) (u : ℕ)
      → Leaves (λ t'. tokens_of u t' ≤ tokens_of u t) (use_invite now i code t)
  unfolding use_invite
  use_invite-fewer now i code t u = ground arith

  pub delete_user-fewer :
      (i : ℕ) (t : Tables) (u : ℕ) → Leaves (λ t'. tokens_of u t' ≤ tokens_of u t) (delete_user i t)
  unfolding delete_user
  delete_user-fewer i t u = count_where-delete_where (is_owned u) (is_owned i) t.tokens

  -- A new user takes the next number, and no token changes.
  insert_user-tokens :
      (now username lc pubkey : Text) (email : Option Text) (t t' : Tables) (i : ℕ)
      → insert_user now username lc pubkey email t ≡ inr (i, t')
      → (t'.tokens ≡ t.tokens) × (i ≡ suc t.users_seq)
  unfolding insert_user
  insert_user-tokens now username lc pubkey email t t' i e =
      elim (Bool-cases (any (has_name username lc) t.users)) [
        | inl taken ↦ let e' = rw taken at e in cc
        | inr free ↦ let e' = rw free at e in ground arith
      ]

  pub insert_user-HasRoom :
      (c : Config) (now username pubkey : Text) (email : Option Text) (t t' : Tables) (i : ℕ)
      → IsBounded c t
      → insert_user now username (x.to_lowercase username) pubkey email t ≡ inr (i, t')
      → HasRoom i c t'
  insert_user-HasRoom c now username pubkey email t t' i b e =
      let valid =
        subst (Leaves (IsValid x.to_lowercase)) e
          (Kept.insert_user-IsValid x.to_lowercase now username pubkey email t b.0) in
      let same = insert_user-tokens now username (x.to_lowercase username) pubkey email t t' i e in
      let none_yet =
        no_tokens (suc t.users_seq) t t.tokens
          (no_such_user t.users_seq t.users b.0.user_ids_bounded) b.0.tokens_refer in
      ((valid, λ u. rw same.0 (b.1 u)), rw (same.0, same.1) (omega (arith, none_yet)))

  pub insert_presence-HasRoom :
      (now : Text) (i : ℕ) (ip : Text) (port : ℕ)
      → Keeps (HasRoom i) (query (insert_presence now i ip port))
  insert_presence-HasRoom now i ip port = Keeps-query _ λ c t room.
      HasRoom-Leaves i c t (insert_presence now i ip port t) room
        (Kept.insert_presence-IsValid x.to_lowercase now i ip port t room.0.0)
        (insert_presence-fewer now i ip port t)

  pub insert_token-IsBounded :
      (now : Text) (i : ℕ) (hash : Text) (expires_at : Option Text) (s : AppState)
      → Holds (HasRoom i) s
      → Post
          (λ _ s'. Holds IsBounded s')
          (λ _ s'. Holds IsBounded s')
          (query (insert_token now i hash expires_at) s)
  insert_token-IsBounded now i hash expires_at s room =
      Post-query (λ _ s'. Holds IsBounded s') (λ _ s'. Holds IsBounded s')
        (insert_token now i hash expires_at) s (λ e fs. room.0)
        λ fs a t e. (
          subst (Leaves (IsValid x.to_lowercase)) e
              (Kept.insert_token-IsValid x.to_lowercase now i hash expires_at s.pool room.0.0),
          λ u. one_more s.config s.pool t i u room (
              subst (Leaves (λ t'. tokens_of u t' ≡ tokens_of u s.pool + (if i == u then 1 else 0)))
                e (insert_token-counts now i u hash expires_at s.pool)),
        )
    where
      one_more :
          (c : Config) (t t' : Tables) (i u : ℕ)
          → HasRoom i c t
          → tokens_of u t' ≡ tokens_of u t + (if i == u then 1 else 0)
          → tokens_of u t' ≤ max 1 c.tokens.max_per_user
      one_more c t t' i u room e = elim (Bool-cases (i == u)) [
        | inl same ↦
            let e' = rw same at e in
            let room' =
              subst (λ v. tokens_of v t + 1 ≤ max 1 c.tokens.max_per_user) ((==_iff i u).0 same)
                room.1 in
            omega (arith, e', room')
        | inr other ↦ let e' = rw other at e in omega (arith, room.0.1 u, e')
      ]
