-- ===== src/Group/Issue.antt =====
-- The parts of a join of src/group.rs, for the key that it seals.
use mathlib.Core.Sum.{inr-injective}
use naleystogramm_server.Base.{
  ℕ, ◌≡◌, refl, sym, ◌∙◌, ap, subst, inl, inr, List, Option, none, some, Text, Sum-cases,
  Bool-cases, codes, length, ◌==◌, if◌then◌else◌,
}
use naleystogramm_server.Error.{Response, internal}
use naleystogramm_server.Tables.{Tables, select, setting, insert_setting}
use naleystogramm_server.Tables.Kept.{Leaves}
use naleystogramm_server.State.{AppState}
use naleystogramm_server.Action.{
  Action, Result, ok, err, panicked, query, pure, throw, ok_or, ◌>>=◌, ◌>>◌,
}
use naleystogramm_server.Action.Rules.{Post, Post-bind, Post-query, Post-ok_or, Post-weaken}
use naleystogramm_server.Discovery.Requests.{Request}
use naleystogramm_server.Frames.{Frame}
use naleystogramm_server.Group.{
  owner, GroupExtern, JoinReq, Dice, member_count, as_internal, or_internal,
  get_or_create_group_key, seal, check_member_key, admit, join_current,
}
use naleystogramm_server.Group.Sealing.{ecies_encrypt}
use naleystogramm_server.Group.Opening.{ecies_open, ecies_open-ecies_encrypt}
use naleystogramm_server.Group.Joins.{broadcast-Preserves, member_count-Preserves}
use naleystogramm_server.Group.Keys.{
  HasKey, opened_key, Opens, Kept, Anything, keeps, insert_setting-new, upsert_member-setting,
  from_Kept,
}

module _ (x : GroupExtern) where
  check_member_key-Post :
      (pubkey : Text) (key : List ℕ) (s : AppState)
      → x.base.b64_decode pubkey ≡ some key
      → Post (λ bs s'. bs ≡ key) Anything (check_member_key x pubkey s)
  unfolding check_member_key ◌>>=◌
  check_member_key-Post pubkey key s e =
      rw e
        (elim (Bool-cases (length key == 32)) [ inl fits ↦ rw fits refl | inr other ↦ rw other tt ])

  or_internal-Post :
      {A : Type 0} (Q : A → AppState → Type 0) (m : Action A) (s : AppState)
      → Post Q Anything (m s)
      → Post Q Anything (or_internal x.describe m s)
  unfolding or_internal
  or_internal-Post {A} Q m s = go (m s)
    where
      go :
          (r : Result A × AppState)
          → Post Q Anything r
          → Post Q Anything (as_internal x.describe r.0, r.1)
      go (ok a, s) p = p
      go (err e, s) p = tt
      go (panicked, s) p = tt

  module _ (b64 : (bs : List ℕ) → x.base.b64_decode (x.base.b64_encode bs) ≡ some bs) where
    made :
        (fresh : List ℕ) (s : AppState)
        → setting (codes "group_key") s.pool ≡ none
        → Post
            (λ key s'. HasKey x key s'.pool)
            Anything
            ((query (insert_setting (codes "group_key") (x.base.b64_encode fresh)) >> pure fresh) s)
    unfolding pure
    made fresh s missing =
        Post-bind (λ _ s'. HasKey x fresh s'.pool) Anything (λ key s'. HasKey x key s'.pool) _ _ s
          (Post-query (λ _ s'. HasKey x fresh s'.pool) Anything
            (insert_setting (codes "group_key") (x.base.b64_encode fresh)) s (λ e fs. tt)
            (λ fs a t e. (x.base.b64_encode fresh, stored a t e, b64 fresh)))
          (λ _ s' h. h)
      where
        stored :
            (a : Unit {0}) (t : Tables)
            → insert_setting (codes "group_key") (x.base.b64_encode fresh) s.pool ≡ inr (a, t)
            → setting (codes "group_key") t ≡ some (x.base.b64_encode fresh)
        stored a t e =
            subst (Leaves (λ t'. setting (codes "group_key") t' ≡ some (x.base.b64_encode fresh))) e
              (insert_setting-new (codes "group_key") (x.base.b64_encode fresh) s.pool missing)

    -- The key that a join seals is the one that the database has then.
    group_key-Post :
        (fresh : List ℕ) (s : AppState)
        → Post (λ key s'. HasKey x key s'.pool) Anything (get_or_create_group_key x fresh s)
    unfolding get_or_create_group_key
    group_key-Post fresh s =
        Post-bind (λ row s'. setting (codes "group_key") s'.pool ≡ row) Anything
          (λ key s'. HasKey x key s'.pool) _ _ s
          (Post-query (λ row s'. setting (codes "group_key") s'.pool ≡ row) Anything
            (select (setting (codes "group_key"))) s (λ e fs. tt) (λ fs row t e. selected row t e))
          go
      where
        selected :
            (row : Option Text) (t : Tables)
            → select (setting (codes "group_key")) s.pool ≡ inr (row, t)
            → setting (codes "group_key") t ≡ row
        selected row t e =
            let q = inr-injective _ _ e in
            ap (λ (r : Option Text × Tables). setting (codes "group_key") r.1) (sym q)
            ∙ ap (λ (r : Option Text × Tables). r.0) q

        go :
            (row : Option Text) (s' : AppState)
            → setting (codes "group_key") s'.pool ≡ row
            → Post
                (λ key s'. HasKey x key s'.pool)
                Anything
                (elim row as (λ _. Action (List ℕ)) [
                  | some value ↦ ok_or (x.base.b64_decode value) (internal (x.describe_b64 value))
                  | none ↦
                      query (insert_setting (codes "group_key") (x.base.b64_encode fresh))
                      >> pure fresh
                ]
                  s')
        go none s' e = made fresh s' e
        go (some value) s' e =
            Post-ok_or (λ key s'. HasKey x key s'.pool) Anything (x.base.b64_decode value) _ s' tt
              (λ key d. (value, e, d))

    module _ (secret : List ℕ) (dice : Dice) (h32 : length dice.ephemeral ≡ 32)
        (h12 : length dice.nonce ≡ 12) where
      seal-Post :
          (key : List ℕ) (s : AppState)
          → HasKey x key s.pool
          → Post
              (λ sealed s'. (ecies_open x.crypto secret sealed ≡ some key) × HasKey x key s'.pool)
              Anything
              (seal x dice (x.crypto.public_of secret) key s)
      unfolding seal throw pure
      seal-Post key s h =
          elim (Sum-cases
            (ecies_encrypt x.crypto dice.ephemeral dice.nonce (x.crypto.public_of secret) key)) [
              | inl (e, failed) ↦ rw (seal, failed) tt
              | inr (sealed, done) ↦
                  rw (seal, done)
                    (
                      ecies_open-ecies_encrypt x.crypto dice.ephemeral dice.nonce secret key sealed
                          h32 h12 done,
                      h,
                    )
            ]

      admit-Post :
          (key sealed : List ℕ) (rq : Request) (body : JoinReq) (s : AppState)
          → ecies_open x.crypto secret sealed ≡ some key
          → HasKey x key s.pool
          → Post
              (λ r s'. Opens x secret key r.body × HasKey x key s'.pool)
              Anything
              (admit x rq dice body sealed s)
      unfolding admit pure
      admit-Post key sealed rq body s o h =
          Post-bind (λ _ s'. HasKey x key s'.pool) Anything R _ _ s
            (from_Kept x key member_count s (member_count-Preserves (Kept x key) (λ fs c t k. k)) h)
            λ cnt s1 h1.
              Post-bind (λ _ s'. HasKey x key s'.pool) Anything R _ _ s1
                (from_Kept x key _ s1
                  (keeps x key _ (λ t value g. upsert_member-setting _ _ _ _ _ _ value t g)) h1)
                λ _ s2 h2.
                  Post-bind (λ _ s'. HasKey x key s'.pool) Anything R _ _ s2
                    (from_Kept x key _ s2
                      (broadcast-Preserves (Kept x key)
                        (Frame.join body.username (if cnt == 0 then owner else codes "member")))
                      h2)
                    λ _ s3 h3. (rw (opened_key, b64 sealed) o, h3)
        where
          R : Response → AppState → Type 0
          R r s' = Opens x secret key r.body × HasKey x key s'.pool

      pub join_current-Post :
          (rq : Request) (body : JoinReq) (s : AppState)
          → x.base.b64_decode body.pubkey ≡ some (x.crypto.public_of secret)
          → Post
              (λ r s'. (key : List ℕ) × Opens x secret key r.body × HasKey x key s'.pool)
              Anything
              (join_current x rq dice body s)
      unfolding join_current
      join_current-Post rq body s pubkey =
          Post-bind (λ bs s'. bs ≡ x.crypto.public_of secret) Anything R _ _ s
            (check_member_key-Post body.pubkey (x.crypto.public_of secret) s pubkey)
            λ recipient s1 e.
              subst
                (λ r. Post R Anything (
                  (or_internal x.describe (get_or_create_group_key x dice.key) >>= λ key.
                  seal x dice r key >>= λ sealed. admit x rq dice body sealed)
                    s1))
                (sym e)
                (Post-bind (λ key s'. HasKey x key s'.pool) Anything R _ _ s1
                  (or_internal-Post (λ key s'. HasKey x key s'.pool)
                    (get_or_create_group_key x dice.key) s1 (group_key-Post dice.key s1))
                  λ key s2 h2.
                    Post-bind
                      (λ sealed s'.
                        (ecies_open x.crypto secret sealed ≡ some key) × HasKey x key s'.pool)
                      Anything R _ _ s2 (seal-Post key s2 h2)
                      λ sealed s3 h3.
                        Post-weaken _ Anything R Anything (admit x rq dice body sealed s3)
                          (admit-Post key sealed rq body s3 h3.0 h3.1)
                          (λ r s4 h4. (key, h4.0, h4.1)) (λ e' s4 h4. tt))
        where
          R : Response → AppState → Type 0
          R r s' = (key : List ℕ) × Opens x secret key r.body × HasKey x key s'.pool
