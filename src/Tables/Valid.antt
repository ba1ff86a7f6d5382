-- ===== src/Tables/Valid.antt =====
-- The well-formed databases: what src/db.rs declares of the columns, and that `username_lc` is the
-- lower-case form of `username`.
use naleystogramm_server.Base.{
  ℕ, ◌≤◌, ◌≡◌, refl, [], Bool, true, Option, none, some, Text, All, Distinct, arith, any, ◌==◌,
  List,
}
use naleystogramm_server.Tables.Rows.{User, Tables, migrate}
use naleystogramm_server.Tables.Statements.{has_user}

-- A nullable reference to a user.
abbrev pub refers : Option ℕ → List User → Bool
refers none us = true
refers (some i) us = any (λ u. u.id == i) us

module _ (to_lowercase : Text → Text) where
  pub record IsValid (t : Tables) : Type 0 where
    pub lower_case : All (λ u. u.username_lc ≡ to_lowercase u.username) t.users
    pub user_ids_bounded : All (λ u. u.id ≤ t.users_seq) t.users
    pub user_ids : Distinct (λ u. u.id) t.users
    pub names : Distinct (λ u. u.username_lc) t.users
    pub presence_users : Distinct (λ p. p.user_id) t.presence
    pub presence_refers : All (λ p. has_user p.user_id t ≡ true) t.presence
    pub token_ids_bounded : All (λ k. k.id ≤ t.tokens_seq) t.tokens
    pub token_ids : Distinct (λ k. k.id) t.tokens
    pub token_hashes : Distinct (λ k. k.token_hash) t.tokens
    pub tokens_refer : All (λ k. has_user k.user_id t ≡ true) t.tokens
    pub invite_codes : Distinct (λ i. i.code) t.invites
    pub invites_refer :
        All
          (λ i. (refers i.created_by t.users ≡ true) × (refers i.used_by t.users ≡ true))
          t.invites
    pub session_ids : Distinct (λ r. r.id) t.relay_sessions
    pub sessions_refer :
        All
          (λ r. (refers r.creator_id t.users ≡ true) × (refers r.joiner_id t.users ≡ true))
          t.relay_sessions

  pub migrate-IsValid : IsValid migrate
  unfolding migrate
  migrate-IsValid = omega arith

pub migrate-users : migrate.users ≡ []
unfolding migrate
migrate-users = refl

pub migrate-tokens : migrate.tokens ≡ []
unfolding migrate
migrate-tokens = refl

pub migrate-group :
    migrate.group
    ≡ record { members = []; members_seq = 0; messages = []; messages_seq = 0; settings = [] }
unfolding migrate
migrate-group = refl
