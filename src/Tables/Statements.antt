-- ===== src/Tables/Statements.antt =====
-- The statements that the handlers run, with the constraints of src/db.rs: a UNIQUE or PRIMARY KEY
-- column refuses a second row of its value, a reference to a user that is not there is refused, and
-- a deleted user takes the referring rows along (CASCADE) or is cut out of them (SET NULL). SQLite
-- enforces references because `sqlx` turns `foreign_keys` on for each connection.
use naleystogramm_server.Base.{
  ℕ, suc, ◌⊎◌, inl, inr, Bool, ◌||◌, List, [], ◌∷◌, ◌++◌, Option, none, some, Text, text_eq,
  text_ltb, ◌==◌, if◌then◌else◌, any, map, update_where, delete_where,
}
use naleystogramm_server.Error.{DbError, unique_violation, foreign_key_violation}
use naleystogramm_server.Tables.Rows.{User, Presence, Token, Invite, RelaySession, Tables}

-- A statement fails, or answers and leaves new tables.
abbrev pub Statement : Type 0 → Type 0
Statement A = Tables → DbError ⊎ (A × Tables)

-- A query that only reads.
abbrev pub select : {A : Type 0} → (Tables → A) → Statement A
select f t = inr (f t, t)

abbrev pub has_user : ℕ → Tables → Bool
has_user i t = any (λ u. u.id == i) t.users

-- The rows with a given value in a column.
abbrev pub has_name : Text → Text → User → Bool
has_name username username_lc u = text_eq u.username username || text_eq u.username_lc username_lc

abbrev pub is_of : ℕ → Presence → Bool
is_of user_id p = p.user_id == user_id

abbrev pub has_hash : Text → Token → Bool
has_hash token_hash k = text_eq k.token_hash token_hash

abbrev pub has_code : Text → Invite → Bool
has_code code i = text_eq i.code code

-- INSERT INTO users (username, username_lc, pubkey, email)
unfoldable pub insert_user : Text → Text → Text → Text → Option Text → Statement ℕ
insert_user now username username_lc pubkey email t =
    if any (has_name username username_lc) t.users
    then inl unique_violation
    else inr
        (suc t.users_seq, record t { users = t.users ++ row ∷ []; users_seq = suc t.users_seq })
  where
    row : User
    row = record {
      id = suc t.users_seq;
      username = username;
      username_lc = username_lc;
      pubkey = pubkey;
      email = email;
      created_at = now;
    }

-- INSERT INTO presence (user_id, ip, port)
unfoldable pub insert_presence : Text → ℕ → Text → ℕ → Statement (Unit {0})
insert_presence now user_id ip port t =
    if any (is_of user_id) t.presence
    then inl unique_violation
    else if has_user user_id t
    then inr (tt, record t { presence = t.presence ++ row ∷ [] })
    else inl foreign_key_violation
  where
    row : Presence
    row = record { user_id = user_id; ip = ip; port = port; last_seen = now }

-- INSERT INTO presence … ON CONFLICT(user_id) DO UPDATE SET ip, port, last_seen
unfoldable pub upsert_presence : Text → ℕ → Text → ℕ → Statement (Unit {0})
upsert_presence now user_id ip port t =
    if any (is_of user_id) t.presence
    then inr (
      tt,
      record t {
        presence =
            update_where (is_of user_id) (λ p. record p { ip = ip; port = port; last_seen = now })
              t.presence;
      },
    )
    else if has_user user_id t
    then inr (tt, record t { presence = t.presence ++ row ∷ [] })
    else inl foreign_key_violation
  where
    row : Presence
    row = record { user_id = user_id; ip = ip; port = port; last_seen = now }

-- UPDATE presence SET last_seen=datetime('now') WHERE user_id=?
unfoldable pub touch_presence : Text → ℕ → Statement (Unit {0})
touch_presence now user_id t = inr (
  tt,
  record t {
    presence = update_where (is_of user_id) (λ p. record p { last_seen = now }) t.presence;
  },
)

-- INSERT INTO tokens (user_id, token_hash, expires_at)
unfoldable pub insert_token : Text → ℕ → Text → Option Text → Statement (Unit {0})
insert_token now user_id token_hash expires_at t =
    if any (has_hash token_hash) t.tokens
    then inl unique_violation
    else if has_user user_id t
    then inr (tt, record t { tokens = t.tokens ++ row ∷ []; tokens_seq = suc t.tokens_seq })
    else inl foreign_key_violation
  where
    row : Token
    row = record {
      id = suc t.tokens_seq;
      user_id = user_id;
      token_hash = token_hash;
      created_at = now;
      expires_at = expires_at;
    }

-- SELECT id FROM tokens WHERE user_id=? ORDER BY created_at LIMIT 1
abbrev pub older : Token → Option Token → Option Token
older k none = some k
older k (some j) = if text_ltb j.created_at k.created_at then some j else some k

unfoldable pub oldest_token : ℕ → List Token → Option Token
oldest_token user_id [] = none
oldest_token user_id (k ∷ ks) =
    let rest = oldest_token user_id ks in if k.user_id == user_id then older k rest else rest

-- DELETE FROM tokens WHERE id=(that)
unfoldable pub delete_oldest_token : ℕ → Statement (Unit {0})
unfolding oldest_token
delete_oldest_token user_id t = elim (oldest_token user_id t.tokens) [
  | none ↦ inr (tt, t)
  | some k ↦ inr (tt, record t { tokens = delete_where (λ j. j.id == k.id) t.tokens })
]

-- INSERT INTO invites (code, created_by)
unfoldable pub insert_invite : Text → Text → ℕ → Statement (Unit {0})
insert_invite now code created_by t =
    if any (has_code code) t.invites
    then inl unique_violation
    else if has_user created_by t
    then inr (tt, record t { invites = t.invites ++ row ∷ [] })
    else inl foreign_key_violation
  where
    row : Invite
    row = record {
      code = code;
      created_by = some created_by;
      used_by = none;
      created_at = now;
      used_at = none;
    }

-- UPDATE invites SET used_by=?, used_at=datetime('now') WHERE code=?
unfoldable pub use_invite : Text → ℕ → Text → Statement (Unit {0})
use_invite now user_id code t =
    if any (has_code code) t.invites
    then if has_user user_id t
      then inr (
        tt,
        record t {
          invites =
              update_where (has_code code)
                (λ i. record i { used_by = some user_id; used_at = some now }) t.invites;
        },
      )
      else inl foreign_key_violation
    else inr (tt, t)

-- ON DELETE SET NULL
abbrev pub cut_out : ℕ → Option ℕ → Option ℕ
cut_out i none = none
cut_out i (some j) = if j == i then none else some j

-- DELETE FROM users WHERE id=?
unfoldable pub delete_user : ℕ → Statement (Unit {0})
delete_user i t = inr (
  tt,
  record t {
    users = delete_where (λ u. u.id == i) t.users;
    presence = delete_where (λ p. p.user_id == i) t.presence;
    tokens = delete_where (λ k. k.user_id == i) t.tokens;
    invites =
        map
          (λ (v : Invite). record v {
            created_by = cut_out i v.created_by;
            used_by = cut_out i v.used_by;
          })
          t.invites;
    relay_sessions =
        map
          (λ (r : RelaySession). record r {
            creator_id = cut_out i r.creator_id;
            joiner_id = cut_out i r.joiner_id;
          })
          t.relay_sessions;
  },
)
