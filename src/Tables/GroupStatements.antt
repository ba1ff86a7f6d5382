-- ===== src/Tables/GroupStatements.antt =====
-- The statements of src/group.rs, with the constraints of src/db.rs.
use naleystogramm_server.Base.{
  ℕ, suc, ◌⊎◌, inl, inr, Bool, not, List, [], ◌∷◌, ◌++◌, Option, none, some, Text, text_eq,
  text_ltb, ◌==◌, if◌then◌else◌, any, find, take, update_where, delete_where, reverse,
}
use naleystogramm_server.Error.{DbError, unique_violation}
use naleystogramm_server.Tables.GroupRows.{Member, Message, Setting, GroupTables}
use naleystogramm_server.Tables.Rows.{Tables}
use naleystogramm_server.Tables.Statements.{Statement}

abbrev pub is_member : Text → Member → Bool
is_member username m = text_eq m.username username

abbrev pub has_member_hash : Text → Member → Bool
has_member_hash token_hash m = text_eq m.token_hash token_hash

-- DO UPDATE SET pubkey=excluded.pubkey, token_hash=excluded.token_hash
abbrev pub renew : Text → Text → Member → Member
renew pubkey token_hash m = record m { pubkey = pubkey; token_hash = token_hash }

-- A statement on the group's tables alone.
abbrev pub on_group : {A : Type 0} → (GroupTables → DbError ⊎ (A × GroupTables)) → Statement A
on_group f t = elim (f t.group) [ inl e ↦ inl e | inr (a, g) ↦ inr (a, record t { group = g }) ]

-- SELECT username, role FROM group_members WHERE token_hash=?
unfoldable pub member_by_hash : Text → Tables → Option (Text × Text)
member_by_hash token_hash t = elim (find (has_member_hash token_hash) t.group.members) [
  | none ↦ none
  | some m ↦ some (m.username, m.role)
]

-- INSERT INTO group_members (username, pubkey, token_hash, role) … ON CONFLICT(username) DO UPDATE
-- SET pubkey, token_hash: the role, the id and the time of an old row stay, and AUTOINCREMENT takes a
-- number nevertheless. A token hash that some row has is refused.
unfoldable pub upsert_member : Text → Text → Text → Text → Text → Statement (Unit {0})
upsert_member now username pubkey token_hash role = on_group λ g.
    if any (has_member_hash token_hash) g.members
    then inl unique_violation
    else if any (is_member username) g.members
    then inr (
      tt,
      record g {
        members = update_where (is_member username) (renew pubkey token_hash) g.members;
        members_seq = suc g.members_seq;
      },
    )
    else inr (
      tt,
      record g {
        members =
            g.members
            ++ (record {
              id = suc g.members_seq;
              username = username;
              pubkey = pubkey;
              token_hash = token_hash;
              role = role;
              joined_at = now;
            })
              ∷ [];
        members_seq = suc g.members_seq;
      },
    )

-- DELETE FROM group_members WHERE username=?
unfoldable pub delete_member : Text → Statement (Unit {0})
delete_member username =
    on_group λ g. inr (tt, record g { members = delete_where (is_member username) g.members })

-- ORDER BY username
abbrev pub insert_sorted : Member → List Member → List Member
insert_sorted m [] = m ∷ []
insert_sorted m (k ∷ ks) =
    if text_ltb m.username k.username then m ∷ k ∷ ks else k ∷ insert_sorted m ks

unfoldable pub sort_members : List Member → List Member
sort_members [] = []
sort_members (m ∷ ms) = insert_sorted m (sort_members ms)

-- SELECT … FROM group_messages ORDER BY id DESC LIMIT ?. The rows stand in the order of their ids.
abbrev pub latest : ℕ → List Message → List Message
latest limit ms = take limit (reverse ms)

-- INSERT INTO group_messages (sender, data, ts)
unfoldable pub insert_message : Text → Text → ℕ → Statement (Unit {0})
insert_message sender content ts = on_group λ g. inr (
  tt,
  record g {
    messages =
        g.messages
        ++ (record { id = suc g.messages_seq; sender = sender; content = content; ts = ts }) ∷ [];
    messages_seq = suc g.messages_seq;
  },
)

-- id NOT IN (SELECT id FROM group_messages ORDER BY id DESC LIMIT ?)
abbrev pub is_old : ℕ → List Message → Message → Bool
is_old limit ms m = not (any (λ (k : Message). k.id == m.id) (latest limit ms))

-- DELETE FROM group_messages WHERE id NOT IN (SELECT id … ORDER BY id DESC LIMIT ?)
unfoldable pub trim_messages : ℕ → Statement (Unit {0})
trim_messages limit =
    on_group
      λ g. inr (tt, record g { messages = delete_where (is_old limit g.messages) g.messages })

-- SELECT value FROM group_config WHERE key=?
unfoldable pub setting : Text → Tables → Option Text
setting key t = elim (find (λ (r : Setting). text_eq r.key key) t.group.settings) [
  | none ↦ none
  | some r ↦ some r.value
]

-- INSERT INTO group_config (key, value)
unfoldable pub insert_setting : Text → Text → Statement (Unit {0})
insert_setting key value = on_group λ g.
    if any (λ (r : Setting). text_eq r.key key) g.settings
    then inl unique_violation
    else inr (tt, record g { settings = g.settings ++ (record { key = key; value = value }) ∷ [] })
