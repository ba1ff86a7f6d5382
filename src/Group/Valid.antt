-- ===== src/Group/Valid.antt =====
-- The well-formed databases of the group: what src/db.rs declares of the columns of its tables, and
-- that the statements of src/group.rs keep it.
use naleystogramm_server.Base.{
  ℕ, suc, ◌≤◌, ◌<◌, ◌≡◌, ◌≢◌, refl, sym, inl, inr, Bool, false, List, [], ◌∷◌, ◌++◌, Text, text_eq,
  text_eq_iff, arith, any, All, All-append, All-map, All-any, All-delete_where, All-update_where,
  Distinct, Distinct-append, Distinct-delete_where, Distinct-update_where, update_where,
  update_where-none, delete_where, Bool-cases,
}
use naleystogramm_server.Tables.{
  Tables, Member, Message, Setting, GroupTables, is_member, renew, has_member_hash, upsert_member,
  delete_member, insert_message, trim_messages, insert_setting, is_old,
}
use naleystogramm_server.Tables.Kept.{Leaves}

-- Each row has a larger id than those before it.
abbrev pub IsIncreasing : List Message → Type 0
IsIncreasing [] = Unit
IsIncreasing (m ∷ ms) = All (λ k. m.id < k.id) ms × IsIncreasing ms

pub record IsGroupValid (g : GroupTables) : Type 0 where
  pub names : Distinct (λ m. m.username) g.members
  pub hashes : Distinct (λ m. m.token_hash) g.members
  pub member_ids : Distinct (λ m. m.id) g.members
  pub members_bounded : All (λ m. m.id ≤ g.members_seq) g.members
  pub message_ids : IsIncreasing g.messages
  pub messages_bounded : All (λ m. m.id ≤ g.messages_seq) g.messages
  pub setting_keys : Distinct (λ r. r.key) g.settings

no_other :
    (username : Text) (m : Member) (ms : List Member)
    → m.username ≡ username
    → All (λ k. k.username ≢ m.username) ms
    → any (is_member username) ms ≡ false
no_other username m [] e h = refl
no_other username m (k ∷ ks) e h =
    ground (arith, text_eq_iff k.username username, no_other username m ks e h.1)

-- The row of one member gets a hash that nobody has.
Distinct-set_hash :
    (username pubkey hash : Text) (ms : List Member)
    → All (λ m. m.token_hash ≢ hash) ms
    → Distinct (λ m. m.username) ms
    → Distinct (λ m. m.token_hash) ms
    → Distinct (λ m. m.token_hash) (update_where (is_member username) (renew pubkey hash) ms)
Distinct-set_hash username pubkey hash [] new names h = tt
Distinct-set_hash username pubkey hash (m ∷ ms) new names h =
    elim (Bool-cases (is_member username m)) [
      | inl own ↦
          rw
            (
              own,
              update_where-none (is_member username) (renew pubkey hash) ms
                  (no_other username m ms ((text_eq_iff m.username username).0 own) names.0),
            )
            (new.1, h.1)
      | inr other ↦ rw other (
        All-update_where (λ k. k.token_hash ≢ m.token_hash) (is_member username) (renew pubkey hash)
            ms (λ k ne e. new.0 (sym e)) h.0,
        Distinct-set_hash username pubkey hash ms new.1 names.1 h.1,
      )
    ]

fresh_hash :
    (hash : Text) (ms : List Member)
    → any (has_member_hash hash) ms ≡ false
    → All (λ m. m.token_hash ≢ hash) ms
fresh_hash hash ms free =
    All-map (λ m miss e. cc ((text_eq_iff m.token_hash hash).1 e)) ms (All-any _ ms free)

fresh_name :
    (username : Text) (ms : List Member)
    → any (is_member username) ms ≡ false
    → All (λ m. m.username ≢ username) ms
fresh_name username ms free =
    All-map (λ m miss e. cc ((text_eq_iff m.username username).1 e)) ms (All-any _ ms free)

fresh_id : (n : ℕ) (ms : List Member) → All (λ m. m.id ≤ n) ms → All (λ m. m.id ≢ suc n) ms
fresh_id n ms h = All-map (λ m le. ground arith) ms h

pub upsert_member-IsGroupValid :
    (now username pubkey hash role : Text) (t : Tables)
    → IsGroupValid t.group
    → Leaves (λ t'. IsGroupValid t'.group) (upsert_member now username pubkey hash role t)
unfolding upsert_member
upsert_member-IsGroupValid now username pubkey hash role t v =
    elim (Bool-cases (any (has_member_hash hash) t.group.members)) [
      | inl taken ↦ rw (taken, Leaves) tt
      | inr free ↦
          rw (free, Leaves)
            (elim (Bool-cases (any (is_member username) t.group.members)) [
              | inl old ↦
                  rw (old, Leaves)
                    (record {
                      names =
                          Distinct-update_where _ (is_member username) (renew pubkey hash)
                            t.group.members (λ m. refl) v.names;
                      hashes =
                          Distinct-set_hash username pubkey hash t.group.members
                            (fresh_hash hash t.group.members free) v.names v.hashes;
                      member_ids =
                          Distinct-update_where _ (is_member username) (renew pubkey hash)
                            t.group.members (λ m. refl) v.member_ids;
                      members_bounded =
                          All-map (λ m h. omega arith) _
                            (All-update_where (λ (m : Member). m.id ≤ t.group.members_seq)
                              (is_member username) (renew pubkey hash) t.group.members (λ m h. h)
                              v.members_bounded);
                      message_ids = v.message_ids;
                      messages_bounded = v.messages_bounded;
                      setting_keys = v.setting_keys;
                    })
              | inr new ↦
                  rw (new, Leaves)
                    (record {
                      names =
                          Distinct-append _ t.group.members _
                            (fresh_name username t.group.members new) v.names;
                      hashes =
                          Distinct-append _ t.group.members _ (fresh_hash hash t.group.members free)
                            v.hashes;
                      member_ids =
                          Distinct-append _ t.group.members _
                            (fresh_id t.group.members_seq t.group.members v.members_bounded)
                            v.member_ids;
                      members_bounded =
                          All-append _ t.group.members _
                            (All-map (λ m h. omega arith) t.group.members v.members_bounded)
                            (omega arith, tt);
                      message_ids = v.message_ids;
                      messages_bounded = v.messages_bounded;
                      setting_keys = v.setting_keys;
                    })
            ])
    ]

pub delete_member-IsGroupValid :
    (username : Text) (t : Tables)
    → IsGroupValid t.group
    → Leaves (λ t'. IsGroupValid t'.group) (delete_member username t)
unfolding delete_member
delete_member-IsGroupValid username t v = record {
  names = Distinct-delete_where _ (is_member username) t.group.members v.names;
  hashes = Distinct-delete_where _ (is_member username) t.group.members v.hashes;
  member_ids = Distinct-delete_where _ (is_member username) t.group.members v.member_ids;
  members_bounded = All-delete_where _ (is_member username) t.group.members v.members_bounded;
  message_ids = v.message_ids;
  messages_bounded = v.messages_bounded;
  setting_keys = v.setting_keys;
}

IsIncreasing-append :
    (n : ℕ) (ms : List Message) (m : Message)
    → All (λ k. k.id ≤ n) ms
    → n < m.id
    → IsIncreasing ms
    → IsIncreasing (ms ++ m ∷ [])
IsIncreasing-append n [] m bounded later h = (tt, tt)
IsIncreasing-append n (k ∷ ks) m bounded later h = (
  All-append _ ks (m ∷ []) h.0 (omega (arith, bounded.0), tt),
  IsIncreasing-append n ks m bounded.1 later h.1,
)

IsIncreasing-delete_where :
    (p : Message → Bool) (ms : List Message) → IsIncreasing ms → IsIncreasing (delete_where p ms)
IsIncreasing-delete_where p [] h = tt
IsIncreasing-delete_where p (m ∷ ms) h = elim (Bool-cases (p m)) [
  | inl gone ↦ rw gone (IsIncreasing-delete_where p ms h.1)
  | inr stays ↦ rw stays (All-delete_where _ p ms h.0, IsIncreasing-delete_where p ms h.1)
]

pub insert_message-IsGroupValid :
    (sender content : Text) (ts : ℕ) (t : Tables)
    → IsGroupValid t.group
    → Leaves (λ t'. IsGroupValid t'.group) (insert_message sender content ts t)
unfolding insert_message
insert_message-IsGroupValid sender content ts t v = record {
  names = v.names;
  hashes = v.hashes;
  member_ids = v.member_ids;
  members_bounded = v.members_bounded;
  message_ids =
      IsIncreasing-append t.group.messages_seq t.group.messages _ v.messages_bounded (omega arith)
        v.message_ids;
  messages_bounded =
      All-append _ t.group.messages _
        (All-map (λ m h. omega arith) t.group.messages v.messages_bounded) (omega arith, tt);
  setting_keys = v.setting_keys;
}

pub trim_messages-IsGroupValid :
    (limit : ℕ) (t : Tables)
    → IsGroupValid t.group
    → Leaves (λ t'. IsGroupValid t'.group) (trim_messages limit t)
unfolding trim_messages
trim_messages-IsGroupValid limit t v = record {
  names = v.names;
  hashes = v.hashes;
  member_ids = v.member_ids;
  members_bounded = v.members_bounded;
  message_ids =
      IsIncreasing-delete_where (is_old limit t.group.messages) t.group.messages v.message_ids;
  messages_bounded =
      All-delete_where _ (is_old limit t.group.messages) t.group.messages v.messages_bounded;
  setting_keys = v.setting_keys;
}

fresh_setting :
    (key : Text) (rs : List Setting)
    → any (λ (r : Setting). text_eq r.key key) rs ≡ false
    → All (λ r. r.key ≢ key) rs
fresh_setting key rs free =
    All-map (λ r miss e. cc ((text_eq_iff r.key key).1 e)) rs (All-any _ rs free)

pub insert_setting-IsGroupValid :
    (key value : Text) (t : Tables)
    → IsGroupValid t.group
    → Leaves (λ t'. IsGroupValid t'.group) (insert_setting key value t)
unfolding insert_setting
insert_setting-IsGroupValid key value t v =
    elim (Bool-cases (any (λ (r : Setting). text_eq r.key key) t.group.settings)) [
      | inl taken ↦ rw (taken, Leaves) tt
      | inr free ↦
          rw (free, Leaves)
            (record {
              names = v.names;
              hashes = v.hashes;
              member_ids = v.member_ids;
              members_bounded = v.members_bounded;
              message_ids = v.message_ids;
              messages_bounded = v.messages_bounded;
              setting_keys =
                  Distinct-append _ t.group.settings _ (fresh_setting key t.group.settings free)
                    v.setting_keys;
            })
    ]
