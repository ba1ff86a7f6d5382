-- ===== src/Group/Keys.antt =====
-- The group key of src/group.rs: made at the first join, and the same for every member.
use naleystogramm_server.Config.{Config}
use naleystogramm_server.Base.{
  ℕ, ◌≡◌, refl, inl, inr, ◌⊎◌, Bool, List, ◌++◌, Option, none, some, Text, Option-cases, Bool-cases,
  codes, text_eq, any, find, find-any, text_eq_iff, find-append, find-append_old,
}
use naleystogramm_server.Error.{AppError, Body, DbError}
use naleystogramm_server.Tables.{
  Tables, Setting, Statement, setting, insert_setting, upsert_member, delete_member, insert_message,
  trim_messages, has_member_hash, is_member,
}
use naleystogramm_server.Tables.Kept.{Leaves}
use naleystogramm_server.State.{AppState}
use naleystogramm_server.Action.{Action, query}
use naleystogramm_server.Action.Rules.{Post, Post-weaken}
use naleystogramm_server.Action.Preserves.{Preserves, Preserves-query, preserves_rules}
use naleystogramm_server.Discovery.Requests.{Request}
use naleystogramm_server.Group.{GroupExtern, JoinReq, Dice, group_join}
use naleystogramm_server.Group.Opening.{ecies_open}
use naleystogramm_server.Group.Joins.{group_join-Preserves, broadcast-Preserves}
use naleystogramm_server.Group.Kept.{run-OnTables}
use naleystogramm_server.Group.Sockets.{Socket, post}
use naleystogramm_server.Group.Runs.{Event, World, run}

module _ (x : GroupExtern) where
  -- The database holds the key, in base64.
  abbrev pub HasKey : List ℕ → Tables → Type 0
  HasKey key t =
      (b64 : Text) × (setting (codes "group_key") t ≡ some b64) × (x.base.b64_decode b64 ≡ some key)

  -- What a member with that secret takes from the `group_key_enc` of a response.
  abbrev pub opened_key : List ℕ → Text → Option (List ℕ)
  opened_key secret group_key_enc = elim (x.base.b64_decode group_key_enc) [
    | none ↦ none
    | some sealed ↦ ecies_open x.crypto secret sealed
  ]

  abbrev pub Opens : List ℕ → List ℕ → Body → Type 0
  Opens secret key (Body.joined token group_key_enc role) =
      opened_key secret group_key_enc ≡ some key
  Opens secret key body = Unit

  abbrev pub Kept : List ℕ → List Bool → Config → Tables → Type 0
  Kept key fs c t = HasKey key t

  pub keeps :
      {A : Type 0} (key : List ℕ) (q : Statement A)
      → ((t : Tables) (b64 : Text)
          → setting (codes "group_key") t ≡ some b64
          → Leaves (λ t'. setting (codes "group_key") t' ≡ some b64) (q t))
      → Preserves (Kept key) (query q)
  keeps {A} key q same = Preserves-query q λ fs c t h. (h, go t (q t) h (same t h.0 h.1))
    where
      go :
          (t : Tables) (r : DbError ⊎ (A × Tables)) (h : HasKey key t)
          → Leaves (λ t'. setting (codes "group_key") t' ≡ some h.0) r
          → Leaves (HasKey key) r
      go t (inl e) h l = tt
      go t (inr (a, t')) h l = (h.0, l, h.2)

abbrev pub Anything : Option AppError → AppState → Type 0
Anything e s = Unit

-- The statements leave a setting that is there.
pub upsert_member-setting :
    (now username pubkey hash role key value : Text) (t : Tables)
    → setting key t ≡ some value
    → Leaves (λ t'. setting key t' ≡ some value) (upsert_member now username pubkey hash role t)
unfolding upsert_member setting
upsert_member-setting now username pubkey hash role key value t h =
    elim (Bool-cases (any (has_member_hash hash) t.group.members)) [
      | inl taken ↦ rw (taken, Leaves) tt
      | inr free ↦
          rw (free, Leaves)
            (elim (Bool-cases (any (is_member username) t.group.members)) [
              | inl old ↦ rw (old, Leaves) h
              | inr new ↦ rw (new, Leaves) h
            ])
    ]

found_setting :
    (key value : Text) (rs ks : List Setting)
    → elim (find (λ (r : Setting). text_eq r.key key) rs) [ none ↦ none | some r ↦ some r.value ]
      ≡ some value
    → elim (find (λ (r : Setting). text_eq r.key key) (rs ++ ks)) [
      | none ↦ none
      | some r ↦ some r.value
    ]
      ≡ some value
found_setting key value rs ks = elim (Option-cases (find (λ (r : Setting). text_eq r.key key) rs)) [
  | inl missing ↦ rw missing (λ h. cc h)
  | inr (r, hit) ↦ rw (hit, find-append_old _ rs ks hit) (λ h. h)
]

insert_setting-setting :
    (new_key new_value key value : Text) (t : Tables)
    → setting key t ≡ some value
    → Leaves (λ t'. setting key t' ≡ some value) (insert_setting new_key new_value t)
unfolding insert_setting setting
insert_setting-setting new_key new_value key value t h =
    elim (Bool-cases (any (λ (r : Setting). text_eq r.key new_key) t.group.settings)) [
      | inl taken ↦ rw (taken, Leaves) tt
      | inr free ↦ rw (free, Leaves) (found_setting key value t.group.settings _ h)
    ]

pub insert_setting-new :
    (key value : Text) (t : Tables)
    → setting key t ≡ none
    → Leaves (λ t'. setting key t' ≡ some value) (insert_setting key value t)
unfolding insert_setting setting
insert_setting-new key value t h =
    elim (Bool-cases (any (λ (r : Setting). text_eq r.key key) t.group.settings)) [
      | inl taken ↦ rw (taken, Leaves) tt
      | inr free ↦
          rw
            (
              free,
              Leaves,
              setting,
              find-append (λ (r : Setting). text_eq r.key key) t.group.settings
                  (record { key = key; value = value }) (find-any _ t.group.settings free)
                  ((text_eq_iff key key).1 refl),
            )
            refl
    ]

module _ (x : GroupExtern) where
  pub join-Kept :
      (key : List ℕ) (rq : Request) (dice : Dice) (body : JoinReq)
      → Preserves (Kept x key) (group_join x rq dice body)
  join-Kept key =
      group_join-Preserves (Kept x key) x (λ fs c t h. h)
        (λ now username pubkey hash role.
          keeps x key _
            (λ t value h. upsert_member-setting now username pubkey hash role _ value t h))
        (λ new_key new_value.
          keeps x key _ (λ t value h. insert_setting-setting new_key new_value _ value t h))

  delete-Kept :
      (key : List ℕ) (username : Text) → Preserves (Kept x key) (query (delete_member username))
  unfolding delete_member setting
  delete-Kept key username = keeps x key _ (λ t value h. h)

  insert_message-Kept :
      (key : List ℕ) (sender content : Text) (ts : ℕ)
      → Preserves (Kept x key) (query (insert_message sender content ts))
  unfolding insert_message setting
  insert_message-Kept key sender content ts = keeps x key _ (λ t value h. h)

  trim_messages-Kept :
      (key : List ℕ) (limit : ℕ) → Preserves (Kept x key) (query (trim_messages limit))
  unfolding trim_messages setting
  trim_messages-Kept key limit = keeps x key _ (λ t value h. h)

  post-Kept :
      (key : List ℕ) (ts : ℕ) (k : Socket) (content : Text)
      → Preserves (Kept x key) (post ts k content)
  unfolding post
  post-Kept key ts k content =
      search (preserves_rules, insert_message-Kept, trim_messages-Kept, broadcast-Preserves) depth
        12

  pub from_Kept :
      {A : Type 0} (key : List ℕ) (m : Action A) (s : AppState)
      → Preserves (Kept x key) m
      → HasKey x key s.pool
      → Post (λ a s'. HasKey x key s'.pool) Anything (m s)
  from_Kept key m s p h =
      Post-weaken (λ a s'. HasKey x key s'.pool) (λ e s'. HasKey x key s'.pool)
        (λ a s'. HasKey x key s'.pool) Anything (m s) (p.at s h) (λ a s' h'. h') (λ e s' h'. tt)

  pub run-Kept :
      (key : List ℕ) (es : List Event) (w : World)
      → HasKey x key w.state.pool
      → HasKey x key (run x es w).state.pool
  run-Kept key es w h =
      run-OnTables (Kept x key) x
        (record { later = λ fs c t k. k; join = join-Kept key; delete = delete-Kept key })
        (post-Kept key) es w h
