-- ===== src/Group/Joins.antt =====
-- The parts of `group_join` (src/group.rs) that keep a property which reading keeps.
use naleystogramm_server.Config.{Config}
use naleystogramm_server.Base.{ℕ, inl, inr, ◌⊎◌, Bool, List, Option, none, some, Text, codes}
use naleystogramm_server.Error.{internal}
use naleystogramm_server.Frames.{Frame}
use naleystogramm_server.Tables.{Tables, select, insert_setting, setting, upsert_member}
use naleystogramm_server.State.{AppState}
use naleystogramm_server.Action.{
  Action, Result, ok, err, panicked, ◌>>◌, query, throw, pure, ok_or, later_faults,
}
use naleystogramm_server.Action.Rules.{Post}
use naleystogramm_server.Action.Preserves.{
  Preserves, OnTables, Preserves-query, Preserves-throw, Preserves-pure, Preserves-ok_or,
  Preserves-bind, Preserves-if, preserves_rules,
}
use naleystogramm_server.Group.{
  GroupExtern, JoinReq, Dice, as_internal, or_internal, admit, join_current, group_join,
  member_count, group_full, get_or_create_group_key, seal, check_member_key,
}
use naleystogramm_server.Discovery.Requests.{Request}
use naleystogramm_server.Group.Sealing.{ecies_encrypt}
use naleystogramm_server.Group.Broadcast.{broadcast}

module _ (P : List Bool → Config → Tables → Type 0) where
  pub broadcast-Preserves : (frame : Frame) → Preserves P (broadcast frame)
  unfolding broadcast
  broadcast-Preserves frame = record { at = λ s h. h }

  module _
      (later : (fs : List Bool) (c : Config) (t : Tables)
        → P fs c t
        → P (later_faults fs) c t) where
    pub select-Preserves : {A : Type 0} (f : Tables → A) → Preserves P (query (select f))
    select-Preserves f = Preserves-query (select f) (λ fs c t h. (later fs c t h, later fs c t h))

    pub member_count-Preserves : Preserves P member_count
    unfolding member_count
    member_count-Preserves = search (preserves_rules, select-Preserves) depth 8

    pub group_full-Preserves : Preserves P group_full
    unfolding group_full
    group_full-Preserves = search (preserves_rules, select-Preserves) depth 12

    pub get_or_create_group_key-Preserves :
        (x : GroupExtern) (fresh : List ℕ)
        → ((key value : Text) → Preserves P (query (insert_setting key value)))
        → Preserves P (get_or_create_group_key x fresh)
    unfolding get_or_create_group_key
    get_or_create_group_key-Preserves x fresh inserts =
        Preserves-bind _ _ (select-Preserves (setting (codes "group_key"))) λ row. go row
      where
        go :
            (row : Option Text)
            → Preserves P (elim row as (λ _. Action (List ℕ)) [
              | some b64 ↦ ok_or (x.base.b64_decode b64) (internal (x.describe_b64 b64))
              | none ↦
                  query (insert_setting (codes "group_key") (x.base.b64_encode fresh)) >> pure fresh
            ])
        go none = Preserves-bind _ _ (inserts _ _) (λ _. Preserves-pure fresh)
        go (some b64) = Preserves-ok_or _ _

  module _ (x : GroupExtern) where
    -- The parts of a join that write nothing but through their statements.
    pub or_internal-Preserves :
        {A : Type 0} (m : Action A) → Preserves P m → Preserves P (or_internal x.describe m)
    unfolding or_internal
    or_internal-Preserves {A} m h = record { at = λ s p. go (m s) (h.at s p) }
      where
        go :
            (r : Result A × AppState)
            → Post (λ _ s'. OnTables P s') (λ _ s'. OnTables P s') r
            → Post (λ _ s'. OnTables P s') (λ _ s'. OnTables P s') (as_internal x.describe r.0, r.1)
        go (ok a, s) p = p
        go (err e, s) p = p
        go (panicked, s) p = p

    pub seal-Preserves :
        (dice : Dice) (recipient_pub group_key : List ℕ)
        → Preserves P (seal x dice recipient_pub group_key)
    unfolding seal
    seal-Preserves dice recipient_pub group_key =
        go (ecies_encrypt x.crypto dice.ephemeral dice.nonce recipient_pub group_key)
      where
        go :
            (r : Text ⊎ List ℕ)
            → Preserves P (elim r as (λ _. Action (List ℕ)) [
              | inl e ↦ throw (internal e)
              | inr sealed ↦ pure sealed
            ])
        go (inl e) = Preserves-throw _
        go (inr sealed) = Preserves-pure sealed

    pub check_member_key-Preserves : (pubkey : Text) → Preserves P (check_member_key x pubkey)
    unfolding check_member_key
    check_member_key-Preserves pubkey = search preserves_rules depth 10

  -- A join keeps what its two statements and reading keep.
  module _ (x : GroupExtern)
      (later : (fs : List Bool) (c : Config) (t : Tables) → P fs c t → P (later_faults fs) c t)
      (upserts : (now username pubkey hash role : Text)
        → Preserves P (query (upsert_member now username pubkey hash role)))
      (inserts : (key value : Text) → Preserves P (query (insert_setting key value))) where
    admit-Preserves :
        (rq : Request) (dice : Dice) (body : JoinReq) (sealed : List ℕ)
        → Preserves P (admit x rq dice body sealed)
    unfolding admit
    admit-Preserves rq dice body sealed = Preserves-bind _ _ (member_count-Preserves later) λ cnt.
        Preserves-bind _ _ (upserts _ _ _ _ _)
          λ _. Preserves-bind _ _ (broadcast-Preserves _) λ _. Preserves-pure _

    join_current-Preserves :
        (rq : Request) (dice : Dice) (body : JoinReq) → Preserves P (join_current x rq dice body)
    unfolding join_current
    join_current-Preserves rq dice body =
        Preserves-bind _ _ (check_member_key-Preserves x _) λ recipient.
          Preserves-bind _ _
            (or_internal-Preserves x _ (get_or_create_group_key-Preserves later x dice.key inserts))
            λ key.
              Preserves-bind _ _ (seal-Preserves x dice recipient key)
                λ sealed. admit-Preserves rq dice body sealed

    pub group_join-Preserves :
        (rq : Request) (dice : Dice) (body : JoinReq) → Preserves P (group_join x rq dice body)
    unfolding group_join
    group_join-Preserves rq dice body =
        Preserves-bind _ _ (group_full-Preserves later)
          λ full. Preserves-if full _ _ (Preserves-pure _) (join_current-Preserves rq dice body)
