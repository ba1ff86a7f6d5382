-- ===== src/Group/Limits.antt =====
-- The joins of src/group.rs, for the number of members and of owners.
use naleystogramm_server.Config.{Config}
use naleystogramm_server.Base.{
  ℕ, ◌≤◌, ◌≡◌, refl, sym, ap, subst, inl, inr, ◌⊎◌, Bool, true, false, List, [], Option, Text,
  arith, codes, count_where, length, ltb, leb, Bool-cases, if◌then◌else◌,
}
use naleystogramm_server.Error.{AppError, db, StatusCode, refusal, DbError}
use naleystogramm_server.Frames.{Frame}
use naleystogramm_server.Tables.{
  Tables, Member, Statement, migrate, select, upsert_member, insert_setting,
}
use naleystogramm_server.Tables.Kept.{Leaves}
use naleystogramm_server.Tables.Valid.{migrate-group}
use naleystogramm_server.State.{AppState, new}
use naleystogramm_server.Action.{unwrap_or, gets, err, Action, ok, query, pure, ◌>>=◌}
use naleystogramm_server.Action.Rules.{
  Post, Post-bind, Post-weaken, calm, bind-ok, unwrap_or-select,
}
use naleystogramm_server.Action.Preserves.{Preserves, OnTables}
use naleystogramm_server.Discovery.Requests.{Request}
use naleystogramm_server.Group.{
  GroupExtern, JoinReq, Dice, member_count, group_full, admit, join_current, group_join,
}
use naleystogramm_server.Group.Joins.{
  check_member_key-Preserves, or_internal-Preserves, get_or_create_group_key-Preserves,
  seal-Preserves, broadcast-Preserves,
}
use naleystogramm_server.Group.Kept.{run-OnTables}
use naleystogramm_server.Group.Names.{joining_role}
use naleystogramm_server.Group.Runs.{Event, start, run}
use naleystogramm_server.Group.Unchanged.{run-config}
use naleystogramm_server.Group.Roles.{
  HasRoom, is_owner, Held, later-Held, leaves, upsert_member-Held, insert_setting-members,
  delete_member-Held, post-Held, spare_Held,
}

abbrev Anyhow : Option AppError → AppState → Type 0
Anyhow e s = OnTables (Held 0) s

-- What keeps a spare place keeps what there is, an error included.
from_spare :
    {A : Type 0} (m : Action A) (s : AppState)
    → Preserves (Held 1) m
    → OnTables (Held 1) s
    → Post (λ a s'. OnTables (Held 1) s') Anyhow (m s)
from_spare m s p h =
    Post-weaken (λ a s'. OnTables (Held 1) s') (λ e s'. OnTables (Held 1) s')
      (λ a s'. OnTables (Held 1) s') Anyhow (m s) (p.at s h) (λ a s' h'. h')
      (λ e s' h'. spare_Held s'.faults s'.config s'.pool h')

calm_state : (s : AppState) → s.faults ≡ [] → calm s ≡ s
calm_state s e = ap (λ fs. record s { faults = fs }) (sym e)

-- A count in a state that fails nothing.
member_count-Held :
    (spare : ℕ) (s : AppState)
    → OnTables (Held spare) s
    → member_count s ≡ (ok (length s.pool.group.members), s)
unfolding member_count
member_count-Held spare s h =
    subst
      (λ s'.
        unwrap_or 0 (query (select (λ t. length t.group.members))) s'
        ≡ (ok (length s.pool.group.members), s'))
      (calm_state s h.no_faults) (unwrap_or-select 0 (λ t. length t.group.members) s)

group_full-Held :
    (s : AppState)
    → OnTables (Held 0) s
    → Post
        (λ full s'. OnTables (Held 0) s' × (full ≡ false → OnTables (Held 1) s'))
        Anyhow
        (group_full s)
unfolding group_full gets ◌>>=◌ pure
group_full-Held s h = elim (Bool-cases (ltb 0 s.config.group.max_members)) [
  | inl limited ↦ rw limited (
      subst (Post (λ full s'. OnTables (Held 0) s' × (full ≡ false → OnTables (Held 1) s')) Anyhow)
        (sym (
          bind-ok member_count (λ cnt. pure (leb s.config.group.max_members cnt))
            (member_count-Held 0 s h)))
        (
          h,
          λ free. record {
            no_faults = h.no_faults;
            owners = h.owners;
            room = λ l. ground (arith, free);
          },
        ))
  | inr unlimited ↦ rw unlimited (
    h,
    λ free. record { no_faults = h.no_faults; owners = h.owners; room = λ l. cc (l, unlimited) },
  )
]

-- A statement that fails by itself or leaves the members as they should be.
query-Held :
    {A : Type 0} (q : Statement A) (s : AppState)
    → OnTables (Held 1) s
    → Leaves (Held 0 [] s.config) (q s.pool)
    → Post (λ a s'. OnTables (Held 0) s') Anyhow (query q s)
unfolding query
query-Held {A} q s h l =
    subst (λ s'. Post (λ a s''. OnTables (Held 0) s'') Anyhow (query q s'))
      (calm_state s h.no_faults) (go (q s.pool) l)
  where
    go :
        (r : DbError ⊎ (A × Tables))
        → Leaves (Held 0 [] s.config) r
        → Post {A = A}
            (λ a s'. OnTables (Held 0) s')
            Anyhow
            (elim r [
              | inl e ↦ (err (db e), calm s)
              | inr (a, t) ↦ (ok a, record (calm s) { pool = t })
            ])
    go (inl e) l =
        spare_Held [] s.config s.pool (subst (λ fs. Held 1 fs s.config s.pool) h.no_faults h)
    go (inr (a, t)) l = l

limit :
    (c : Config) (ms : List Member)
    → HasRoom 0 c ms
    → (c.group.max_members ≡ 0) ⊎ (length ms ≤ c.group.max_members)
limit c ms room = elim (Bool-cases (ltb 0 c.group.max_members)) [
  | inl limited ↦ inr (omega (arith, room limited))
  | inr unlimited ↦ inl (ground arith)
]

module _ (x : GroupExtern) where
  admit-Held :
      (rq : Request) (dice : Dice) (body : JoinReq) (sealed : List ℕ) (s : AppState)
      → OnTables (Held 1) s
      → Post (λ r s'. OnTables (Held 0) s') Anyhow (admit x rq dice body sealed s)
  unfolding admit pure
  admit-Held rq dice body sealed s h =
      subst (Post (λ r s'. OnTables (Held 0) s') Anyhow)
        (sym (bind-ok member_count _ (member_count-Held 1 s h)))
        (Post-bind (λ a s'. OnTables (Held 0) s') Anyhow (λ r s'. OnTables (Held 0) s') _ _ s
          (query-Held (upsert_member _ _ _ _ _) s h (
            upsert_member-Held _ _ _ _ s.config s.pool
              (subst (λ fs. Held 1 fs s.config s.pool) h.no_faults h)))
          λ u s1 h1.
            Post-bind (λ a s'. OnTables (Held 0) s') Anyhow (λ r s'. OnTables (Held 0) s') _ _ s1
              ((broadcast-Preserves (Held 0)
                  (Frame.join body.username (joining_role s.pool.group.members))).at
                s1 h1)
              λ v s2 h2. h2)

  join_current-Held :
      (rq : Request) (dice : Dice) (body : JoinReq) (s : AppState)
      → OnTables (Held 1) s
      → Post (λ r s'. OnTables (Held 0) s') Anyhow (join_current x rq dice body s)
  unfolding join_current
  join_current-Held rq dice body s h =
      Post-bind (λ a s'. OnTables (Held 1) s') Anyhow (λ r s'. OnTables (Held 0) s') _ _ s
        (from_spare _ s (check_member_key-Preserves (Held 1) x body.pubkey) h)
        λ recipient s1 h1.
          Post-bind (λ a s'. OnTables (Held 1) s') Anyhow (λ r s'. OnTables (Held 0) s') _ _ s1
            (from_spare _ s1
              (or_internal-Preserves (Held 1) x _ (
                get_or_create_group_key-Preserves (Held 1) (later-Held 1) x dice.key (λ key value.
                  leaves 1 (insert_setting key value) (insert_setting-members key value))))
              h1)
            λ key s2 h2.
              Post-bind (λ a s'. OnTables (Held 1) s') Anyhow (λ r s'. OnTables (Held 0) s') _ _ s2
                (from_spare _ s2 (seal-Preserves (Held 1) x dice recipient key) h2)
                λ sealed s3 h3. admit-Held rq dice body sealed s3 h3

  group_join-Held :
      (rq : Request) (dice : Dice) (body : JoinReq) → Preserves (Held 0) (group_join x rq dice body)
  unfolding group_join pure
  group_join-Held rq dice body = record {
    at = λ s h.
        Post-bind (λ full s'. OnTables (Held 0) s' × (full ≡ false → OnTables (Held 1) s')) Anyhow
          (λ r s'. OnTables (Held 0) s') _ _ s (group_full-Held s h)
          (λ full s1 h1. decided rq dice body full s1 h1);
  }
    where
      decided :
          (rq : Request) (dice : Dice) (body : JoinReq) (full : Bool) (s : AppState)
          → OnTables (Held 0) s × (full ≡ false → OnTables (Held 1) s)
          → Post
              (λ r s'. OnTables (Held 0) s')
              Anyhow
              ((if full
                  then pure (refusal StatusCode.forbidden (codes "group_full"))
                  else join_current x rq dice body)
                s)
      decided rq dice body true s h = h.0
      decided rq dice body false s h = join_current-Held rq dice body s (h.1 refl)

  -- From a new database that fails nothing, after any requests and any turns of the sockets, the
  -- group has at most one owner and, where `max_members` is not 0, at most that many members.
  pub run-max_members :
      (es : List Event) (config : Config) (mode : Text)
      → let ms = (run x es (start (new migrate [] config mode))).state.pool.group.members in
        (count_where is_owner ms ≤ 1)
        × ((config.group.max_members ≡ 0) ⊎ (length ms ≤ config.group.max_members))
  unfolding new
  run-max_members es config mode =
      let w = start (new migrate [] config mode) in
      let s = (run x es w).state in
      let h : OnTables (Held 0) s =
        run-OnTables (Held 0) x
          (record { later = later-Held 0; join = group_join-Held; delete = delete_member-Held })
          post-Held es w
          (record {
            no_faults = refl;
            owners = rw migrate-group (omega arith);
            room = rw migrate-group (λ l. omega arith);
          }) in
      (
        h.owners,
        limit config s.pool.group.members
            (subst (λ c. HasRoom 0 c s.pool.group.members) (run-config config x es w refl) h.room),
      )
