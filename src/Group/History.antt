-- ===== src/Group/History.antt =====
-- The history of the group (src/group.rs), against a log of all that was ever posted.
use naleystogramm_server.Base.{
  ℕ, ◌≡◌, refl, sym, ◌∙◌, ap, subst, inl, inr, Bool, not, ◌&&◌, List, [], ◌∷◌, ◌++◌, none, some,
  Text, arith, Option-cases, Bool-cases, if◌then◌else◌,
}
use naleystogramm_server.Config.{Config}
use naleystogramm_server.Frames.{Post, Json, Incoming}
use naleystogramm_server.Tables.{Tables, migrate}
use naleystogramm_server.Tables.Valid.{migrate-group}
use naleystogramm_server.State.{AppState, new}
use naleystogramm_server.Action.{◌>>=◌}
use naleystogramm_server.Action.Rules
use naleystogramm_server.Action.Rules.{calm}
use naleystogramm_server.Action.Preserves.{OnTables, Preserves-pure}
use naleystogramm_server.Group.{GroupExtern, post_of, recent_posts}
use naleystogramm_server.Group.Kept.{
  call-OnTables, connect-OnTables, recv-OnTables, turn-OnTables, after_turn-OnTables,
}
use naleystogramm_server.Group.Sockets.{Socket, is_msg, is_reader, text_of, on_incoming}
use naleystogramm_server.Group.Runs.{
  World, Event, call, connect, incoming, recv, socket_of, turn, start, step, run,
}
use naleystogramm_server.Group.Recent.{last_n, last_n-nil, last_n-map, last_n-last_n}
use mathlib.Core.List.{append-nil, append_assoc}
use naleystogramm_server.Group.Posts.{Logged, quiet, a_post, post-Logged}

-- What an event posts, apart from how it is kept: a JSON text of the type `msg`, from a socket that
-- is open, whose member is not a reader of a channel.
unfoldable pub posted : Event → World → List Post
posted (incoming c ts (Incoming.text (some v))) w = elim (socket_of c w) [
  | none ↦ []
  | some k ↦
      if is_msg v && not (w.state.config.group.broadcast_only && is_reader k.role)
      then record { sender = k.username; content = text_of v.content; ts = ts } ∷ []
      else []
]
posted (incoming c ts (Incoming.text none)) w = []
posted (incoming c ts (Incoming.ping payload)) w = []
posted (incoming c ts Incoming.other) w = []
posted (call e rq) w = []
posted (connect token) w = []
posted (recv c sent) w = []

module _ (x : GroupExtern) where
  -- All posts of a run, oldest first.
  unfoldable pub log : List Event → World → List Post
  log [] w = []
  log (e ∷ es) w = posted e w ++ log es (step x e w)

-- What a JSON text posts in a state.
abbrev posts_of : ℕ → Socket → Json → Bool → List Post
posts_of ts k v broadcast_only =
    if is_msg v && not (broadcast_only && is_reader k.role)
    then a_post ts k (text_of v.content) ∷ []
    else []

on_incoming-Logged :
    (C : Config) (l : List Post) (ts : ℕ) (k : Socket) (v : Json) (s : AppState)
    → Logged C l [] s.config s.pool
    → let l' = l ++ posts_of ts k v s.config.group.broadcast_only in
      Rules.Post
        (λ _ s'. OnTables (Logged C l') s')
        (λ _ s'. OnTables (Logged C l') s')
        (on_incoming ts k (Incoming.text (some v)) (calm s))
unfolding on_incoming ◌>>=◌
on_incoming-Logged C l ts k v s h = elim (Bool-cases (is_msg v)) [
  | inr not_msg ↦ rw not_msg (subst (λ l. Logged C l [] s.config s.pool) (sym (append-nil l)) h)
  | inl is ↦ rw is (elim (Bool-cases (s.config.group.broadcast_only && is_reader k.role)) [
    | inl reader ↦ rw reader (subst (λ l. Logged C l [] s.config s.pool) (sym (append-nil l)) h)
    | inr may ↦ rw may (post-Logged C l ts k (text_of v.content) s h)
  ])
]

module _ (x : GroupExtern) (C : Config) where
  silent :
      (l : List Post) {fs : List Bool} {c : Config} {t : Tables}
      → Logged C l fs c t
      → Logged C (l ++ []) fs c t
  silent l {fs} {c} {t} h = subst (λ l. Logged C l fs c t) (sym (append-nil l)) h

  incoming-Logged :
      (l : List Post) (c ts : ℕ) (v : Json) (w : World)
      → OnTables (Logged C l) w.state
      → OnTables
          (Logged C (l ++ posted (incoming c ts (Incoming.text (some v))) w))
          (turn c (λ k. on_incoming ts k (Incoming.text (some v))) w).state
  unfolding turn posted
  incoming-Logged l c ts v w h = elim (Option-cases (socket_of c w)) [
    | inl none_there ↦ rw (none_there, turn, posted) (silent l h)
    | inr (k, e) ↦
        rw (e, turn, posted)
          (let l' = l ++ posts_of ts k v w.state.config.group.broadcast_only in
            after_turn-OnTables (Logged C l') x (quiet x C l') k _ w (
              subst
                (λ s.
                  Rules.Post (λ _ s'. OnTables (Logged C l') s') (λ _ s'. OnTables (Logged C l') s')
                    (on_incoming ts k (Incoming.text (some v)) s))
                (ap (λ fs. record w.state { faults = fs }) (sym h.no_faults))
                (on_incoming-Logged C l ts k v w.state
                  (subst (λ fs. Logged C l fs w.state.config w.state.pool) h.no_faults h))))
  ]

  step-Logged :
      (l : List Post) (e : Event) (w : World)
      → OnTables (Logged C l) w.state
      → OnTables (Logged C (l ++ posted e w)) (step x e w).state
  unfolding posted step on_incoming
  step-Logged l (call e rq) w h = silent l (call-OnTables (Logged C l) x (quiet x C l) e rq w h)
  step-Logged l (connect token) w h =
      silent l (connect-OnTables (Logged C l) x (quiet x C l) token w h)
  step-Logged l (recv c sent) w h = silent l (recv-OnTables (Logged C l) x (quiet x C l) c sent w h)
  step-Logged l (incoming c ts (Incoming.text (some v))) w h = incoming-Logged l c ts v w h
  step-Logged l (incoming c ts (Incoming.text none)) w h =
      silent l (turn-OnTables (Logged C l) x (quiet x C l) c _ w (λ k. Preserves-pure _) h)
  step-Logged l (incoming c ts (Incoming.ping payload)) w h =
      silent l (turn-OnTables (Logged C l) x (quiet x C l) c _ w (λ k. Preserves-pure _) h)
  step-Logged l (incoming c ts Incoming.other) w h =
      silent l (turn-OnTables (Logged C l) x (quiet x C l) c _ w (λ k. Preserves-pure _) h)

  run-Logged :
      (l : List Post) (es : List Event) (w : World)
      → OnTables (Logged C l) w.state
      → OnTables (Logged C (l ++ log x es w)) (run x es w).state
  unfolding log run
  run-Logged l [] w h = silent l h
  run-Logged l (e ∷ es) w h =
      subst (λ l'. OnTables (Logged C l') (run x es (step x e w)).state)
        (append_assoc l (posted e w) (log x es (step x e w)))
        (run-Logged (l ++ posted e w) es (step x e w) (step-Logged l e w h))

first : (config : Config) (mode : Text) → OnTables (Logged config []) (new migrate [] config mode)
unfolding new last_n
first config mode = record {
  no_faults = refl;
  same = refl;
  valid = rw migrate-group (omega arith);
  kept = rw migrate-group (sym (last_n-nil config.group.history_limit));
}

module _ (x : GroupExtern) where
  -- From a new database that fails nothing, after any requests and any turns of the sockets, the
  -- history that the group shows is the last `history_limit` posts of all that were ever made, in
  -- the order in which they were made. A post is a JSON text of the type `msg` that comes in on an
  -- open socket, unless the group is `broadcast_only` and the socket's member is neither the owner
  -- nor an admin.
  pub recent_posts-run :
      (es : List Event) (config : Config) (mode : Text)
      → let w = start (new migrate [] config mode) in
        recent_posts config.group.history_limit (run x es w).state.pool
        ≡ last_n config.group.history_limit (log x es w)
  unfolding recent_posts last_n
  recent_posts-run es config mode =
      let w = start (new migrate [] config mode) in
      let n = config.group.history_limit in
      let h = run-Logged x config [] es w (first config mode) in
      sym (last_n-map post_of n (run x es w).state.pool.group.messages)
      ∙ ap (last_n n) h.kept
      ∙ last_n-last_n n (log x es w)
