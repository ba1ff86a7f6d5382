-- ===== src/Group/Kept.antt =====
-- A property of the group's database holds after any run of src/group.rs if three operations keep
-- it: the join, the deletion of a member, and the post of a message.
use naleystogramm_server.Config.{Config}
use naleystogramm_server.Base.{
  ℕ, ◌≡◌, refl, inl, inr, Bool, List, [], ◌∷◌, Option, none, some, Text, Option-cases,
}
use naleystogramm_server.Frames.{Frame, Incoming}
use naleystogramm_server.Tables.{Tables, select, delete_member}
use naleystogramm_server.State.{AppState}
use naleystogramm_server.Action.{Action, Result, ok, err, panicked, query, later_faults}
use naleystogramm_server.Action.Rules.{Post, post-always}
use naleystogramm_server.Action.Preserves.{Preserves, OnTables, Preserves-pure, preserves_rules}
use naleystogramm_server.Discovery.Requests.{Request}
use naleystogramm_server.Group.{
  GroupExtern, JoinReq, Dice, resolve_member, group_join, group_leave, group_members, group_history,
  group_info,
}
use naleystogramm_server.Group.Broadcast.{broadcast, subscribe, unsubscribe, drop_receiver}
use naleystogramm_server.Group.Joins.{select-Preserves, broadcast-Preserves}
use naleystogramm_server.Group.Sockets
use naleystogramm_server.Group.Sockets.{
  Socket, Turn, goes_on, breaks, group_ws, open_socket, post, on_incoming, on_recv, close_socket,
  queue_of, is_msg, is_reader, text_of, forbidden_frame,
}
use naleystogramm_server.Group.Runs.{
  World, Event, call, connect, incoming, recv, Endpoint, socket_of, turn, after_turn, after_open,
  after_connect, route, step, run,
}
use naleystogramm_server.Group.Runs

module _ (P : List Bool → Config → Tables → Type 0) where
  pub record IsKept (x : GroupExtern) : Type 0 where
    pub later : (fs : List Bool) (c : Config) (t : Tables) → P fs c t → P (later_faults fs) c t
    pub join :
        (rq : Request) (dice : Dice) (body : JoinReq) → Preserves P (group_join x rq dice body)
    pub delete : (username : Text) → Preserves P (query (delete_member username))

  subscribe-Preserves : (username : Text) → Preserves P (subscribe username)
  unfolding subscribe
  subscribe-Preserves username = record { at = λ s h. h }

  unsubscribe-Preserves : (username : Text) → Preserves P (unsubscribe username)
  unfolding unsubscribe
  unsubscribe-Preserves username = record { at = λ s h. h }

  drop_receiver-Preserves : (c : ℕ) → Preserves P (drop_receiver c)
  unfolding drop_receiver
  drop_receiver-Preserves c = record { at = λ s h. h }

  module _ (x : GroupExtern) (kept : IsKept x) where
    select_kept : {A : Type 0} (f : Tables → A) → Preserves P (query (select f))
    select_kept = select-Preserves P kept.later

    broadcast_kept : (frame : Frame) → Preserves P (broadcast frame)
    broadcast_kept = broadcast-Preserves P

    resolve_member-Preserves : (rq : Request) → Preserves P (resolve_member x rq)
    unfolding resolve_member
    resolve_member-Preserves rq = search (preserves_rules, select_kept) depth 12

    route-Preserves : (e : Endpoint) (rq : Request) → Preserves P (route x e rq)
    unfolding route group_info group_members group_history group_leave
    route-Preserves Runs.Endpoint.info rq = search (preserves_rules, select_kept) depth 12
    route-Preserves Runs.Endpoint.members rq =
        search (preserves_rules, select_kept, resolve_member-Preserves) depth 12
    route-Preserves Runs.Endpoint.history rq =
        search (preserves_rules, select_kept, resolve_member-Preserves) depth 12
    route-Preserves Runs.Endpoint.leave rq =
        search (preserves_rules, resolve_member-Preserves, kept.delete, broadcast_kept) depth 12
    route-Preserves (Runs.Endpoint.join dice body) rq = kept.join rq dice body

    open_socket-Preserves : (username role : Text) → Preserves P (open_socket username role)
    unfolding open_socket
    open_socket-Preserves username role =
        search (preserves_rules, select_kept, subscribe-Preserves) depth 12

    close_socket-Preserves : (k : Socket) → Preserves P (close_socket k)
    unfolding close_socket
    close_socket-Preserves k =
        search (preserves_rules, unsubscribe-Preserves, broadcast_kept, drop_receiver-Preserves)
          depth 12

    group_ws-Preserves : (token : Option Text) → Preserves P (group_ws x token)
    unfolding group_ws
    group_ws-Preserves none = Preserves-pure _
    group_ws-Preserves (some token) = search (preserves_rules, select_kept) depth 12

    on_recv-Preserves : (sent : Bool) (k : Socket) → Preserves P (on_recv sent k)
    unfolding on_recv
    on_recv-Preserves sent k = record { at = λ s h. go sent s h (queue_of k.channel s) refl }
      where
        go :
            (sent : Bool) (s : AppState)
            → OnTables P s
            → (l : List Frame) → queue_of k.channel s ≡ l
            → Post (λ _ s'. OnTables P s') (λ _ s'. OnTables P s') (on_recv sent k s)
        go sent s h [] e = rw (e, on_recv) h
        go sent s h (frame ∷ rest) e = rw (e, on_recv) h

    pub after_turn-OnTables :
        (k : Socket) (r : Result Turn × AppState) (w : World)
        → Post (λ _ s'. OnTables P s') (λ _ s'. OnTables P s') r
        → OnTables P (after_turn k r w).state
    unfolding after_turn
    after_turn-OnTables k (ok (goes_on frames), s) w h = h
    after_turn-OnTables k (ok breaks, s) w h =
        post-always (OnTables P) (close_socket k s) ((close_socket-Preserves k).at s h)
    after_turn-OnTables k (err e, s) w h = h
    after_turn-OnTables k (panicked, s) w h = h

    after_open-OnTables :
        (r : Result (Socket × List Frame) × AppState) (w : World)
        → Post (λ _ s'. OnTables P s') (λ _ s'. OnTables P s') r
        → OnTables P (after_open r w).state
    unfolding after_open
    after_open-OnTables (ok (k, frames), s) w h = h
    after_open-OnTables (err e, s) w h = h
    after_open-OnTables (panicked, s) w h = h

    after_connect-OnTables :
        (r : Result Sockets.Opened × AppState) (w : World)
        → Post (λ _ s'. OnTables P s') (λ _ s'. OnTables P s') r
        → OnTables P (after_connect r w).state
    unfolding after_connect
    after_connect-OnTables (ok (Sockets.Opened.member username role), s) w h =
        after_open-OnTables (open_socket username role s) w
          ((open_socket-Preserves username role).at s h)
    after_connect-OnTables (ok (Sockets.Opened.refused r), s) w h = h
    after_connect-OnTables (err e, s) w h = h
    after_connect-OnTables (panicked, s) w h = h

    pub call-OnTables :
        (e : Endpoint) (rq : Request) (w : World)
        → OnTables P w.state
        → OnTables P (step x (call e rq) w).state
    unfolding step
    call-OnTables e rq w h =
        post-always (OnTables P) (route x e rq w.state) ((route-Preserves e rq).at w.state h)

    pub connect-OnTables :
        (token : Option Text) (w : World)
        → OnTables P w.state
        → OnTables P (step x (connect token) w).state
    unfolding step
    connect-OnTables token w h =
        after_connect-OnTables (group_ws x token w.state) w
          ((group_ws-Preserves token).at w.state h)

    -- A turn of a socket keeps what its action keeps.
    pub turn-OnTables :
        (c : ℕ) (act : Socket → Action Turn) (w : World)
        → ((k : Socket) → Preserves P (act k))
        → OnTables P w.state
        → OnTables P (turn c act w).state
    unfolding turn
    turn-OnTables c act w keeps h = elim (Option-cases (socket_of c w)) [
      | inl none_there ↦ rw (none_there, turn) h
      | inr (k, e) ↦ rw (e, turn) (after_turn-OnTables k (act k w.state) w ((keeps k).at w.state h))
    ]

    pub recv-OnTables :
        (c : ℕ) (sent : Bool) (w : World)
        → OnTables P w.state
        → OnTables P (step x (recv c sent) w).state
    unfolding step
    recv-OnTables c sent w = turn-OnTables c (on_recv sent) w (on_recv-Preserves sent)

    module _
        (posts : (ts : ℕ) (k : Socket) (content : Text) → Preserves P (post ts k content)) where
      on_incoming-Preserves :
          (ts : ℕ) (k : Socket) (i : Incoming) → Preserves P (on_incoming ts k i)
      unfolding on_incoming
      on_incoming-Preserves ts k Incoming.other = Preserves-pure _
      on_incoming-Preserves ts k (Incoming.ping payload) = Preserves-pure _
      on_incoming-Preserves ts k (Incoming.text none) = Preserves-pure _
      on_incoming-Preserves ts k (Incoming.text (some v)) = search (preserves_rules, posts) depth 12

      step-OnTables : (e : Event) (w : World) → OnTables P w.state → OnTables P (step x e w).state
      unfolding step
      step-OnTables (call e rq) w h = call-OnTables e rq w h
      step-OnTables (connect token) w h = connect-OnTables token w h
      step-OnTables (incoming c ts i) w h =
          turn-OnTables c (λ k. on_incoming ts k i) w (λ k. on_incoming-Preserves ts k i) h
      step-OnTables (recv c sent) w h = recv-OnTables c sent w h

      pub run-OnTables :
          (es : List Event) (w : World) → OnTables P w.state → OnTables P (run x es w).state
      unfolding run
      run-OnTables [] w h = h
      run-OnTables (e ∷ es) w h = run-OnTables es (step x e w) (step-OnTables e w h)
