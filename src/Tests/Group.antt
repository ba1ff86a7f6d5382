-- ===== src/Tests/Group.antt =====
-- The theorems on the group (src/group.rs) in the sample world.
use naleystogramm_server.Base.{
  refl, insert, remove, ◌⊎◌, text_eq, arith, count_where, length, ◌≤◌, ◌≡◌, ◌≢◌, false, true, [],
  ◌∷◌, some, codes,
}
use naleystogramm_server.Frames.{Frame}
use naleystogramm_server.Action.{ok, ◌>>=◌}
use naleystogramm_server.Error.{Response}
use naleystogramm_server.Tables.{migrate}
use naleystogramm_server.State.{AppState, new}
use naleystogramm_server.Group.{recent_posts}
use naleystogramm_server.Group.Broadcast.{broadcast, subscribe, unsubscribe, drop_receiver}
use naleystogramm_server.Action.{ok, ◌>>=◌}
use naleystogramm_server.Group.Runs.{run, start}
use naleystogramm_server.Group.Valid.{IsGroupValid}
use naleystogramm_server.Group.Validity.{run-IsGroupValid}
use naleystogramm_server.Group.Recent.{last_n}
use naleystogramm_server.Group.History.{log, recent_posts-run}
use naleystogramm_server.Group.Copies.{queued, broadcast-copies}
use naleystogramm_server.Group.Roles.{is_owner}
use naleystogramm_server.Group.Reconnect.{reconnected, socket_at, close_socket-subscribe}
use naleystogramm_server.Group.Sockets.{breaks, has_sender, on_recv, close_socket}
use naleystogramm_server.Group.Limits.{run-max_members}
use naleystogramm_server.Relay.{relay_create}
use naleystogramm_server.Start
use naleystogramm_server.Start.GroupMode.{relay_create-start}
use naleystogramm_server.Tests.Samples.{world, config, state, request}
use naleystogramm_server.Tests.GroupSamples.{group_world, events}

run-IsGroupValid_example :
    IsGroupValid
      (run group_world events
        (start (new migrate (false ∷ true ∷ []) config (codes "group")))).state.pool.group
run-IsGroupValid_example =
    run-IsGroupValid group_world events (false ∷ true ∷ []) config (codes "group")

recent_posts-run_example :
    let w = start (new migrate [] config (codes "group")) in
    recent_posts 1000 (run group_world events w).state.pool ≡ last_n 1000 (log group_world events w)
recent_posts-run_example = recent_posts-run group_world events config (codes "group")

abbrev two_conns : AppState
two_conns = record state {
  group_conns = (codes "ann", 3) ∷ (codes "bob", 4) ∷ [];
  group_queues = (3, []) ∷ (4, Frame.leave (codes "eve") ∷ []) ∷ [];
}

broadcast-copies_example :
    queued 4 (broadcast (Frame.leave (codes "dan")) two_conns).1.group_queues
    ≡ some (Frame.leave (codes "eve") ∷ Frame.leave (codes "dan") ∷ [])
broadcast-copies_example = broadcast-copies (Frame.leave (codes "dan")) 4 two_conns

relay_create-start_example :
    let s = (run group_world events (start (Start.start [] config (codes "group")).state)).state in
    let r =
      relay_create world (request (codes "naleys_01")) (codes "5f3c") (codes "11") (codes "22") s in
    ((answer : Response) → r.0 ≢ ok answer) × (r.1.relay_init ≡ s.relay_init)
relay_create-start_example =
    relay_create-start group_world events [] config (codes "group") (request (codes "naleys_01"))
      (codes "5f3c") (codes "11") (codes "22")

run-max_members_example :
    let ms =
      (run group_world events
        (start (new migrate [] config (codes "group")))).state.pool.group.members in
    (count_where is_owner ms ≤ 1) × ((config.group.max_members ≡ 0) ⊎ (length ms ≤ 100))
run-max_members_example = run-max_members group_world events config (codes "group")

abbrev before_bob : AppState
before_bob = record state { group_conns = (codes "ann", 3) ∷ []; next_channel = 5 }

close_socket-subscribe_example :
    let s = reconnected (codes "bob") (codes "member") before_bob in
    (has_sender 6 s ≡ false)
    × ((on_recv true (socket_at 6 (codes "bob") (codes "member")) s).0 ≡ ok breaks)
unfolding close_socket text_eq subscribe unsubscribe broadcast drop_receiver ◌>>=◌ insert remove
close_socket-subscribe_example =
    close_socket-subscribe (codes "bob") (codes "member") true before_bob (omega arith, tt) refl
