-- ===== src/Group/Runs.antt =====
-- Runs of the group server (src/group.rs): its requests, and the turns of its sockets, in any order.
use naleystogramm_server.Base.{
  ℕ, Bool, List, [], ◌∷◌, ◌++◌, map, Option, none, some, Text, find, delete_where, ◌==◌,
}
use naleystogramm_server.Frames.{Frame, Incoming}
use naleystogramm_server.Error.{Response}
use naleystogramm_server.State.{AppState}
use naleystogramm_server.Action.{Action, Result, ok, err, panicked}
use naleystogramm_server.Discovery.Requests.{Request}
use naleystogramm_server.Group.{
  GroupExtern, JoinReq, Dice, group_join, group_leave, group_members, group_history, group_info,
}
use naleystogramm_server.Group.Sockets
use naleystogramm_server.Group.Sockets.{
  Socket, Turn, goes_on, breaks, group_ws, open_socket, on_incoming, on_recv, close_socket,
}

-- `router` of src/group.rs, but for the WebSocket.
pub data Endpoint : Type 0 where
  info members history leave : Endpoint
  join : Dice → JoinReq → Endpoint

-- The shared state, the sockets whose loops run, and all frames that sockets have sent, with the
-- channel of the socket, oldest first.
pub record World : Type 0 where
  pub state : AppState
  pub sockets : List Socket
  pub sent : List (ℕ × Frame)

-- A request; a WebSocket request; a turn of the socket with that channel, in which the peer's frame
-- comes in, or one from its channel, which the peer's socket takes or does not.
pub data Event : Type 0 where
  call : Endpoint → Request → Event
  connect : Option Text → Event
  incoming : ℕ → ℕ → Incoming → Event
  recv : ℕ → Bool → Event

abbrev pub socket_of : ℕ → World → Option Socket
socket_of c w = find (λ k. k.channel == c) w.sockets

-- The socket's loop has had a turn.
unfoldable pub after_turn : Socket → Result Turn × AppState → World → World
after_turn k (ok (goes_on frames), s) w = record w {
  state = s;
  sent = w.sent ++ map (λ (f : Frame). (k.channel, f)) frames;
}
after_turn k (ok breaks, s) w = record w {
  state = (close_socket k s).1;
  sockets = delete_where (λ j. j.channel == k.channel) w.sockets;
}
after_turn k (err e, s) w = record w { state = s }
after_turn k (panicked, s) w = record w { state = s }

unfoldable pub turn : ℕ → (Socket → Action Turn) → World → World
turn c act w = elim (socket_of c w) [ none ↦ w | some k ↦ after_turn k (act k w.state) w ]

unfoldable pub after_open : Result (Socket × List Frame) × AppState → World → World
after_open (ok (k, frames), s) w = record {
  state = s;
  sockets = w.sockets ++ k ∷ [];
  sent = w.sent ++ map (λ (f : Frame). (k.channel, f)) frames;
}
after_open (err e, s) w = record w { state = s }
after_open (panicked, s) w = record w { state = s }

unfoldable pub after_connect : Result Sockets.Opened × AppState → World → World
unfolding after_open
after_connect (ok (Sockets.Opened.member username role), s) w =
    after_open (open_socket username role s) w
after_connect (ok (Sockets.Opened.refused r), s) w = record w { state = s }
after_connect (err e, s) w = record w { state = s }
after_connect (panicked, s) w = record w { state = s }

module _ (x : GroupExtern) where
  unfoldable pub route : Endpoint → Request → Action Response
  route Endpoint.info rq = group_info
  route Endpoint.members rq = group_members x rq
  route Endpoint.history rq = group_history x rq
  route Endpoint.leave rq = group_leave x rq
  route (Endpoint.join dice body) rq = group_join x rq dice body

  unfoldable pub step : Event → World → World
  unfolding turn after_turn after_connect
  step (call e rq) w = record w { state = (route e rq w.state).1 }
  step (connect token) w = after_connect (group_ws x token w.state) w
  step (incoming c ts i) w = turn c (λ k. on_incoming ts k i) w
  step (recv c sent) w = turn c (on_recv sent) w

  unfoldable pub run : List Event → World → World
  run [] w = w
  run (e ∷ es) w = run es (step e w)

-- The group server when it starts.
abbrev pub start : AppState → World
start s = record { state = s; sockets = []; sent = [] }
