-- ===== src/Group/Sockets.antt =====
-- The WebSockets of src/group.rs: `group_ws`, and the loop of `group_ws_handler` by its turns.
use naleystogramm_server.Base.{
  ℕ, Bool, false, not, ◌&&◌, List, [], ◌∷◌, map, Option, none, some, Text, codes, text_eq, any,
  find, ◌==◌, if◌then◌else◌,
}
use naleystogramm_server.Frames.{Frame, Json, Incoming}
use naleystogramm_server.Error.{StatusCode, Body, Response}
use naleystogramm_server.Tables.{select, member_by_hash, insert_message, trim_messages}
use naleystogramm_server.State.{AppState}
use naleystogramm_server.Action.{Action, ok, ◌>>=◌, ◌>>◌, pure, gets, unwrap_or, query}
use naleystogramm_server.Auth.{hash_token}
use naleystogramm_server.Group.{GroupExtern, recent_posts, owner}
use naleystogramm_server.Group.Broadcast.{broadcast, subscribe, unsubscribe, drop_receiver}

-- A WebSocket request is refused, or opens a socket for a member.
pub data Opened : Type 0 where
  refused : Response → Opened
  member : Text → Text → Opened

-- A socket with its handler: the channel that it receives from, and the member.
pub record Socket : Type 0 where
  pub channel : ℕ
  pub username : Text
  pub role : Text

-- A turn of the loop: it goes on, after it has sent frames to the peer, or it breaks.
pub data Turn : Type 0 where
  goes_on : List Frame → Turn
  breaks : Turn

module _ (x : GroupExtern) where
  unfoldable pub group_ws : Option Text → Action Opened
  group_ws none = pure (
      Opened.refused
        (record { status = StatusCode.bad_request; body = Body.plain (codes "missing token") }))
  group_ws (some token) = do
    row ← unwrap_or none (query (select (member_by_hash (hash_token x.base token))))
    pure (elim row [
      | none ↦
          Opened.refused
            (record { status = StatusCode.unauthorized; body = Body.plain (codes "invalid token") })
      | some m ↦ Opened.member m.0 m.1
    ])

-- What `group_ws_handler` does before its loop, with the frames that it sends at once.
unfoldable pub open_socket : Text → Text → Action (Socket × List Frame)
unfolding subscribe recent_posts
open_socket username role = do
  channel ← subscribe username
  cfg ← gets (λ s. s.config.group)
  history ← unwrap_or [] (query (select (recent_posts cfg.history_limit)))
  pure (
    record { channel = channel; username = username; role = role },
    (if cfg.history then Frame.history history ∷ [] else []),
  )

abbrev pub forbidden_frame : Frame
forbidden_frame = Frame.error (codes "forbidden") (codes "only admins can post in a channel")

-- `role != "owner" && role != "admin"`
abbrev pub is_reader : Text → Bool
is_reader role = not (text_eq role owner) && not (text_eq role (codes "admin"))

-- `v["data"].as_str().unwrap_or("")`
abbrev pub text_of : Option Text → Text
text_of none = []
text_of (some t) = t

abbrev pub is_msg : Json → Bool
is_msg v = elim v.kind [ none ↦ false | some k ↦ text_eq k (codes "msg") ]

-- A message that may be posted: it is written, the history trimmed, and all told. What the database
-- fails is passed over.
unfoldable pub post : ℕ → Socket → Text → Action Turn
unfolding broadcast
post ts socket content = do
  limit ← gets (λ s. s.config.group.history_limit)
  unwrap_or tt (query (insert_message socket.username content ts))
  unwrap_or tt (query (trim_messages limit))
  broadcast (Frame.msg (record { sender = socket.username; content = content; ts = ts }))
  pure (Turn.goes_on [])

-- `msg = stream.next()`; `ts` is the clock in seconds.
unfoldable pub on_incoming : ℕ → Socket → Incoming → Action Turn
unfolding post
on_incoming ts socket Incoming.other = pure Turn.breaks
on_incoming ts socket (Incoming.ping payload) = pure (Turn.goes_on (Frame.pong payload ∷ []))
on_incoming ts socket (Incoming.text none) = pure (Turn.goes_on [])
on_incoming ts socket (Incoming.text (some v)) = do
  broadcast_only ← gets (λ s. s.config.group.broadcast_only)
  if is_msg v
      then (if broadcast_only && is_reader socket.role
          then pure (Turn.goes_on (forbidden_frame ∷ []))
          else post ts socket (text_of v.content))
      else pure (Turn.goes_on [])

-- Whether some sender of a channel is left: the map has the only ones.
abbrev pub has_sender : ℕ → AppState → Bool
has_sender c s = any (λ e. e.1 == c) s.group_conns

-- What waits in a channel.
abbrev pub queue_of : ℕ → AppState → List Frame
queue_of c s = elim (find (λ q. q.0 == c) s.group_queues) [ none ↦ [] | some q ↦ q.1 ]

abbrev set_queue : ℕ → List Frame → ℕ × List Frame → ℕ × List Frame
set_queue c rest q = if q.0 == c then (q.0, rest) else q

-- `msg = rx.recv()`: with nothing in the channel it waits, or ends if no sender is left. `sent` says
-- whether the peer's socket takes the frame.
unfoldable pub on_recv : Bool → Socket → Action Turn
on_recv sent socket s = elim (queue_of socket.channel s) [
  | [] ↦ (ok (if has_sender socket.channel s then Turn.goes_on [] else Turn.breaks), s)
  | frame ∷ rest ↦ (
    ok (if sent then Turn.goes_on (frame ∷ []) else Turn.breaks),
    record s { group_queues = map (set_queue socket.channel rest) s.group_queues },
  )
]

-- What follows the loop.
unfoldable pub close_socket : Socket → Action (Unit {0})
unfolding unsubscribe broadcast drop_receiver
close_socket socket = do
  unsubscribe socket.username
  broadcast (Frame.leave socket.username)
  drop_receiver socket.channel
