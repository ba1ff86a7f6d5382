-- ===== src/Relay/Sockets.antt =====
-- `creator_ws` and `joiner_ws` of src/relay.rs: the two sockets of a session, by the turns of their
-- loops, and the two channels between them.
use naleystogramm_server.Base.{
  ℕ, Bool, true, false, List, [], ◌∷◌, ◌++◌, Option, none, some, Text, ◌||◌, if◌then◌else◌,
}

-- A frame of a WebSocket.
pub data WsMsg : Type 0 where
  text : Text → WsMsg
  binary ping pong : List ℕ → WsMsg
  close : WsMsg

abbrev pub data_msg : WsMsg → Bool
data_msg (WsMsg.text t) = true
data_msg (WsMsg.binary b) = true
data_msg (WsMsg.ping b) = false
data_msg (WsMsg.pong b) = false
data_msg WsMsg.close = false

-- What `stream.next()` gives: a frame, or an error or the end.
pub data Next : Type 0 where
  frame : WsMsg → Next
  nothing : Next

-- Where `creator_ws` is: in its first loop with what it has buffered, in its second loop, or at its
-- end.
pub data Creator : Type 0 where
  waiting : List WsMsg → Creator
  relaying : Creator
  finished : Creator

-- Where `joiner_ws` is.
pub data Joiner : Type 0 where
  absent running finished : Joiner

-- A session after `relay_ws` has opened its creator's socket. A channel without a receiver is
-- `none`; `ready` is the permit of `joiner_ready`; `withdrawn` says that the creator's handler has
-- removed the session from `relay_pending`; `to_a` and `to_b` have the frames that were sent to the
-- two peers, oldest first. The last fields say who is left that can send: the session, which holds a
-- sender of each channel, is held by `relay_pending`, by the creator's and by the joiner's handler,
-- and each handler has a clone of the sender that it uses.
pub record Link : Type 0 where
  pub creator : Creator
  pub joiner : Joiner
  pub ready : Bool
  pub withdrawn : Bool
  pub a_to_b : Option (List WsMsg)
  pub b_to_a : Option (List WsMsg)
  pub to_a : List WsMsg
  pub to_b : List WsMsg
  pub held_by_map : Bool
  pub held_by_creator : Bool
  pub held_by_joiner : Bool
  pub a_to_b_tx : Bool
  pub b_to_a_tx : Bool

abbrev pub opened : Link
opened = record {
  creator = waiting [];
  joiner = absent;
  ready = false;
  withdrawn = false;
  a_to_b = some [];
  b_to_a = some [];
  to_a = [];
  to_b = [];
  held_by_map = true;
  held_by_creator = true;
  held_by_joiner = false;
  a_to_b_tx = true;
  b_to_a_tx = false;
}

-- Whether somebody still holds the session.
abbrev pub is_held : Link → Bool
is_held l = l.held_by_map || l.held_by_creator || l.held_by_joiner

-- `tx.send(m).ok()`
abbrev pub put : Option (List WsMsg) → List WsMsg → Option (List WsMsg)
put none ms = none
put (some q) ms = some (q ++ ms)

-- The return of `creator_ws` drops its receiver, its sender and its hold on the session.
abbrev pub end_creator : Link → Link
end_creator l = record l {
  creator = Creator.finished;
  b_to_a = none;
  held_by_creator = false;
  a_to_b_tx = false;
}

abbrev pub end_joiner : Link → Link
end_joiner l = record l {
  joiner = Joiner.finished;
  a_to_b = none;
  held_by_joiner = false;
  b_to_a_tx = false;
}

-- The creator removes its session and returns.
abbrev pub withdraw : Link → Link
withdraw l = end_creator (record l { withdrawn = true; held_by_map = false })

-- `msg = stream.next()` of the first loop
unfoldable pub buffer_next : List WsMsg → Next → Link → Link
buffer_next pre_buffer Next.nothing l = withdraw l
buffer_next pre_buffer (Next.frame WsMsg.close) l = withdraw l
buffer_next pre_buffer (Next.frame (WsMsg.ping d)) l = record l {
  to_a = l.to_a ++ WsMsg.pong d ∷ [];
}
buffer_next pre_buffer (Next.frame (WsMsg.pong d)) l = l
buffer_next pre_buffer (Next.frame (WsMsg.text t)) l = record l {
  creator = waiting (pre_buffer ++ WsMsg.text t ∷ []);
}
buffer_next pre_buffer (Next.frame (WsMsg.binary b)) l = record l {
  creator = waiting (pre_buffer ++ WsMsg.binary b ∷ []);
}

-- `msg = stream.next()` of the second loop
unfoldable pub relay_next : Next → Link → Link
relay_next Next.nothing l = end_creator l
relay_next (Next.frame WsMsg.close) l = end_creator l
relay_next (Next.frame (WsMsg.ping d)) l = record l { to_a = l.to_a ++ WsMsg.pong d ∷ [] }
relay_next (Next.frame (WsMsg.pong d)) l = end_creator l
relay_next (Next.frame (WsMsg.text t)) l = record l { a_to_b = put l.a_to_b (WsMsg.text t ∷ []) }
relay_next (Next.frame (WsMsg.binary b)) l = record l {
  a_to_b = put l.a_to_b (WsMsg.binary b ∷ []);
}

-- `msg = b_to_a_rx.recv()`; `sent` says whether the peer's socket takes the frame. A channel that is
-- empty gives `None` once no sender is left; until then the turn waits.
unfoldable pub creator_recv : Bool → Option (List WsMsg) → Link → Link
creator_recv sent none l = l
creator_recv sent (some []) l = if is_held l || l.b_to_a_tx then l else end_creator l
creator_recv true (some (m ∷ q)) l = record l { b_to_a = some q; to_a = l.to_a ++ m ∷ [] }
creator_recv false (some (m ∷ q)) l = end_creator (record l { b_to_a = some q })

-- `msg = stream.next()` of the joiner's loop
unfoldable pub joiner_next : Next → Link → Link
joiner_next Next.nothing l = end_joiner l
joiner_next (Next.frame WsMsg.close) l = end_joiner l
joiner_next (Next.frame (WsMsg.ping d)) l = record l { to_b = l.to_b ++ WsMsg.pong d ∷ [] }
joiner_next (Next.frame (WsMsg.pong d)) l = end_joiner l
joiner_next (Next.frame (WsMsg.text t)) l = record l { b_to_a = put l.b_to_a (WsMsg.text t ∷ []) }
joiner_next (Next.frame (WsMsg.binary b)) l = record l {
  b_to_a = put l.b_to_a (WsMsg.binary b ∷ []);
}

unfoldable pub joiner_recv : Bool → Option (List WsMsg) → Link → Link
joiner_recv sent none l = l
joiner_recv sent (some []) l = if is_held l || l.a_to_b_tx then l else end_joiner l
joiner_recv true (some (m ∷ q)) l = record l { a_to_b = some q; to_b = l.to_b ++ m ∷ [] }
joiner_recv false (some (m ∷ q)) l = end_joiner (record l { a_to_b = some q })

-- A turn of one of the handlers: a frame of the creator's peer, the joiner's notification, the
-- deadline, a frame of the channel to the creator; the joiner's handler begins; a frame of the
-- joiner's peer, a frame of the channel to the joiner.
pub data Event : Type 0 where
  from_a : Next → Event
  notified : Event
  deadline : Event
  recv_a : Bool → Event
  joined : Event
  from_b : Next → Event
  recv_b : Bool → Event

unfoldable pub creator_ws : Creator → Event → Link → Link
unfolding buffer_next relay_next creator_recv
creator_ws (waiting pre_buffer) (from_a n) l = buffer_next pre_buffer n l
creator_ws (waiting pre_buffer) notified l =
    if l.ready
    then record l { ready = false; creator = relaying; a_to_b = put l.a_to_b pre_buffer }
    else l
creator_ws (waiting pre_buffer) deadline l = withdraw l
creator_ws relaying (from_a n) l = relay_next n l
creator_ws relaying (recv_a sent) l = creator_recv sent l.b_to_a l
creator_ws c e l = l

unfoldable pub joiner_ws : Joiner → Event → Link → Link
unfolding joiner_next joiner_recv
joiner_ws absent joined l = record l {
  joiner = running;
  ready = true;
  held_by_map = false;
  held_by_joiner = true;
  b_to_a_tx = true;
}
joiner_ws running (from_b n) l = joiner_next n l
joiner_ws running (recv_b sent) l = joiner_recv sent l.a_to_b l
joiner_ws j e l = l

-- Each event is a turn of one handler, and the other passes it over.
unfoldable pub step : Event → Link → Link
unfolding creator_ws joiner_ws
step (from_b n) l = joiner_ws l.joiner (from_b n) l
step (recv_b sent) l = joiner_ws l.joiner (recv_b sent) l
step joined l = joiner_ws l.joiner joined l
step e l = creator_ws l.creator e l

unfoldable pub run : List Event → Link → Link
unfolding step
run [] l = l
run (e ∷ es) l = run es (step e l)
