-- ===== src/Group/Broadcast.antt =====
-- `broadcast` of src/group.rs, and the channels that it sends to.
use naleystogramm_server.Base.{
  ℕ, suc, ◌==◌, List, [], ◌∷◌, ◌++◌, Text, HashMap, insert, remove, update_where, delete_where,
}
use naleystogramm_server.Frames.{Frame}
use naleystogramm_server.Action.{Action, ok}

abbrev pub Queues : Type 0
Queues = List (ℕ × List Frame)

-- `tx.send(msg).ok()`: a channel whose receiver is gone takes nothing.
abbrev pub send : Frame → ℕ → Queues → Queues
send frame c qs = update_where (λ q. q.0 == c) (λ q. (q.0, q.1 ++ frame ∷ [])) qs

abbrev pub send_all : Frame → HashMap ℕ → Queues → Queues
send_all frame [] qs = qs
send_all frame ((username, c) ∷ conns) qs = send_all frame conns (send frame c qs)

unfoldable pub broadcast : Frame → Action (Unit {0})
broadcast frame s = (ok tt, record s { group_queues = send_all frame s.group_conns s.group_queues })

-- A new channel, whose sender takes the place of the member's old one, if there is one.
unfoldable pub subscribe : Text → Action ℕ
subscribe username s = (
  ok s.next_channel,
  record s {
    group_conns = insert username s.next_channel s.group_conns;
    group_queues = s.group_queues ++ (s.next_channel, []) ∷ [];
    next_channel = suc s.next_channel;
  },
)

-- `group_conns.remove(&username)`: whichever channel the name has.
unfoldable pub unsubscribe : Text → Action (Unit {0})
unsubscribe username s = (ok tt, record s { group_conns = remove username s.group_conns })

-- The receiver is dropped with all that waits for it.
unfoldable pub drop_receiver : ℕ → Action (Unit {0})
drop_receiver c s = (ok tt, record s { group_queues = delete_where (λ q. q.0 == c) s.group_queues })
