-- ===== src/Group/Reconnect.antt =====
-- A member of src/group.rs who connects a second time.
use naleystogramm_server.Base.{
  ℕ, suc, ◌<◌, ◌≡◌, refl, ◌∙◌, ap, inl, inr, Bool, false, [], ◌∷◌, Text, text_eq, text_eq_refl,
  arith, ◌==◌, any, All, HashMap, insert, remove, Bool-cases,
}
use naleystogramm_server.State.{AppState}
use naleystogramm_server.Action.{ok, ◌>>=◌}
use naleystogramm_server.Group.Broadcast.{subscribe, unsubscribe, broadcast, drop_receiver}
use naleystogramm_server.Group.Sockets.{Socket, breaks, has_sender, queue_of, on_recv, close_socket}

remove-insert : (k : Text) (v : ℕ) (m : HashMap ℕ) → remove k (insert k v m) ≡ remove k m
unfolding remove insert
remove-insert k v [] = ground (arith, text_eq_refl k)
remove-insert k v ((j, w) ∷ m) = elim (Bool-cases (text_eq j k)) [
  | inl own ↦ ground (arith, text_eq_refl k)
  | inr other ↦ ground (arith, remove-insert k v m)
]

no_sender :
    (k : Text) (n : ℕ) (m : HashMap ℕ)
    → All (λ (e : Text × ℕ). e.1 < n) m
    → any (λ (e : Text × ℕ). e.1 == suc n) (remove k m) ≡ false
unfolding remove
no_sender k n [] h = refl
no_sender k n ((j, w) ∷ m) h = ground (arith, no_sender k n m h.1, h.0)

ends :
    (sent : Bool) (k : Socket) (s : AppState)
    → has_sender k.channel s ≡ false
    → queue_of k.channel s ≡ []
    → (on_recv sent k s).0 ≡ ok breaks
unfolding on_recv
ends sent k s gone empty = rw (on_recv, empty, gone) refl

-- The first socket of a member, and the second.
abbrev pub socket_at : ℕ → Text → Text → Socket
socket_at c username role = record { channel = c; username = username; role = role }

-- A member connects, connects again, and the handler of the first socket ends.
abbrev pub reconnected : Text → Text → AppState → AppState
reconnected username role s =
    (close_socket (socket_at s.next_channel username role)
      (subscribe username (subscribe username s).1).1).1

-- A member connects, connects again while the first socket is open, and the first socket's handler
-- ends: it takes the sender of the second along, so that the second socket's handler ends too when
-- nothing waits in its channel. The channels of the members in the map are older than the two.
pub close_socket-subscribe :
    (username role : Text) (sent : Bool) (s : AppState)
    → All (λ (e : Text × ℕ). e.1 < s.next_channel) s.group_conns
    → queue_of (suc s.next_channel) (reconnected username role s) ≡ []
    → let s' = reconnected username role s in
      (has_sender (suc s.next_channel) s' ≡ false)
      × ((on_recv sent (socket_at (suc s.next_channel) username role) s').0 ≡ ok breaks)
unfolding close_socket unsubscribe broadcast drop_receiver subscribe ◌>>=◌
close_socket-subscribe username role sent s older empty =
    let n = s.next_channel in
    let s' = reconnected username role s in
    let gone : has_sender (suc n) s' ≡ false =
      ap (λ m. any (λ (e : Text × ℕ). e.1 == suc n) m)
        (remove-insert username (suc n) (insert username n s.group_conns)
          ∙ remove-insert username n s.group_conns)
      ∙ no_sender username n s.group_conns older in
    (gone, ends sent (socket_at (suc n) username role) s' gone empty)
