-- ===== src/Relay/Exchange.antt =====
-- Runs of the two sockets of a relay session (src/relay.rs).
use naleystogramm_server.Base.{
  ℕ, ◌≡◌, refl, sym, ◌∙◌, ap, subst, Bool, true, false, List, [], ◌∷◌, ◌++◌, Option, none, some,
  inl, inr, Bool-cases, ◌||◌,
}
use naleystogramm_server.Relay.Sockets.{
  WsMsg, data_msg, Next, Creator, waiting, relaying, Joiner, absent, running, Link, opened, put,
  Event, from_a, notified, deadline, recv_a, joined, from_b, recv_b, creator_ws, joiner_ws,
  buffer_next, relay_next, creator_recv, joiner_next, joiner_recv, step, run,
}
use naleystogramm_server.Relay.Sockets
use naleystogramm_server.Relay.Fifo.{
  data_of, data_of-append, frame_of, said_a, said_b, heard_a, heard_b, IsPrefix, Forward, Backward,
  pushed, moved, pong_skipped, IsPrefix-append, Forward-IsPrefix,
}
use naleystogramm_server.Relay.Delivery.{
  Both, Backward-waiting, withdraw-Both, end_creator-Both, flush-Forward, buffer_next-Both,
  relay_next-Both,
}
use mathlib.Core.List.{append-nil, append_assoc}

Forward-pong :
    (h : List WsMsg) (c : Creator) (w : Bool) (j : Joiner) (ch : Option (List WsMsg))
    (got : List WsMsg) (d : List ℕ)
    → Forward h c w j ch got
    → Forward h c w j ch (got ++ WsMsg.pong d ∷ [])
Forward-pong h c w j none got d f = (
  f.0,
  subst (λ ms. IsPrefix ms h)
      (sym (append-nil (data_of got)) ∙ sym (data_of-append got (WsMsg.pong d ∷ []))) f.1,
)
Forward-pong h (waiting b) w j (some q) got d f = pong_skipped got d (q ++ b) ∙ f
Forward-pong h relaying w j (some q) got d f = pong_skipped got d q ∙ f
Forward-pong h Creator.finished true j (some q) got d f =
    subst (λ ms. IsPrefix ms h) (sym (pong_skipped got d q)) f
Forward-pong h Creator.finished false j (some q) got d f = pong_skipped got d q ∙ f

Forward-moved :
    (h : List WsMsg) (c : Creator) (w : Bool) (j : Joiner) (m : WsMsg) (q got : List WsMsg)
    → Forward h c w j (some (m ∷ q)) got
    → Forward h c w j (some q) (got ++ m ∷ [])
Forward-moved h (waiting b) w j m q got f = ap data_of (moved got m (q ++ b)) ∙ f
Forward-moved h relaying w j m q got f = ap data_of (moved got m q) ∙ f
Forward-moved h Creator.finished true j m q got f =
    subst (λ ms. IsPrefix ms h) (ap data_of (sym (moved got m q))) f
Forward-moved h Creator.finished false j m q got f = ap data_of (moved got m q) ∙ f

Backward-push :
    (k : List WsMsg) (c : Creator) (ch : Option (List WsMsg)) (got ms : List WsMsg)
    → Backward k c ch got
    → Backward (k ++ data_of ms) c (put ch ms) got
Backward-push k c none got ms f = (f.0, IsPrefix-append _ k _ f.1)
Backward-push k c (some q) got ms f = pushed got q ms k f

-- Who joins has its channel, and who has left has none.
Forward-joins :
    (h : List WsMsg) (c : Creator) (w : Bool) (ch : Option (List WsMsg)) (got : List WsMsg)
    → Forward h c w absent ch got
    → Forward h c w running ch got
Forward-joins h c w none got f = cc f.0
Forward-joins h (waiting b) w (some q) got f = f
Forward-joins h relaying w (some q) got f = f
Forward-joins h Creator.finished true (some q) got f = f
Forward-joins h Creator.finished false (some q) got f = f

said_a-finished : (e : Event) → said_a e Creator.finished ≡ []
said_a-finished (from_a n) = refl
said_a-finished e = refl

said_b-finished : (e : Event) → said_b e Joiner.finished ≡ []
said_b-finished (from_b n) = refl
said_b-finished e = refl

module _ (h k : List WsMsg) where
  creator_recv-Both :
      (sent : Bool) (ch : Option (List WsMsg)) (l : Link)
      → Both h k (record l { creator = relaying; b_to_a = ch })
      → Both h k (creator_recv sent ch (record l { creator = relaying; b_to_a = ch }))
  unfolding creator_recv
  creator_recv-Both sent none l f = f
  creator_recv-Both sent (some []) l f = elim (Bool-cases (Sockets.is_held l || l.b_to_a_tx)) [
    | inl held ↦ rw held f
    | inr over ↦ rw over (end_creator-Both h k l.a_to_b (record l { b_to_a = some [] }) f)
  ]
  creator_recv-Both true (some (m ∷ q)) l f = (f.0, ap data_of (moved l.to_a m q) ∙ f.1)
  creator_recv-Both false (some (m ∷ q)) l f =
      end_creator-Both h k l.a_to_b (record l { b_to_a = some (m ∷ q) }) f

  joiner_ends :
      (ch : Option (List WsMsg)) (l : Link)
      → Both h k (record l { joiner = running; a_to_b = ch })
      → Both h k (Sockets.end_joiner (record l { joiner = running; a_to_b = ch }))
  joiner_ends ch l f = ((refl, Forward-IsPrefix h l.creator l.withdrawn running ch l.to_b f.0), f.1)

  joiner_next-Both :
      (n : Next) (l : Link)
      → Both h k (record l { joiner = running })
      → Both h (k ++ frame_of n) (joiner_next n (record l { joiner = running }))
  unfolding joiner_next
  joiner_next-Both Next.nothing l f = rw (append-nil k) (joiner_ends l.a_to_b l f)
  joiner_next-Both (Next.frame WsMsg.close) l f = rw (append-nil k) (joiner_ends l.a_to_b l f)
  joiner_next-Both (Next.frame (WsMsg.pong d)) l f = rw (append-nil k) (joiner_ends l.a_to_b l f)
  joiner_next-Both (Next.frame (WsMsg.ping d)) l f =
      rw (append-nil k) (Forward-pong h l.creator l.withdrawn running l.a_to_b l.to_b d f.0, f.1)
  joiner_next-Both (Next.frame (WsMsg.text t)) l f =
      (f.0, Backward-push k l.creator l.b_to_a l.to_a (WsMsg.text t ∷ []) f.1)
  joiner_next-Both (Next.frame (WsMsg.binary d)) l f =
      (f.0, Backward-push k l.creator l.b_to_a l.to_a (WsMsg.binary d ∷ []) f.1)

  joiner_recv-Both :
      (sent : Bool) (ch : Option (List WsMsg)) (l : Link)
      → Both h k (record l { joiner = running; a_to_b = ch })
      → Both h k (joiner_recv sent ch (record l { joiner = running; a_to_b = ch }))
  unfolding joiner_recv
  joiner_recv-Both sent none l f = f
  joiner_recv-Both sent (some []) l f = elim (Bool-cases (Sockets.is_held l || l.a_to_b_tx)) [
    | inl held ↦ rw held f
    | inr over ↦ rw over (joiner_ends (some []) l f)
  ]
  joiner_recv-Both true (some (m ∷ q)) l f =
      (Forward-moved h l.creator l.withdrawn running m q l.to_b f.0, f.1)
  joiner_recv-Both false (some (m ∷ q)) l f = joiner_ends (some (m ∷ q)) l f

  joiner_ws-Both :
      (j : Joiner) (e : Event) (l : Link)
      → Both h k (record l { joiner = j })
      → Both h (k ++ said_b e j) (joiner_ws j e (record l { joiner = j }))
  unfolding joiner_ws
  joiner_ws-Both running (from_b n) l f = joiner_next-Both n l f
  joiner_ws-Both running (recv_b sent) l f = rw (append-nil k) (joiner_recv-Both sent l.a_to_b l f)
  joiner_ws-Both absent joined l f =
      rw (append-nil k) (Forward-joins h l.creator l.withdrawn l.a_to_b l.to_b f.0, f.1)
  joiner_ws-Both Joiner.finished e l f = rw (said_b-finished e, append-nil k) f
  joiner_ws-Both j e l f = rw (append-nil k) f

  notified-Both :
      (b : List WsMsg) (l : Link)
      → Both h k (record l { creator = waiting b })
      → Both h k (creator_ws (waiting b) notified (record l { creator = waiting b }))
  unfolding creator_ws
  notified-Both b l f = elim (Bool-cases l.ready) [
    | inl permit ↦ rw permit (
      flush-Forward h b l.withdrawn l.joiner l.a_to_b l.to_b f.0,
      Backward-waiting k b relaying l.b_to_a l.to_a f.1,
    )
    | inr no_permit ↦ rw no_permit f
  ]

  creator_ws-Both :
      (c : Creator) (e : Event) (l : Link)
      → Both h k (record l { creator = c })
      → Both (h ++ said_a e c) k (creator_ws c e (record l { creator = c }))
  unfolding creator_ws
  creator_ws-Both (waiting b) (from_a n) l f = buffer_next-Both h k b n l.a_to_b l f
  creator_ws-Both (waiting b) notified l f = rw (append-nil h) (notified-Both b l f)
  creator_ws-Both (waiting b) deadline l f = rw (append-nil h) (withdraw-Both h k b l.a_to_b l f)
  creator_ws-Both relaying (from_a n) l f = relay_next-Both h k n l.a_to_b l f
  creator_ws-Both relaying (recv_a sent) l f =
      rw (append-nil h) (creator_recv-Both sent l.b_to_a l f)
  creator_ws-Both Creator.finished e l f = rw (said_a-finished e, append-nil h) f
  creator_ws-Both c e l f = rw (append-nil h) f

  step-Both :
      (e : Event) (l : Link)
      → Both h k l
      → Both (h ++ said_a e l.creator) (k ++ said_b e l.joiner) (step e l)
  unfolding step
  step-Both (from_b n) l f = rw (append-nil h) (joiner_ws-Both l.joiner (from_b n) l f)
  step-Both (recv_b sent) l f = rw (append-nil h) (joiner_ws-Both l.joiner (recv_b sent) l f)
  step-Both joined l f = rw (append-nil h) (joiner_ws-Both l.joiner joined l f)
  step-Both (from_a n) l f = rw (append-nil k) (creator_ws-Both l.creator (from_a n) l f)
  step-Both (recv_a sent) l f = rw (append-nil k) (creator_ws-Both l.creator (recv_a sent) l f)
  step-Both notified l f = rw (append-nil k) (creator_ws-Both l.creator notified l f)
  step-Both deadline l f = rw (append-nil k) (creator_ws-Both l.creator deadline l f)

pub run-Both :
    (h k : List WsMsg) (es : List Event) (l : Link)
    → Both h k l
    → Both (h ++ heard_a es l) (k ++ heard_b es l) (run es l)
unfolding run heard_a heard_b
run-Both h k [] l f = rw (append-nil h, append-nil k) f
run-Both h k (e ∷ es) l f =
    rw
      (
        ← append_assoc h (said_a e l.creator) (heard_a es (step e l)),
        ← append_assoc k (said_b e l.joiner) (heard_b es (step e l)),
      )
      (run-Both (h ++ said_a e l.creator) (k ++ said_b e l.joiner) es (step e l)
        (step-Both h k e l f))
