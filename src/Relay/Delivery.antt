-- ===== src/Relay/Delivery.antt =====
-- The turns of `creator_ws` and `joiner_ws` (src/relay.rs) lose, repeat and reorder no data frame.
use naleystogramm_server.Base.{
  ℕ, ◌≡◌, refl, sym, ◌∙◌, ap, subst, Bool, true, false, List, [], ◌∷◌, ◌++◌, Option, none, some,
}
use naleystogramm_server.Relay.Sockets.{
  WsMsg, data_msg, Next, Creator, waiting, relaying, Joiner, absent, running, Link, opened, put,
  Event, from_a, notified, deadline, recv_a, joined, from_b, recv_b, creator_ws, joiner_ws,
  buffer_next, relay_next, creator_recv, joiner_next, joiner_recv, step, run,
}
use naleystogramm_server.Relay.Sockets
use naleystogramm_server.Relay.Fifo.{
  data_of, data_of-append, frame_of, IsPrefix, Forward, Backward, pushed, pong_skipped,
  IsPrefix-append, IsPrefix-left, IsPrefix-same, Backward-IsPrefix,
}
use mathlib.Core.List.{append-nil, append_assoc}

abbrev pub Fwd : List WsMsg → Link → Type 0
Fwd h l = Forward h l.creator l.withdrawn l.joiner l.a_to_b l.to_b

abbrev pub Bwd : List WsMsg → Link → Type 0
Bwd h l = Backward h l.creator l.b_to_a l.to_a

abbrev pub Both : List WsMsg → List WsMsg → Link → Type 0
Both h k l = Fwd h l × Bwd k l

pub Backward-waiting :
    (k b : List WsMsg) (c : Creator) (ch : Option (List WsMsg)) (got : List WsMsg)
    → Backward k (waiting b) ch got
    → Backward k c ch got
Backward-waiting k b c none got f = cc f.0
Backward-waiting k b c (some q) got f = f

pub Backward-pong :
    (k : List WsMsg) (c : Creator) (ch : Option (List WsMsg)) (got : List WsMsg) (d : List ℕ)
    → Backward k c ch got
    → Backward k c ch (got ++ WsMsg.pong d ∷ [])
Backward-pong k c none got d f = (
  f.0,
  subst (λ ms. IsPrefix ms k)
      (sym (append-nil (data_of got)) ∙ sym (data_of-append got (WsMsg.pong d ∷ []))) f.1,
)
Backward-pong k c (some q) got d f = pong_skipped got d q ∙ f

-- The creator leaves before the joiner comes: what is buffered is lost.
pub withdraw-Both :
    (h k b : List WsMsg) (ch : Option (List WsMsg)) (l : Link)
    → Both h k (record l { creator = waiting b; a_to_b = ch })
    → Both h k (Sockets.withdraw (record l { creator = waiting b; a_to_b = ch }))
withdraw-Both h k b none l f = (f.0, (refl, Backward-IsPrefix k (waiting b) l.b_to_a l.to_a f.1))
withdraw-Both h k b (some q) l f = (
  IsPrefix-left (l.to_b ++ q) b h (IsPrefix-same _ h (ap data_of (append_assoc l.to_b q b) ∙ f.0)),
  (refl, Backward-IsPrefix k (waiting b) l.b_to_a l.to_a f.1),
)

after_end :
    (h : List WsMsg) (w : Bool) (j : Joiner) (q got : List WsMsg)
    → data_of (got ++ q) ≡ h
    → Forward h Creator.finished w j (some q) got
after_end h true j q got e = IsPrefix-same _ h e
after_end h false j q got e = e

pub end_creator-Both :
    (h k : List WsMsg) (ch : Option (List WsMsg)) (l : Link)
    → Both h k (record l { creator = relaying; a_to_b = ch })
    → Both h k (Sockets.end_creator (record l { creator = relaying; a_to_b = ch }))
end_creator-Both h k none l f = (f.0, (refl, Backward-IsPrefix k relaying l.b_to_a l.to_a f.1))
end_creator-Both h k (some q) l f = (
  after_end h l.withdrawn l.joiner q l.to_b f.0,
  (refl, Backward-IsPrefix k relaying l.b_to_a l.to_a f.1),
)

-- A data frame that the creator relays.
relay-Forward :
    (h : List WsMsg) (w : Bool) (j : Joiner) (ch : Option (List WsMsg)) (got : List WsMsg)
    (ms : List WsMsg)
    → Forward h relaying w j ch got
    → Forward (h ++ data_of ms) relaying w j (put ch ms) got
relay-Forward h w j none got ms f = (f.0, IsPrefix-append _ h _ f.1)
relay-Forward h w j (some q) got ms f = pushed got q ms h f

buffer-Forward :
    (h : List WsMsg) (b : List WsMsg) (w : Bool) (j : Joiner) (ch : Option (List WsMsg))
    (got : List WsMsg) (ms : List WsMsg)
    → Forward h (waiting b) w j ch got
    → Forward (h ++ data_of ms) (waiting (b ++ ms)) w j ch got
buffer-Forward h b w j none got ms f = (f.0, IsPrefix-append _ h _ f.1)
buffer-Forward h b w j (some q) got ms f =
    ap (λ (l : List WsMsg). data_of (got ++ l)) (sym (append_assoc q b ms))
    ∙ pushed got (q ++ b) ms h f

pub flush-Forward :
    (h : List WsMsg) (b : List WsMsg) (w : Bool) (j : Joiner) (ch : Option (List WsMsg))
    (got : List WsMsg)
    → Forward h (waiting b) w j ch got
    → Forward h relaying w j (put ch b) got
flush-Forward h b w j none got f = f
flush-Forward h b w j (some q) got f = f

module _ (h k : List WsMsg) where
  pub buffer_next-Both :
      (b : List WsMsg) (n : Next) (ch : Option (List WsMsg)) (l : Link)
      → Both h k (record l { creator = waiting b; a_to_b = ch })
      → Both (h ++ frame_of n) k (buffer_next b n (record l { creator = waiting b; a_to_b = ch }))
  unfolding buffer_next
  buffer_next-Both b Next.nothing ch l f = rw (append-nil h) (withdraw-Both h k b ch l f)
  buffer_next-Both b (Next.frame WsMsg.close) ch l f =
      rw (append-nil h) (withdraw-Both h k b ch l f)
  buffer_next-Both b (Next.frame (WsMsg.ping d)) ch l f =
      rw (append-nil h) (f.0, Backward-pong k (waiting b) l.b_to_a l.to_a d f.1)
  buffer_next-Both b (Next.frame (WsMsg.pong d)) ch l f = rw (append-nil h) f
  buffer_next-Both b (Next.frame (WsMsg.text t)) ch l f = (
    buffer-Forward h b l.withdrawn l.joiner ch l.to_b (WsMsg.text t ∷ []) f.0,
    Backward-waiting k b _ l.b_to_a l.to_a f.1,
  )
  buffer_next-Both b (Next.frame (WsMsg.binary d)) ch l f = (
    buffer-Forward h b l.withdrawn l.joiner ch l.to_b (WsMsg.binary d ∷ []) f.0,
    Backward-waiting k b _ l.b_to_a l.to_a f.1,
  )

  pub relay_next-Both :
      (n : Next) (ch : Option (List WsMsg)) (l : Link)
      → Both h k (record l { creator = relaying; a_to_b = ch })
      → Both (h ++ frame_of n) k (relay_next n (record l { creator = relaying; a_to_b = ch }))
  unfolding relay_next
  relay_next-Both Next.nothing ch l f = rw (append-nil h) (end_creator-Both h k ch l f)
  relay_next-Both (Next.frame WsMsg.close) ch l f = rw (append-nil h) (end_creator-Both h k ch l f)
  relay_next-Both (Next.frame (WsMsg.ping d)) ch l f =
      rw (append-nil h) (f.0, Backward-pong k relaying l.b_to_a l.to_a d f.1)
  relay_next-Both (Next.frame (WsMsg.pong d)) ch l f =
      rw (append-nil h) (end_creator-Both h k ch l f)
  relay_next-Both (Next.frame (WsMsg.text t)) ch l f =
      (relay-Forward h l.withdrawn l.joiner ch l.to_b (WsMsg.text t ∷ []) f.0, f.1)
  relay_next-Both (Next.frame (WsMsg.binary d)) ch l f =
      (relay-Forward h l.withdrawn l.joiner ch l.to_b (WsMsg.binary d ∷ []) f.0, f.1)
