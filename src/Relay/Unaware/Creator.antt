-- ===== src/Relay/Unaware/Creator.antt =====
-- What a creator's handler learns of its joiner's end (src/relay.rs).
use naleystogramm_server.Base.{
  ◌≡◌, refl, sym, ◌∙◌, Bool, true, false, List, [], ◌∷◌, Option, none, some, arith, any, inl, inr,
  Bool-cases, ◌||◌, subst,
}
use naleystogramm_server.Relay.Sockets.{
  WsMsg, Next, Creator, waiting, relaying, Joiner, absent, running, Link, opened, Event, from_a,
  notified, deadline, recv_a, joined, from_b, recv_b, creator_ws, joiner_ws, buffer_next,
  relay_next, creator_recv, joiner_next, joiner_recv, step, run,
}
use naleystogramm_server.Relay.Sockets

-- A creator's handler that has not ended holds the session.
abbrev Holding : Creator → Bool → Type 0
Holding Creator.finished held = Unit
Holding c held = held ≡ true

-- The creator and its hold on the session are those of before.
abbrev Aside : Link → Link → Type 0
Aside l k = (k.creator ≡ l.creator) × (k.held_by_creator ≡ l.held_by_creator)

joiner_next-Aside : (n : Next) (l : Link) → Aside l (joiner_next n l)
unfolding joiner_next
joiner_next-Aside Next.nothing l = (refl, refl)
joiner_next-Aside (Next.frame (WsMsg.text t)) l = (refl, refl)
joiner_next-Aside (Next.frame m) l = (refl, refl)

joiner_recv-Aside :
    (sent : Bool) (ch : Option (List WsMsg)) (l : Link) → Aside l (joiner_recv sent ch l)
unfolding joiner_recv
joiner_recv-Aside sent none l = (refl, refl)
joiner_recv-Aside sent (some []) l = elim (Bool-cases (Sockets.is_held l || l.a_to_b_tx)) [
  | inl held ↦ rw held (refl, refl)
  | inr over ↦ rw over (refl, refl)
]
joiner_recv-Aside true (some (m ∷ q)) l = (refl, refl)
joiner_recv-Aside false (some (m ∷ q)) l = (refl, refl)

joiner_ws-Aside : (j : Joiner) (e : Event) (l : Link) → Aside l (joiner_ws j e l)
unfolding joiner_ws
joiner_ws-Aside running (from_b n) l = joiner_next-Aside n l
joiner_ws-Aside running (recv_b sent) l = joiner_recv-Aside sent l.a_to_b l
joiner_ws-Aside absent joined l = (refl, refl)
joiner_ws-Aside j e l = (refl, refl)

Aside-Holding :
    (l k : Link)
    → Aside l k
    → Holding l.creator l.held_by_creator
    → Holding k.creator k.held_by_creator
Aside-Holding l k same h = rw (same.0, same.1) h

buffer_next-Holding :
    (b : List WsMsg) (n : Next) (l : Link)
    → l.held_by_creator ≡ true
    → let k = buffer_next b n (record l { creator = waiting b }) in
      Holding k.creator k.held_by_creator
unfolding buffer_next
buffer_next-Holding b Next.nothing l h = tt
buffer_next-Holding b (Next.frame WsMsg.close) l h = tt
buffer_next-Holding b (Next.frame m) l h = h

relay_next-Holding :
    (n : Next) (l : Link)
    → l.held_by_creator ≡ true
    → let k = relay_next n (record l { creator = relaying }) in Holding k.creator k.held_by_creator
unfolding relay_next
relay_next-Holding Next.nothing l h = tt
relay_next-Holding (Next.frame WsMsg.close) l h = tt
relay_next-Holding (Next.frame (WsMsg.pong d)) l h = tt
relay_next-Holding (Next.frame m) l h = h

-- The sender in the session keeps the creator's receiver open.
creator_recv-relaying :
    (ch : Option (List WsMsg)) (l : Link)
    → l.held_by_creator ≡ true
    → (creator_recv true ch (record l { creator = relaying })).creator ≡ relaying
unfolding creator_recv
creator_recv-relaying none l h = refl
creator_recv-relaying (some []) l h = ground arith
creator_recv-relaying (some (m ∷ q)) l h = refl

creator_recv-Holding :
    (sent : Bool) (ch : Option (List WsMsg)) (l : Link)
    → l.held_by_creator ≡ true
    → let k = creator_recv sent ch (record l { creator = relaying }) in
      Holding k.creator k.held_by_creator
unfolding creator_recv
creator_recv-Holding sent none l h = h
creator_recv-Holding sent (some []) l h = elim (Bool-cases (Sockets.is_held l || l.b_to_a_tx)) [
  | inl held ↦ rw held h
  | inr over ↦ rw over tt
]
creator_recv-Holding true (some (m ∷ q)) l h = h
creator_recv-Holding false (some (m ∷ q)) l h = tt

creator_ws-Holding :
    (c : Creator) (e : Event) (l : Link)
    → Holding c l.held_by_creator
    → let k = creator_ws c e (record l { creator = c }) in Holding k.creator k.held_by_creator
unfolding creator_ws
creator_ws-Holding (waiting b) (from_a n) l h = buffer_next-Holding b n l h
creator_ws-Holding (waiting b) notified l h = elim (Bool-cases l.ready) [
  | inl permit ↦ rw permit h
  | inr no_permit ↦ rw no_permit h
]
creator_ws-Holding (waiting b) deadline l h = tt
creator_ws-Holding relaying (from_a n) l h = relay_next-Holding n l h
creator_ws-Holding relaying (recv_a sent) l h = creator_recv-Holding sent l.b_to_a l h
creator_ws-Holding c e l h = h

step-Holding :
    (e : Event) (l : Link)
    → Holding l.creator l.held_by_creator
    → Holding (step e l).creator (step e l).held_by_creator
unfolding step
step-Holding (from_b n) l h =
    Aside-Holding l (joiner_ws l.joiner (from_b n) l) (joiner_ws-Aside l.joiner (from_b n) l) h
step-Holding (recv_b sent) l h =
    Aside-Holding l (joiner_ws l.joiner (recv_b sent) l) (joiner_ws-Aside l.joiner (recv_b sent) l)
      h
step-Holding joined l h =
    Aside-Holding l (joiner_ws l.joiner joined l) (joiner_ws-Aside l.joiner joined l) h
step-Holding (from_a n) l h = creator_ws-Holding l.creator (from_a n) l h
step-Holding (recv_a sent) l h = creator_ws-Holding l.creator (recv_a sent) l h
step-Holding notified l h = creator_ws-Holding l.creator notified l h
step-Holding deadline l h = creator_ws-Holding l.creator deadline l h

run-Holding :
    (es : List Event) (l : Link)
    → Holding l.creator l.held_by_creator
    → Holding (run es l).creator (run es l).held_by_creator
unfolding run
run-Holding [] l h = h
run-Holding (e ∷ es) l h = run-Holding es (step e l) (step-Holding e l h)

-- Whether an event may end the creator's second loop.
abbrev pub ends_creator : Event → Bool
ends_creator (from_a n) = true
ends_creator (recv_a false) = true
ends_creator e = false

step-relaying :
    (e : Event) (l : Link)
    → ends_creator e ≡ false
    → l.creator ≡ relaying
    → l.held_by_creator ≡ true
    → (step e l).creator ≡ relaying
unfolding step creator_ws
step-relaying (from_b n) l quiet h held = (joiner_ws-Aside l.joiner (from_b n) l).0 ∙ h
step-relaying (recv_b sent) l quiet h held = (joiner_ws-Aside l.joiner (recv_b sent) l).0 ∙ h
step-relaying joined l quiet h held = (joiner_ws-Aside l.joiner joined l).0 ∙ h
step-relaying (from_a n) l quiet h held = cc quiet
step-relaying (recv_a false) l quiet h held = cc quiet
step-relaying (recv_a true) l quiet h held =
    subst
      (λ (c : Creator). (creator_ws c (recv_a true) (record l { creator = c })).creator ≡ relaying)
      (sym h) (creator_recv-relaying l.b_to_a l held)
step-relaying notified l quiet h held = rw (h, creator_ws) refl
step-relaying deadline l quiet h held = rw (h, creator_ws) refl

relaying_held :
    (l : Link)
    → Holding l.creator l.held_by_creator
    → l.creator ≡ relaying
    → l.held_by_creator ≡ true
relaying_held l h relays = subst (λ c. Holding c l.held_by_creator) relays h

stays :
    (es : List Event) (l : Link)
    → any ends_creator es ≡ false
    → l.creator ≡ relaying
    → Holding l.creator l.held_by_creator
    → (run es l).creator ≡ relaying
unfolding run
stays [] l quiet relays h = relays
stays (e ∷ es) l quiet relays h = elim (Bool-cases (ends_creator e)) [
  | inl ends ↦ ground arith
  | inr goes_on ↦
      stays es (step e l) (ground arith)
        (step-relaying e l goes_on relays (relaying_held l h relays)) (step-Holding e l h)
]

-- A creator's handler does not learn that its joiner has left. Once any turns have brought it to its
-- second loop it stays there in every further run in which its own peer sends nothing, does not end
-- and takes what it is sent, whatever the joiner's handler does, its end included: the session that
-- the handler itself holds keeps a sender of its channel, so `recv` waits and gives no `None`.
pub run-relaying :
    (es more : List Event)
    → (run es opened).creator ≡ relaying
    → any ends_creator more ≡ false
    → (run more (run es opened)).creator ≡ relaying
run-relaying es more relays quiet =
    stays more (run es opened) quiet relays (run-Holding es opened refl)
