-- ===== src/Relay/Unaware/Joiner.antt =====
-- What a joiner's handler learns of its creator's end (src/relay.rs).
use naleystogramm_server.Base.{
  ◌≡◌, refl, sym, ◌∙◌, Bool, true, false, List, [], ◌∷◌, Option, none, some, arith, any, inl, inr,
  Bool-cases, ◌||◌, subst,
}
use naleystogramm_server.Relay.Sockets.{
  WsMsg, Next, Creator, waiting, relaying, Joiner, absent, running, Link, opened, Event, from_a,
  notified, deadline, recv_a, joined, from_b, recv_b, creator_ws, joiner_ws, buffer_next,
  relay_next, creator_recv, joiner_next, joiner_recv, step, run,
}
use naleystogramm_server.Relay.Sockets

-- A joiner's handler that runs holds the session.
abbrev Holding : Joiner → Bool → Type 0
Holding running held = held ≡ true
Holding j held = Unit

-- The joiner and its hold on the session are those of before.
abbrev Aside : Link → Link → Type 0
Aside l k = (k.joiner ≡ l.joiner) × (k.held_by_joiner ≡ l.held_by_joiner)

buffer_next-Aside : (b : List WsMsg) (n : Next) (l : Link) → Aside l (buffer_next b n l)
unfolding buffer_next
buffer_next-Aside b Next.nothing l = (refl, refl)
buffer_next-Aside b (Next.frame WsMsg.close) l = (refl, refl)
buffer_next-Aside b (Next.frame m) l = (refl, refl)

relay_next-Aside : (n : Next) (l : Link) → Aside l (relay_next n l)
unfolding relay_next
relay_next-Aside Next.nothing l = (refl, refl)
relay_next-Aside (Next.frame WsMsg.close) l = (refl, refl)
relay_next-Aside (Next.frame m) l = (refl, refl)

creator_recv-Aside :
    (sent : Bool) (ch : Option (List WsMsg)) (l : Link) → Aside l (creator_recv sent ch l)
unfolding creator_recv
creator_recv-Aside sent none l = (refl, refl)
creator_recv-Aside sent (some []) l = elim (Bool-cases (Sockets.is_held l || l.b_to_a_tx)) [
  | inl held ↦ rw held (refl, refl)
  | inr over ↦ rw over (refl, refl)
]
creator_recv-Aside true (some (m ∷ q)) l = (refl, refl)
creator_recv-Aside false (some (m ∷ q)) l = (refl, refl)

creator_ws-Aside : (c : Creator) (e : Event) (l : Link) → Aside l (creator_ws c e l)
unfolding creator_ws
creator_ws-Aside (waiting b) (from_a n) l = buffer_next-Aside b n l
creator_ws-Aside (waiting b) notified l = elim (Bool-cases l.ready) [
  | inl permit ↦ rw permit (refl, refl)
  | inr no_permit ↦ rw no_permit (refl, refl)
]
creator_ws-Aside (waiting b) deadline l = (refl, refl)
creator_ws-Aside relaying (from_a n) l = relay_next-Aside n l
creator_ws-Aside relaying (recv_a sent) l = creator_recv-Aside sent l.b_to_a l
creator_ws-Aside c e l = (refl, refl)

Aside-Holding :
    (l k : Link) → Aside l k → Holding l.joiner l.held_by_joiner → Holding k.joiner k.held_by_joiner
Aside-Holding l k same h = rw (same.0, same.1) h

joiner_next-Holding :
    (n : Next) (l : Link)
    → l.held_by_joiner ≡ true
    → let k = joiner_next n (record l { joiner = running }) in Holding k.joiner k.held_by_joiner
unfolding joiner_next
joiner_next-Holding Next.nothing l h = tt
joiner_next-Holding (Next.frame WsMsg.close) l h = tt
joiner_next-Holding (Next.frame (WsMsg.pong d)) l h = tt
joiner_next-Holding (Next.frame m) l h = h

-- The sender in the session keeps the joiner's receiver open.
joiner_recv-running :
    (ch : Option (List WsMsg)) (l : Link)
    → l.held_by_joiner ≡ true
    → (joiner_recv true ch (record l { joiner = running })).joiner ≡ running
unfolding joiner_recv
joiner_recv-running none l h = refl
joiner_recv-running (some []) l h = ground arith
joiner_recv-running (some (m ∷ q)) l h = refl

joiner_recv-Holding :
    (sent : Bool) (ch : Option (List WsMsg)) (l : Link)
    → l.held_by_joiner ≡ true
    → let k = joiner_recv sent ch (record l { joiner = running }) in
      Holding k.joiner k.held_by_joiner
unfolding joiner_recv
joiner_recv-Holding sent none l h = h
joiner_recv-Holding sent (some []) l h = elim (Bool-cases (Sockets.is_held l || l.a_to_b_tx)) [
  | inl held ↦ rw held h
  | inr over ↦ rw over tt
]
joiner_recv-Holding true (some (m ∷ q)) l h = h
joiner_recv-Holding false (some (m ∷ q)) l h = tt

joiner_ws-Holding :
    (j : Joiner) (e : Event) (l : Link)
    → Holding j l.held_by_joiner
    → let k = joiner_ws j e (record l { joiner = j }) in Holding k.joiner k.held_by_joiner
unfolding joiner_ws
joiner_ws-Holding running (from_b n) l h = joiner_next-Holding n l h
joiner_ws-Holding running (recv_b sent) l h = joiner_recv-Holding sent l.a_to_b l h
joiner_ws-Holding absent joined l h = refl
joiner_ws-Holding j e l h = h

step-Holding :
    (e : Event) (l : Link)
    → Holding l.joiner l.held_by_joiner
    → Holding (step e l).joiner (step e l).held_by_joiner
unfolding step
step-Holding (from_b n) l h = joiner_ws-Holding l.joiner (from_b n) l h
step-Holding (recv_b sent) l h = joiner_ws-Holding l.joiner (recv_b sent) l h
step-Holding joined l h = joiner_ws-Holding l.joiner joined l h
step-Holding (from_a n) l h =
    Aside-Holding l (creator_ws l.creator (from_a n) l) (creator_ws-Aside l.creator (from_a n) l) h
step-Holding (recv_a sent) l h =
    Aside-Holding l (creator_ws l.creator (recv_a sent) l)
      (creator_ws-Aside l.creator (recv_a sent) l) h
step-Holding notified l h =
    Aside-Holding l (creator_ws l.creator notified l) (creator_ws-Aside l.creator notified l) h
step-Holding deadline l h =
    Aside-Holding l (creator_ws l.creator deadline l) (creator_ws-Aside l.creator deadline l) h

run-Holding :
    (es : List Event) (l : Link)
    → Holding l.joiner l.held_by_joiner
    → Holding (run es l).joiner (run es l).held_by_joiner
unfolding run
run-Holding [] l h = h
run-Holding (e ∷ es) l h = run-Holding es (step e l) (step-Holding e l h)

-- Whether an event may end the joiner's loop.
abbrev pub ends_joiner : Event → Bool
ends_joiner (from_b n) = true
ends_joiner (recv_b false) = true
ends_joiner e = false

step-running :
    (e : Event) (l : Link)
    → ends_joiner e ≡ false
    → l.joiner ≡ running
    → l.held_by_joiner ≡ true
    → (step e l).joiner ≡ running
unfolding step joiner_ws
step-running (from_a n) l quiet h held = (creator_ws-Aside l.creator (from_a n) l).0 ∙ h
step-running (recv_a sent) l quiet h held = (creator_ws-Aside l.creator (recv_a sent) l).0 ∙ h
step-running notified l quiet h held = (creator_ws-Aside l.creator notified l).0 ∙ h
step-running deadline l quiet h held = (creator_ws-Aside l.creator deadline l).0 ∙ h
step-running (from_b n) l quiet h held = cc quiet
step-running (recv_b false) l quiet h held = cc quiet
step-running (recv_b true) l quiet h held =
    subst (λ (j : Joiner). (joiner_ws j (recv_b true) (record l { joiner = j })).joiner ≡ running)
      (sym h) (joiner_recv-running l.a_to_b l held)
step-running joined l quiet h held = rw (h, joiner_ws) refl

running_held :
    (l : Link) → Holding l.joiner l.held_by_joiner → l.joiner ≡ running → l.held_by_joiner ≡ true
running_held l h runs = subst (λ j. Holding j l.held_by_joiner) runs h

stays :
    (es : List Event) (l : Link)
    → any ends_joiner es ≡ false
    → l.joiner ≡ running
    → Holding l.joiner l.held_by_joiner
    → (run es l).joiner ≡ running
unfolding run
stays [] l quiet runs h = runs
stays (e ∷ es) l quiet runs h = elim (Bool-cases (ends_joiner e)) [
  | inl ends ↦ ground arith
  | inr goes_on ↦
      stays es (step e l) (ground arith) (step-running e l goes_on runs (running_held l h runs))
        (step-Holding e l h)
]

-- A joiner's handler does not learn that its creator has left: once it runs, it stays in its loop in
-- every further run in which its own peer sends nothing, does not end and takes what it is sent,
-- whatever the creator's handler does, its end and the removal of the session from the map included.
pub run-running :
    (es more : List Event)
    → (run es opened).joiner ≡ running
    → any ends_joiner more ≡ false
    → (run more (run es opened)).joiner ≡ running
run-running es more runs quiet = stays more (run es opened) quiet runs (run-Holding es opened tt)
