-- ===== src/Relay/Fifo.antt =====
-- What goes over the two sockets of a relay session (src/relay.rs): each side's data frames reach the
-- other in the order in which they came, none twice.
use naleystogramm_server.Base.{
  ℕ, ◌≡◌, refl, sym, ◌∙◌, ap, Bool, true, false, List, [], ◌∷◌, ◌++◌, Option, none, some, retain,
  inl, inr, Bool-cases,
}
use naleystogramm_server.Relay.Sockets.{
  WsMsg, data_msg, Next, Creator, waiting, relaying, Joiner, running, Link, Event, from_a, from_b,
  step,
}
use mathlib.Core.List.{append-nil, append_assoc}

abbrev pub data_of : List WsMsg → List WsMsg
data_of ms = retain data_msg ms

-- The data frame that a peer sends.
abbrev pub frame_of : Next → List WsMsg
frame_of Next.nothing = []
frame_of (Next.frame m) = data_of (m ∷ [])

-- What an event brings to a handler that still reads.
abbrev pub said_a : Event → Creator → List WsMsg
said_a (from_a n) (waiting b) = frame_of n
said_a (from_a n) relaying = frame_of n
said_a e c = []

abbrev pub said_b : Event → Joiner → List WsMsg
said_b (from_b n) running = frame_of n
said_b e j = []

-- All data frames that the handlers read in a run.
unfoldable pub heard_a : List Event → Link → List WsMsg
heard_a [] l = []
heard_a (e ∷ es) l = said_a e l.creator ++ heard_a es (step e l)

unfoldable pub heard_b : List Event → Link → List WsMsg
heard_b [] l = []
heard_b (e ∷ es) l = said_b e l.joiner ++ heard_b es (step e l)

abbrev pub IsPrefix : List WsMsg → List WsMsg → Type 0
IsPrefix ms ks = (rest : List WsMsg) × (ms ++ rest ≡ ks)

-- What the creator's peer has said, against what the joiner's peer has got and what is under way.
abbrev pub Forward :
    List WsMsg → Creator → Bool → Joiner → Option (List WsMsg) → List WsMsg → Type 0
Forward h c w j none got = (j ≡ Joiner.finished) × IsPrefix (data_of got) h
Forward h (waiting b) w j (some q) got = data_of (got ++ (q ++ b)) ≡ h
Forward h relaying w j (some q) got = data_of (got ++ q) ≡ h
Forward h Creator.finished true j (some q) got = IsPrefix (data_of (got ++ q)) h
Forward h Creator.finished false j (some q) got = data_of (got ++ q) ≡ h

abbrev pub Backward : List WsMsg → Creator → Option (List WsMsg) → List WsMsg → Type 0
Backward h c none got = (c ≡ Creator.finished) × IsPrefix (data_of got) h
Backward h c (some q) got = data_of (got ++ q) ≡ h

pub data_of-append : (ms ks : List WsMsg) → data_of (ms ++ ks) ≡ data_of ms ++ data_of ks
data_of-append [] ks = refl
data_of-append (m ∷ ms) ks = elim (Bool-cases (data_msg m)) [
  | inl hit ↦ rw hit (ap (λ (l : List WsMsg). m ∷ l) (data_of-append ms ks))
  | inr miss ↦ rw miss (data_of-append ms ks)
]

pub pushed :
    (got q ms h : List WsMsg)
    → data_of (got ++ q) ≡ h
    → data_of (got ++ (q ++ ms)) ≡ h ++ data_of ms
pushed got q ms h e =
    ap data_of (sym (append_assoc got q ms))
    ∙ data_of-append (got ++ q) ms
    ∙ ap (λ (l : List WsMsg). l ++ data_of ms) e

pub moved : (got : List WsMsg) (m : WsMsg) (q : List WsMsg) → (got ++ m ∷ []) ++ q ≡ got ++ m ∷ q
moved got m q = append_assoc got (m ∷ []) q

pub pong_skipped :
    (got : List WsMsg) (d : List ℕ) (q : List WsMsg)
    → data_of ((got ++ WsMsg.pong d ∷ []) ++ q) ≡ data_of (got ++ q)
pong_skipped got d q =
    ap data_of (moved got (WsMsg.pong d) q)
    ∙ data_of-append got (WsMsg.pong d ∷ q)
    ∙ sym (data_of-append got q)

pub IsPrefix-append : (ms h k : List WsMsg) → IsPrefix ms h → IsPrefix ms (h ++ k)
IsPrefix-append ms h k p =
    (p.0 ++ k, sym (append_assoc ms p.0 k) ∙ ap (λ (l : List WsMsg). l ++ k) p.1)

pub IsPrefix-left :
    (ms ks h : List WsMsg) → IsPrefix (data_of (ms ++ ks)) h → IsPrefix (data_of ms) h
IsPrefix-left ms ks h p = (
  data_of ks ++ p.0,
  sym (append_assoc (data_of ms) (data_of ks) p.0)
      ∙ ap (λ (l : List WsMsg). l ++ p.0) (sym (data_of-append ms ks))
      ∙ p.1,
)

pub IsPrefix-same : (ms h : List WsMsg) → ms ≡ h → IsPrefix ms h
IsPrefix-same ms h e = ([], append-nil ms ∙ e)

-- Whatever is lost, what the joiner's peer has got is a prefix.
pub Forward-IsPrefix :
    (h : List WsMsg) (c : Creator) (w : Bool) (j : Joiner) (ch : Option (List WsMsg))
    (got : List WsMsg)
    → Forward h c w j ch got
    → IsPrefix (data_of got) h
Forward-IsPrefix h c w j none got f = f.1
Forward-IsPrefix h (waiting b) w j (some q) got f =
    IsPrefix-left got (q ++ b) h (IsPrefix-same _ h f)
Forward-IsPrefix h relaying w j (some q) got f = IsPrefix-left got q h (IsPrefix-same _ h f)
Forward-IsPrefix h Creator.finished true j (some q) got f = IsPrefix-left got q h f
Forward-IsPrefix h Creator.finished false j (some q) got f =
    IsPrefix-left got q h (IsPrefix-same _ h f)

pub Backward-IsPrefix :
    (h : List WsMsg) (c : Creator) (ch : Option (List WsMsg)) (got : List WsMsg)
    → Backward h c ch got
    → IsPrefix (data_of got) h
Backward-IsPrefix h c none got f = f.1
Backward-IsPrefix h c (some q) got f = IsPrefix-left got q h (IsPrefix-same _ h f)
