-- ===== src/Group/Copies.antt =====
-- Whom `broadcast` of src/group.rs reaches.
use naleystogramm_server.Base.{
  ℕ, zero, suc, ◌≡◌, refl, sym, ◌∙◌, ap, inl, inr, true, false, List, [], ◌∷◌, ◌++◌, Option, none,
  some, Text, arith, ◌==◌, find, HashMap, count_where, Bool-cases,
}
use naleystogramm_server.Frames.{Frame}
use naleystogramm_server.State.{AppState}
use naleystogramm_server.Group.Broadcast.{Queues, send, send_all, broadcast}
use mathlib.Core.List.{append_assoc, append-nil}

abbrev pub queued : ℕ → Queues → Option (List Frame)
queued c qs = elim (find (λ (q : ℕ × List Frame). q.0 == c) qs) [ none ↦ none | some q ↦ some q.1 ]

abbrev pub copies : ℕ → Frame → List Frame
copies zero f = []
copies (suc n) f = f ∷ copies n f

-- A channel with more frames at its end, if it has a receiver.
abbrev pub extended : Option (List Frame) → List Frame → Option (List Frame)
extended none fs = none
extended (some q) fs = some (q ++ fs)

queued-send_same :
    (f : Frame) (c : ℕ) (qs : Queues) → queued c (send f c qs) ≡ extended (queued c qs) (f ∷ [])
queued-send_same f c [] = refl
queued-send_same f c (q ∷ qs) = elim (Bool-cases (q.0 == c)) [
  | inl hit ↦ rw (hit, queued, hit) refl
  | inr miss ↦ rw (miss, queued, miss) (queued-send_same f c qs)
]

queued-send_other :
    (f : Frame) (c d : ℕ) (qs : Queues) → (d == c) ≡ false → queued c (send f d qs) ≡ queued c qs
queued-send_other f c d [] h = refl
queued-send_other f c d (q ∷ qs) h = ground (arith, queued-send_other f c d qs h)

extended_twice :
    (o : Option (List Frame)) (f : Frame) (n : ℕ)
    → extended (extended o (f ∷ [])) (copies n f) ≡ extended o (copies (suc n) f)
extended_twice none f n = refl
extended_twice (some q) f n = ap some (append_assoc q (f ∷ []) (copies n f))

extended-nil : (o : Option (List Frame)) → o ≡ extended o []
extended-nil none = refl
extended-nil (some q) = ap some (sym (append-nil q))

queued-send_all :
    (f : Frame) (c : ℕ) (conns : HashMap ℕ) (qs : Queues)
    → queued c (send_all f conns qs)
      ≡ extended (queued c qs) (copies (count_where (λ (e : Text × ℕ). e.1 == c) conns) f)
queued-send_all f c [] qs = extended-nil (queued c qs)
queued-send_all f c ((name, d) ∷ conns) qs = elim (Bool-cases (d == c)) [
  | inl same ↦ rw same (
      queued-send_all f c conns (send f d qs)
      ∙ ap (λ o. extended o (copies (count_where (λ (e : Text × ℕ). e.1 == c) conns) f))
          (ap (λ d. queued c (send f d qs)) (same_channel d c same) ∙ queued-send_same f c qs)
      ∙ extended_twice (queued c qs) f (count_where (λ (e : Text × ℕ). e.1 == c) conns))
  | inr other ↦ rw other (
      queued-send_all f c conns (send f d qs)
      ∙ ap (λ o. extended o (copies (count_where (λ (e : Text × ℕ). e.1 == c) conns) f))
          (queued-send_other f c d qs other))
]
  where
    same_channel : (d c : ℕ) → (d == c) ≡ true → d ≡ c
    same_channel d c h = ground arith

-- A broadcast puts the frame at the end of each channel as often as the map of the connections has
-- the channel, and into no other.
pub broadcast-copies :
    (f : Frame) (c : ℕ) (s : AppState)
    → queued c (broadcast f s).1.group_queues
      ≡ extended
          (queued c s.group_queues)
          (copies (count_where (λ (e : Text × ℕ). e.1 == c) s.group_conns) f)
unfolding broadcast
broadcast-copies f c s = queued-send_all f c s.group_conns s.group_queues
