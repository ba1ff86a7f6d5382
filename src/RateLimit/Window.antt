-- ===== src/RateLimit/Window.antt =====
-- Runs of requests against the limiter: no window of time lets more than the limit through.
use naleystogramm_server.Base.{
  ℕ, ◌+◌, ◌≤◌, ◌≡◌, refl, Bool, true, false, List, [], ◌∷◌, arith, length, All, ◌==◌, ==_iff,
  ==_refl, Bool-cases, inl, inr,
}
use naleystogramm_server.RateLimit.{
  IpAddr, RateLimiter, Request, registers, lookups, instant, of_register, of_lookup, new, times_of,
  from_secs, check_times, serve, admitted, allow_register, allow_lookup, check,
}
use naleystogramm_server.RateLimit.Times.{
  within, within-le-length, times_of-set_times, within-late, check_times-within,
  check_times_refused, recent_quiet, length-check_times,
}

-- Requests in the order in which they take the lock, so that their instants do not fall.
abbrev pub IsOrdered : List Request → Type 0
IsOrdered [] = Unit
IsOrdered (r ∷ rs) = All (λ q. instant r ≤ instant q) rs × IsOrdered rs

admitted-late :
    (counts : Request → Bool) (now : ℕ) (l : RateLimiter) (rs : List Request)
    → All (λ q. now ≤ instant q) rs
    → All (λ t. now ≤ t) (admitted counts l rs)
unfolding admitted
admitted-late counts now l [] h = tt
admitted-late counts now l (r ∷ rs) h =
    let ih = admitted-late counts now (serve l r).1 rs h.1 in ground (arith, ih)

-- The part of the limiter that a kind of request reads for one address, and how it changes.
module _ (limit window : ℕ) (counts : Request → Bool) (view : RateLimiter → List ℕ)
    (serves : (l : RateLimiter) (r : Request)
      → counts r ≡ true
      → ((serve l r).0 ≡ (check_times limit window (instant r) (view l)).0)
        × (view (serve l r).1 ≡ (check_times limit window (instant r) (view l)).1))
    (skips : (l : RateLimiter) (r : Request) → counts r ≡ false → view (serve l r).1 ≡ view l) where
  within-admitted :
      (s : ℕ) (l : RateLimiter) (rs : List Request)
      → IsOrdered rs
      → length (view l) ≤ limit
      → within window s (view l) + within window s (admitted counts l rs) ≤ limit
  unfolding admitted
  within-admitted s l [] ordered short = omega (arith, within-le-length window s (view l))
  within-admitted s l (r ∷ rs) ordered short = elim (Bool-cases (counts r)) [
    | inl hit ↦
        let l' : RateLimiter = (serve l r).1 in
        let rest : ℕ = within window s (admitted counts l' rs) in
        let ih =
          within-admitted s l' rs ordered.1
            (rw (serves l r hit).1 (length-check_times limit window (instant r) (view l) short)) in
        let late = λ (h : s + window ≤ instant r).
          within-late window s (instant r) _ h (admitted-late counts (instant r) l' rs ordered.0) in
        let step =
          check_times-within limit window s (instant r) rest (view l) short late
            (rw (← (serves l r hit).1) ih) in
        ground (arith, serves l r hit, step)
    | inr miss ↦
        let ih = within-admitted s (serve l r).1 rs ordered.1 (rw (skips l r miss) short) in
        rw miss (rw (skips l r miss) at ih)
  ]

serve-register :
    (a : IpAddr) (l : RateLimiter) (r : Request)
    → of_register a r ≡ true
    → ((serve l r).0 ≡ (check_times 5 (from_secs 3600) (instant r) (times_of a l.register)).0)
      × (times_of a (serve l r).1.register
          ≡ (check_times 5 (from_secs 3600) (instant r) (times_of a l.register)).1)
unfolding serve allow_register check
serve-register a l (registers ip now) h =
    let e = (==_iff ip a).0 h in rw e (refl, simp (times_of-set_times, ==_refl))
serve-register a l (lookups ip now) h = cc

serve-register_skip :
    (a : IpAddr) (l : RateLimiter) (r : Request)
    → of_register a r ≡ false
    → times_of a (serve l r).1.register ≡ times_of a l.register
unfolding serve allow_register allow_lookup check
serve-register_skip a l (registers ip now) h = rw times_of-set_times (rw h refl)
serve-register_skip a l (lookups ip now) h = refl

serve-lookup :
    (a : IpAddr) (l : RateLimiter) (r : Request)
    → of_lookup a r ≡ true
    → ((serve l r).0 ≡ (check_times 60 (from_secs 60) (instant r) (times_of a l.lookup)).0)
      × (times_of a (serve l r).1.lookup
          ≡ (check_times 60 (from_secs 60) (instant r) (times_of a l.lookup)).1)
unfolding serve allow_lookup check
serve-lookup a l (lookups ip now) h =
    let e = (==_iff ip a).0 h in rw e (refl, simp (times_of-set_times, ==_refl))
serve-lookup a l (registers ip now) h = cc

serve-lookup_skip :
    (a : IpAddr) (l : RateLimiter) (r : Request)
    → of_lookup a r ≡ false
    → times_of a (serve l r).1.lookup ≡ times_of a l.lookup
unfolding serve allow_register allow_lookup check
serve-lookup_skip a l (lookups ip now) h = rw times_of-set_times (rw h refl)
serve-lookup_skip a l (registers ip now) h = refl

-- From a new limiter, whatever the requests and addresses, as long as the instants do not fall:
-- in the hour that begins at any instant at most 5 registrations of an address are let through,
-- and in the minute that begins there at most 60 lookups.
pub admitted-le_limit :
    (a : IpAddr) (s : ℕ) (rs : List Request)
    → IsOrdered rs
    → (within (from_secs 3600) s (admitted (of_register a) new rs) ≤ 5)
      × (within (from_secs 60) s (admitted (of_lookup a) new rs) ≤ 60)
unfolding new times_of
admitted-le_limit a s rs ordered = (
  omega (
    arith,
    within-admitted 5 (from_secs 3600) (of_register a) (λ l. times_of a l.register)
        (serve-register a) (serve-register_skip a) s new rs ordered (omega arith),
  ),
  omega (
    arith,
    within-admitted 60 (from_secs 60) (of_lookup a) (λ l. times_of a l.lookup) (serve-lookup a)
        (serve-lookup_skip a) s new rs ordered (omega arith),
  ),
)

-- A refused registration does not prolong the lockout: from any later instant on, every address
-- gets the answer that it would have got without the refused request.
pub refused_is_forgotten :
    (l : RateLimiter) (a b : IpAddr) (now later : ℕ)
    → now ≤ later
    → (allow_register l a now).0 ≡ false
    → (allow_register (allow_register l a now).1 b later).0 ≡ (allow_register l b later).0
unfolding allow_register check
refused_is_forgotten l a b now later h refused =
    rw (times_of-set_times a b _ l.register) (elim (Bool-cases (a == b)) [
      | inl same ↦
          let e = (==_iff a b).0 same in
          rw (same, ← e) (check_times_refused 5 (from_secs 3600) now later _ h refused)
      | inr other ↦ rw other refl
    ])

-- An address whose recorded registrations are all an hour old or older is let through.
pub quiet_hour_admits :
    (l : RateLimiter) (a : IpAddr) (now : ℕ)
    → All (λ t. t + from_secs 3600 ≤ now) (times_of a l.register)
    → (allow_register l a now).0 ≡ true
unfolding allow_register check check_times
quiet_hour_admits l a now quiet =
    rw (recent_quiet (from_secs 3600) now (times_of a l.register) quiet) refl
