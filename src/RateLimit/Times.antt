-- ===== src/RateLimit/Times.antt =====
-- The limiter on the vector of one address: how many instants of a window can be let through.
use naleystogramm_server.Base.{
  ℕ, ◌+◌, ◌≤◌, ◌<◌, ◌≡◌, refl, false, ◌&&◌, List, [], ◌∷◌, arith, length, length-append,
  count_where, count_where-append, All, ltb, leb, ◌==◌, if◌then◌else◌,
}
use naleystogramm_server.RateLimit.{IpAddr, Times, times_of, set_times, recent, check_times}

-- How many of the instants lie in the `window` that begins at `s`.
abbrev pub within : ℕ → ℕ → List ℕ → ℕ
within window s ts = count_where (λ t. leb s t && ltb t (s + window)) ts

pub times_of-set_times :
    (a b : IpAddr) (ts : List ℕ) (m : Times)
    → times_of b (set_times a ts m) ≡ (if a == b then ts else times_of b m)
unfolding times_of set_times
times_of-set_times a b ts [] = refl
times_of-set_times a b ts ((i, us) ∷ m) = ground (arith, times_of-set_times a b ts m)

length-recent-le : (window now : ℕ) (ts : List ℕ) → length (recent window now ts) ≤ length ts
unfolding recent
length-recent-le window now [] = omega arith
length-recent-le window now (t ∷ ts) = ground (arith, length-recent-le window now ts)

pub within-le-length : (window s : ℕ) (ts : List ℕ) → within window s ts ≤ length ts
within-le-length window s [] = omega arith
within-le-length window s (t ∷ ts) = ground (arith, within-le-length window s ts)

-- What `retain` drops lies before every window that is still open.
within-recent :
    (window s now : ℕ) (ts : List ℕ)
    → now < s + window
    → within window s (recent window now ts) ≡ within window s ts
unfolding recent
within-recent window s now [] h = refl
within-recent window s now (t ∷ ts) h = ground (arith, within-recent window s now ts h)

-- A window that has closed before `now` holds nothing of what comes later.
pub within-late :
    (window s now : ℕ) (ts : List ℕ)
    → s + window ≤ now
    → All (λ t. now ≤ t) ts
    → within window s ts ≡ 0
within-late window s now [] h late = refl
within-late window s now (t ∷ ts) h late = ground (arith, within-late window s now ts h late.1)

-- A call at a time after which the window `s` may hold `k` more instants.
pub check_times-within :
    (limit window s now k : ℕ) (ts : List ℕ)
    → length ts ≤ limit
    → (s + window ≤ now → k ≡ 0)
    → let (allowed, ts') = check_times limit window now ts in
      within window s ts' + k ≤ limit
      → within window s ts + (within window s (if allowed then now ∷ [] else []) + k) ≤ limit
unfolding check_times
check_times-within limit window s now k ts short late = ground (
  arith,
  within-recent window s now ts,
  within-le-length window s ts,
  count_where-append (λ t. leb s t && ltb t (s + window)) (recent window now ts) (now ∷ []),
)

pub length-check_times :
    (limit window now : ℕ) (ts : List ℕ)
    → length ts ≤ limit
    → length (check_times limit window now ts).1 ≤ limit
unfolding check_times
length-check_times limit window now ts h =
    ground (arith, length-recent-le window now ts, length-append (recent window now ts) (now ∷ []))

recent-recent :
    (window now later : ℕ) (ts : List ℕ)
    → now ≤ later
    → recent window later (recent window now ts) ≡ recent window later ts
unfolding recent
recent-recent window now later [] h = refl
recent-recent window now later (t ∷ ts) h = ground (arith, recent-recent window now later ts h)

pub check_times_refused :
    (limit window now later : ℕ) (ts : List ℕ)
    → now ≤ later
    → (check_times limit window now ts).0 ≡ false
    → (check_times limit window later (check_times limit window now ts).1).0
      ≡ (check_times limit window later ts).0
unfolding check_times
check_times_refused limit window now later ts h refused =
    ground (arith, recent-recent window now later ts h)

pub recent_quiet :
    (window now : ℕ) (ts : List ℕ) → All (λ t. t + window ≤ now) ts → recent window now ts ≡ []
unfolding recent
recent_quiet window now [] h = refl
recent_quiet window now (t ∷ ts) h = ground (arith, recent_quiet window now ts h.1)
