-- ===== src/RateLimit.antt =====
-- src/rate_limit.rs: the sliding-window limiter for `/register` and `/lookup`.
-- An `Instant` is a number of nanoseconds on the monotonic clock, and each call is given the
-- instant that it reads under the lock. Addresses are only compared, so they are numbers.
mod Times
mod Window
mod Tests
use naleystogramm_server.Base.{
  ℕ, ◌+◌, ◌-◌, ◌*◌, Bool, true, false, List, [], ◌∷◌, ◌++◌, length, retain, ltb, leb, ◌==◌,
  if◌then◌else◌,
}

abbrev pub IpAddr : Type 0
IpAddr = ℕ

abbrev pub Instant : Type 0
Instant = ℕ

-- `Duration::from_secs`
abbrev pub from_secs : ℕ → ℕ
from_secs n = n * 1_000_000_000

-- `HashMap<IpAddr, Vec<Instant>>`
abbrev pub Times : Type 0
Times = List (IpAddr × List Instant)

pub record RateLimiter : Type 0 where
  pub register : Times
  pub lookup : Times

-- `RateLimiter::new`
unfoldable pub new : RateLimiter
new = record { register = []; lookup = [] }

-- `map.entry(ip).or_default()`: the vector of an address, empty where there is no entry.
unfoldable pub times_of : IpAddr → Times → List Instant
times_of ip [] = []
times_of ip ((a, ts) ∷ m) = if a == ip then ts else times_of ip m

-- The write through that entry.
unfoldable pub set_times : IpAddr → List Instant → Times → Times
set_times ip ts [] = (ip, ts) ∷ []
set_times ip ts ((a, us) ∷ m) = if a == ip then (a, ts) ∷ m else (a, us) ∷ set_times ip ts m

-- `times.retain(|t| now.duration_since(*t) < window)`; `duration_since` stops at zero.
unfoldable pub recent : ℕ → Instant → List Instant → List Instant
recent window now ts = retain (λ t. ltb (now - t) window) ts

-- The body of `check` on the vector of one address.
unfoldable pub check_times : ℕ → ℕ → Instant → List Instant → Bool × List Instant
unfolding recent
check_times limit window now ts =
    let kept = recent window now ts in
    if leb limit (length kept) then (false, kept) else (true, kept ++ now ∷ [])

unfoldable pub check : ℕ → ℕ → Times → IpAddr → Instant → Bool × Times
unfolding check_times times_of set_times
check limit window m ip now =
    let (allowed, ts) = check_times limit window now (times_of ip m) in (allowed, set_times ip ts m)

-- 5 requests in an hour for an address.
unfoldable pub allow_register : RateLimiter → IpAddr → Instant → Bool × RateLimiter
allow_register l ip now =
    let (allowed, m) = check 5 (from_secs 3600) l.register ip now in
    (allowed, record l { register = m })

-- 60 requests in a minute for an address.
unfoldable pub allow_lookup : RateLimiter → IpAddr → Instant → Bool × RateLimiter
allow_lookup l ip now =
    let (allowed, m) = check 60 (from_secs 60) l.lookup ip now in (allowed, record l { lookup = m })

-- A request that reaches the limiter.
pub data Request : Type 0 where
  registers lookups : IpAddr → Instant → Request

unfoldable pub serve : RateLimiter → Request → Bool × RateLimiter
serve l (registers ip now) = allow_register l ip now
serve l (lookups ip now) = allow_lookup l ip now

abbrev pub instant : Request → Instant
instant (registers ip now) = now
instant (lookups ip now) = now

-- The instants at which a run of requests lets `/register`, or `/lookup`, through for an address.
abbrev pub of_register : IpAddr → Request → Bool
of_register a (registers ip now) = ip == a
of_register a (lookups ip now) = false

abbrev pub of_lookup : IpAddr → Request → Bool
of_lookup a (registers ip now) = false
of_lookup a (lookups ip now) = ip == a

unfoldable pub admitted : (Request → Bool) → RateLimiter → List Request → List Instant
admitted counts l [] = []
admitted counts l (r ∷ rs) =
    let (allowed, l') = serve l r in
    let rest = admitted counts l' rs in
    if counts r then (if allowed then instant r ∷ rest else rest) else rest
