-- ===== src/RateLimit/Tests.antt =====
-- Runs of the limiter, and the theorems at concrete requests.
use naleystogramm_server.Base.{◌≤◌, ◌≡◌, refl, true, List, [], ◌∷◌, arith}
use naleystogramm_server.RateLimit.{
  RateLimiter, Request, registers, lookups, of_register, of_lookup, new, from_secs, serve, admitted,
  allow_register, allow_lookup, check, times_of,
}
use naleystogramm_server.RateLimit.Times.{within}
use naleystogramm_server.RateLimit.Window.{
  admitted-le_limit, refused_is_forgotten, quiet_hour_admits,
}

-- Six registrations of address 9 in a row, a lookup among them, and one of address 8.
abbrev burst : List Request
burst =
    registers 9 1
    ∷ registers 9 2
    ∷ lookups 9 2
    ∷ registers 9 3
    ∷ registers 8 3
    ∷ registers 9 4
    ∷ registers 9 5
    ∷ registers 9 6
    ∷ registers 9 3_600_000_000_001
    ∷ []

admitted-burst : admitted (of_register 9) new burst ≡ 1 ∷ 2 ∷ 3 ∷ 4 ∷ 5 ∷ 3_600_000_000_001 ∷ []
unfolding admitted serve new allow_register allow_lookup check
admitted-burst = refl

admitted-le_limit_example :
    (within (from_secs 3600) 1 (admitted (of_register 9) new burst) ≤ 5)
    × (within (from_secs 60) 1 (admitted (of_lookup 9) new burst) ≤ 60)
admitted-le_limit_example = admitted-le_limit 9 1 burst (omega arith)

abbrev full : RateLimiter
full = record { register = (9, 1 ∷ 2 ∷ 3 ∷ 4 ∷ 5 ∷ []) ∷ []; lookup = [] }

refused_is_forgotten_example :
    (allow_register (allow_register full 9 6).1 9 3_600_000_000_001).0
    ≡ (allow_register full 9 3_600_000_000_001).0
unfolding allow_register check
refused_is_forgotten_example = refused_is_forgotten full 9 9 6 3_600_000_000_001 (omega arith) refl

quiet_hour_admits_example : (allow_register full 9 3_600_000_000_005).0 ≡ true
unfolding times_of
quiet_hour_admits_example = quiet_hour_admits full 9 3_600_000_000_005 (omega arith)
