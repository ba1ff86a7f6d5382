-- ===== src/Discovery/Requests.antt =====
-- What the handlers of src/discovery.rs share: the request, and `resolve_token`.
use naleystogramm_server.Action.{lift}
use naleystogramm_server.Base.{
  ℕ, ◌+◌, ◌*◌, Bool, true, ◌&&◌, Option, none, some, Text, text_eq, text_ltb, ltb, leb, find,
  if◌then◌else◌,
}
use naleystogramm_server.RateLimit.{IpAddr, Instant}
use naleystogramm_server.Extern.{Extern, datetime, rfc3339}
use naleystogramm_server.Error.{unauthorized}
use naleystogramm_server.Tables.{Tables, Token, select}
use naleystogramm_server.Action.{Action, Result, ok, panicked, ◌>>=◌, pure, ok_or, query}
use naleystogramm_server.Auth.{extract_bearer, hash_token}

-- The parts of an HTTP request and of its surroundings that handlers look at: the peer's address,
-- the monotonic clock in nanoseconds, the seconds since 1970, and the `Authorization` header.
pub record Request : Type 0 where
  pub addr : IpAddr
  pub instant : Instant
  pub now : ℕ
  pub authorization : Option Text

module _ (x : Extern) where
  -- `expires_at IS NULL OR expires_at > datetime('now')`
  unfoldable pub unexpired : ℕ → Token → Bool
  unexpired now k = elim k.expires_at [
    | none ↦ true
    | some expires_at ↦ text_ltb (datetime x.calendar now) expires_at
  ]

  -- SELECT user_id FROM tokens WHERE token_hash=? AND (expires_at IS NULL OR …)
  unfoldable pub find_token : ℕ → Text → Tables → Option Token
  unfolding unexpired
  find_token now hash t = find (λ k. text_eq k.token_hash hash && unexpired now k) t.tokens

  unfoldable pub resolve_token : Request → Action ℕ
  unfolding find_token
  resolve_token rq = do
    raw ← lift (extract_bearer rq.authorization)
    row ← query (select (find_token rq.now (hash_token x raw)))
    token ← ok_or row unauthorized
    pure token.user_id

  -- `expires_at` of a new token. `checked_add_signed(…).unwrap()` panics past chrono's last second.
  unfoldable pub expiry : ℕ → ℕ → Result (Option Text)
  expiry now ttl_days =
      if ltb 0 ttl_days
      then if leb (now + ttl_days * 86400) x.calendar.max_utc
        then ok (some (rfc3339 x.calendar (now + ttl_days * 86400)))
        else panicked
      else ok none
