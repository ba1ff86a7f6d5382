-- ===== src/Discovery/Expiry.antt =====
-- How long a token is accepted (`resolve_token`, and `expires_at` of `register` and
-- `token_refresh`, in src/discovery.rs).
use naleystogramm_server.Base.{
  ℕ, ◌+◌, ◌*◌, ◌/◌, ◌<◌, ◌≡◌, refl, ◌∙◌, inl, inr, ◌++◌, ◌||◌, some, Text, codes, arith, ltb, leb,
  ◌==◌, Bool-cases,
}
use naleystogramm_server.Extern.{Extern}
use naleystogramm_server.Extern.Dates.{datetime-lt-rfc3339}
use naleystogramm_server.Tables.{Token}
use naleystogramm_server.State.{AppState}
use naleystogramm_server.Action.{ok, lift, ok_or, pure}
use naleystogramm_server.Action.Rules.{calm, bind-ok, query-ok}
use naleystogramm_server.Auth.{hash_token}
use naleystogramm_server.Auth.Bearer.{extract_bearer_iff}
use naleystogramm_server.Discovery.Requests.{Request, unexpired, find_token, resolve_token, expiry}

module _ (x : Extern) where
  -- A token that was given out with `ttl_days` counts as unexpired on exactly the days up to the
  -- one on which it expires, that whole day included, and always if `ttl_days` is 0. (The days are
  -- those of UTC, and the years are of four digits.)
  pub unexpired-expiry :
      (k : Token) (issued ttl_days now : ℕ)
      → expiry x issued ttl_days ≡ ok k.expires_at
      → now / 86400 < x.calendar.four_digit_days
      → issued / 86400 + ttl_days < x.calendar.four_digit_days
      → unexpired x now k ≡ (ttl_days == 0 || leb (now / 86400) (issued / 86400 + ttl_days))
  unfolding expiry unexpired
  unexpired-expiry k issued ttl_days now e written later_written =
      elim (Bool-cases (ltb 0 ttl_days)) [
        | inr forever ↦ ground arith
        | inl limited ↦ elim (Bool-cases (leb (issued + ttl_days * 86400) x.calendar.max_utc)) [
          | inr late ↦ ground arith
          | inl fits ↦
              let day : (issued + ttl_days * 86400) / 86400 ≡ issued / 86400 + ttl_days =
                omega arith in
              ground (
                arith,
                day,
                datetime-lt-rfc3339 x.calendar now (issued + ttl_days * 86400) written
                    (omega arith),
              )
        ]
      ]

  -- A header with a token whose row is found resolves to the row's user, and nothing changes.
  pub resolve_token-ok :
      (rq : Request) (s : AppState) (raw : Text) (k : Token)
      → rq.authorization ≡ some (codes "Bearer " ++ raw)
      → find_token x rq.now (hash_token x raw) s.pool ≡ some k
      → resolve_token x rq (calm s) ≡ (ok k.user_id, calm s)
  unfolding resolve_token lift ok_or pure
  resolve_token-ok rq s raw k header found =
      bind-ok _ _ {s' = calm s} {a = raw}
        (rw ((extract_bearer_iff rq.authorization raw).1 header) refl)
      ∙ bind-ok _ _ {s' = calm s} {a = some k} (query-ok _ s (rw found refl))
      ∙ bind-ok _ _ {s' = calm s} {a = k} refl
