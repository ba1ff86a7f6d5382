-- ===== src/Discovery/Register/RoundTrip.antt =====
-- What follows a registration: its token is accepted, and its name is found
-- (`register`, `resolve_token` and `lookup` of src/discovery.rs).
use naleystogramm_server.Base.{
  ℕ, suc, ◌+◌, ◌/◌, ◌<◌, ◌≡◌, refl, ◌∙◌, ◌++◌, Bool, true, false, ◌&&◌, ◌||◌, List, [], ◌∷◌, Option,
  some, Text, codes, arith, leb, ◌==◌, ==_refl, any, find, find-append, find-any, text_eq,
  text_eq_refl, text_eq_iff,
}
use naleystogramm_server.RateLimit.{allow_register, allow_lookup}
use naleystogramm_server.Extern.{Extern, datetime}
use naleystogramm_server.Error.{StatusCode, Body}
use naleystogramm_server.Tables.{User, Token, has_name, has_hash}
use naleystogramm_server.Tables.Valid.{IsValid}
use naleystogramm_server.State.{AppState}
use naleystogramm_server.Action.{ok}
use naleystogramm_server.Action.Rules.{calm}
use naleystogramm_server.Auth.{hash_token, generate_token}
use naleystogramm_server.Discovery.Requests.{Request, unexpired, find_token, resolve_token, expiry}
use naleystogramm_server.Discovery.Expiry.{unexpired-expiry, resolve_token-ok}
use naleystogramm_server.Discovery.Directory.{lookup, join_presence, is_online}
use naleystogramm_server.Discovery.Lookup.{join_presence-append, counted, lookup-ok}
use naleystogramm_server.Discovery.Register.{RegisterReq, register}
use naleystogramm_server.Discovery.Register.Admits.{IsAdmissible}
use naleystogramm_server.Discovery.Register.Account.{
  no_such_user, no_presence, tables_after, account_user, account_presence, account_token,
}
use naleystogramm_server.Discovery.Register.Succeeds.{register_succeeds}

-- Rows without the hash are passed over, expired or not.
find_token-append :
    (p : Token → Bool) (hash : Text) (ks : List Token) (k : Token)
    → any (has_hash hash) ks ≡ false
    → k.token_hash ≡ hash
    → p k ≡ true
    → find (λ j. text_eq j.token_hash hash && p j) (ks ++ k ∷ []) ≡ some k
find_token-append p hash [] k fresh e good = ground (arith, (text_eq_iff k.token_hash hash).1 e)
find_token-append p hash (j ∷ ks) k fresh e good = ground (arith, find_token-append p hash ks k)

free_lc :
    (username lc : Text) (us : List User)
    → any (has_name username lc) us ≡ false
    → any (λ v. text_eq v.username_lc lc) us ≡ false
free_lc username lc [] h = refl
free_lc username lc (u ∷ us) h = ground (arith, free_lc username lc us)

module _ (x : Extern) (rq : Request) (random : List ℕ) (body : RegisterReq) (s : AppState)
    {expires_at : Option Text} (valid : IsValid x.to_lowercase s.pool)
    (allowed : (allow_register s.rate_limiter rq.addr rq.instant).0 ≡ true)
    (admissible : IsAdmissible x body s)
    (fresh : any (has_hash (hash_token x (generate_token x random))) s.pool.tokens ≡ false)
    (expires : expiry x rq.now s.config.tokens.ttl_days ≡ ok expires_at) where
  abbrev registered : AppState
  registered = record s {
    rate_limiter = (allow_register s.rate_limiter rq.addr rq.instant).1;
    pool = tables_after x rq random body s expires_at;
  }

  -- After a registration under the conditions of `register_succeeds`, a request with the returned token as its bearer is
  -- taken for one of the new user, until the end of the day on which the token expires, and for
  -- ever if `ttl_days` is 0. (Days are those of UTC, and years are of four digits.)
  pub resolve_token-register :
      (later : Request)
      → later.authorization ≡ some (codes "Bearer " ++ generate_token x random)
      → later.now / 86400 < x.calendar.four_digit_days
      → rq.now / 86400 + s.config.tokens.ttl_days < x.calendar.four_digit_days
      → ((s.config.tokens.ttl_days == 0)
          || leb (later.now / 86400) (rq.now / 86400 + s.config.tokens.ttl_days))
        ≡ true
      → let s' = (register x rq random body (calm s)).1 in
        resolve_token x later s' ≡ (ok (suc s.pool.users_seq), s')
  unfolding find_token
  resolve_token-register later header written expiry_written alive =
      rw (register_succeeds x rq random body s valid allowed admissible fresh expires) (
        resolve_token-ok x later registered (generate_token x random)
          (account_token x rq random body s expires_at) header
          (find_token-append (unexpired x later.now) _ s.pool.tokens _ fresh refl (
            unexpired-expiry x (account_token x rq random body s expires_at) rq.now
              s.config.tokens.ttl_days later.now expires written expiry_written
            ∙ alive)))

  -- After a registration under the conditions of `register_succeeds`, a lookup of the name in any case, within the limit on
  -- lookups, answers 200 with the username, the key, the address and the port of the request, and
  -- the time of the registration as the last one seen, written as the database writes it: the date, a
  -- space and the time of day.
  pub lookup-register :
      (later : Request) (name : Text)
      → x.to_lowercase name ≡ x.to_lowercase body.username
      → (allow_lookup s.rate_limiter later.addr later.instant).0 ≡ true
      → (online : Bool) × (s' : AppState) × (lookup x later name
            (register x rq random body (calm s)).1
          ≡ (
            ok (record {
              status = StatusCode.ok;
              body =
                  Body.profile body.username body.pubkey body.ip body.port online
                    (datetime x.calendar rq.now);
            }),
            s',
          ))
  unfolding allow_register allow_lookup
  lookup-register later name same within = (
    is_online x later.now s.config.presence.offline_after_minutes body.ip registered.pool,
    calm (counted x later registered name),
    rw (register_succeeds x rq random body s valid allowed admissible fresh expires) (
        lookup-ok x later registered name (account_user x rq random body s)
          (account_presence x rq random body s) within (rw same joined)),
  )
    where
      joined :
          join_presence
            (x.to_lowercase body.username)
            (s.pool.presence ++ account_presence x rq random body s ∷ [])
            (s.pool.users ++ account_user x rq random body s ∷ [])
          ≡ some (account_user x rq random body s, account_presence x rq random body s)
      joined =
          join_presence-append _ _ s.pool.users _ _
            (free_lc body.username _ s.pool.users admissible.free) (text_eq_refl _)
            (find-append _ s.pool.presence _
              (find-any _ s.pool.presence (
                no_presence _ s.pool s.pool.presence
                  (no_such_user s.pool.users_seq s.pool.users valid.user_ids_bounded)
                  valid.presence_refers))
              (==_refl _))
