-- ===== src/Discovery/Directory.antt =====
-- `info`, `lookup` and `search` of src/discovery.rs.
use naleystogramm_server.Action.{unwrap_or}
use naleystogramm_server.Base.{
  ℕ, ◌++◌, Bool, true, false, not, ◌&&◌, ◌||◌, List, [], ◌∷◌, map, Option, none, some, Text, codes,
  text_eq, text_ltb, leb, ◌+◌, ◌==◌, find, take, retain, length, count_where, if◌then◌else◌,
}
use naleystogramm_server.RateLimit.{allow_lookup}
use naleystogramm_server.Extern.{Extern}
use naleystogramm_server.Error.{StatusCode, Body, Response, not_found, too_many_requests}
use naleystogramm_server.Tables.{Tables, User, Presence, select}
use naleystogramm_server.Action.{Action, ok, ◌>>=◌, ◌>>◌, pure, gets, ok_or, throw_if, query}
use naleystogramm_server.Discovery.Requests.{Request}

unfoldable pub limit_lookup : Request → Action Bool
limit_lookup rq s =
    let (allowed, l) = allow_lookup s.rate_limiter rq.addr rq.instant in
    (ok allowed, record s { rate_limiter = l })

-- FROM users u JOIN presence p ON u.id=p.user_id WHERE u.username_lc=?
unfoldable pub join_presence : Text → List Presence → List User → Option (User × Presence)
join_presence username_lc ps [] = none
join_presence username_lc ps (u ∷ us) =
    let rest = join_presence username_lc ps us in
    if text_eq u.username_lc username_lc
    then elim (find (λ p. p.user_id == u.id) ps) [ none ↦ rest | some p ↦ some (u, p) ]
    else rest

-- `last_seen > datetime('now', '-m minutes')`; a comparison with NULL is no truth.
abbrev pub seen_since : Option Text → Presence → Bool
seen_since none p = false
seen_since (some limit) p = text_ltb limit p.last_seen

-- The case of ASCII letters, which LIKE ignores.
abbrev pub fold_case : ℕ → ℕ
fold_case c = if leb b'A' c && leb c b'Z' then c + 32 else c

abbrev pub one_char : ℕ → (Text → Bool) → Text → Bool
one_char p rest [] = false
one_char p rest (c ∷ s) = (p == b'_' || fold_case p == fold_case c) && rest s

abbrev pub any_suffix : (Text → Bool) → Text → Bool
any_suffix rest [] = rest []
any_suffix rest (c ∷ s) = rest (c ∷ s) || any_suffix rest s

-- SQLite's `s LIKE pattern`: `%` stands for any text, `_` for any character. SQLite also ends a
-- pattern at a NUL character, which is a character like any other here.
unfoldable pub like : Text → Text → Bool
like [] [] = true
like [] (c ∷ s) = false
like (p ∷ ps) s = if p == b'%' then any_suffix (like ps) s else one_char p (like ps) s

-- SELECT username FROM users WHERE username_lc LIKE ? LIMIT 20
unfoldable pub users_like : Text → Tables → List Text
unfolding like
users_like pattern t =
    take 20 (map (λ (u : User). u.username) (retain (λ u. like pattern u.username_lc) t.users))

module _ (x : Extern) where
  -- A count that fails is 0. Users seen in the last 30 minutes are online.
  unfoldable pub info : Request → Action Response
  info rq = do
    user_count ← unwrap_or 0 (query (select (λ t. length t.users)))
    online_count ← unwrap_or 0 (
        query
          (select (λ t. count_where (seen_since (x.calendar.minutes_ago rq.now 30)) t.presence)))
    s ← gets (λ s. s)
    pure (record {
      status = StatusCode.ok;
      body = Body.info (record {
        name = s.config.server.name;
        description = s.config.server.description;
        mode = s.mode;
        version = codes "0.1.0";
        public = s.config.server.public;
        is_open = s.config.registration.is_open;
        require_email = s.config.registration.require_email;
        require_invite = s.config.registration.require_invite;
        min_client_version = s.min_version;
        relay_enabled = s.config.relay.enabled;
        users_total = user_count;
        users_online = online_count;
      });
    })

  -- The answer to `lookup`'s second query: it selects by the address alone.
  unfoldable pub is_online : ℕ → ℕ → Text → Tables → Bool
  is_online now offline_mins ip t = elim (find (λ p. text_eq p.ip ip) t.presence) [
    | none ↦ false
    | some p ↦ seen_since (x.calendar.minutes_ago now offline_mins) p
  ]

  unfoldable pub lookup : Request → Text → Action Response
  unfolding join_presence is_online
  lookup rq username = do
    allowed ← limit_lookup rq
    throw_if (not allowed) too_many_requests
    row ← query (select (λ t. join_presence (x.to_lowercase username) t.presence t.users))
    found ← ok_or row (not_found (codes "not_found"))
    offline_mins ← gets (λ s. s.config.presence.offline_after_minutes)
    online ← unwrap_or false (query (select (is_online rq.now offline_mins found.1.ip)))
    pure (record {
      status = StatusCode.ok;
      body =
          Body.profile found.0.username found.0.pubkey found.1.ip found.1.port online
            found.1.last_seen;
    })

  unfoldable pub search : Option Text → Action Response
  unfolding users_like
  search q =
      let text : Text = elim q [ none ↦ [] | some t ↦ t ] in
      if length text == 0
      then pure (record { status = StatusCode.ok; body = Body.users [] })
      else (do
        names ← query (select (users_like (x.to_lowercase text ++ codes "%")))
        pure (record { status = StatusCode.ok; body = Body.users names }))
