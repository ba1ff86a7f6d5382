-- ===== src/Discovery/Lookup.antt =====
-- What `lookup` of src/discovery.rs answers for a name that is registered.
use naleystogramm_server.Base.{
  ◌≡◌, refl, ◌∙◌, ◌++◌, true, false, List, [], ◌∷◌, some, Text, text_eq, any, find, arith,
}
use naleystogramm_server.RateLimit.{allow_lookup}
use naleystogramm_server.Extern.{Extern}
use naleystogramm_server.Error.{StatusCode, Body, Response}
use naleystogramm_server.Tables.{User, Presence, is_of}
use naleystogramm_server.State.{AppState}
use naleystogramm_server.Action.{ok, pure, gets, ok_or, throw_if}
use naleystogramm_server.Action.Rules.{calm, bind-ok, query-ok, unwrap_or-select}
use naleystogramm_server.Discovery.Requests.{Request}
use naleystogramm_server.Discovery.Directory.{limit_lookup, join_presence, is_online, lookup}

-- The join on a name that only the last user has.
pub join_presence-append :
    (lc : Text) (ps : List Presence) (us : List User) (u : User) (p : Presence)
    → any (λ v. text_eq v.username_lc lc) us ≡ false
    → text_eq u.username_lc lc ≡ true
    → find (λ q. is_of u.id q) ps ≡ some p
    → join_presence lc ps (us ++ u ∷ []) ≡ some (u, p)
unfolding join_presence
join_presence-append lc ps [] u p free same found = rw (same, found) refl
join_presence-append lc ps (v ∷ us) u p free same found =
    ground (arith, join_presence-append lc ps us u p)

module _ (x : Extern) (rq : Request) (s : AppState) (name : Text) where
  abbrev pub counted : AppState
  counted = record s { rate_limiter = (allow_lookup s.rate_limiter rq.addr rq.instant).1 }

  -- The answer about a user and the presence row of that user.
  abbrev pub profile : User → Presence → Response
  profile u p = record {
    status = StatusCode.ok;
    body =
        Body.profile u.username u.pubkey p.ip p.port
          (is_online x rq.now s.config.presence.offline_after_minutes p.ip s.pool) p.last_seen;
  }

  pub lookup-ok :
      (u : User) (p : Presence)
      → (allow_lookup s.rate_limiter rq.addr rq.instant).0 ≡ true
      → join_presence (x.to_lowercase name) s.pool.presence s.pool.users ≡ some (u, p)
      → lookup x rq name (calm s) ≡ (ok (profile u p), calm counted)
  unfolding lookup limit_lookup throw_if gets ok_or pure
  lookup-ok u p allowed found =
      bind-ok _ _ refl
      ∙ bind-ok _ _ {s' = calm counted} {a = tt} (rw allowed refl)
      ∙ bind-ok _ _ {s' = calm counted} {a = some (u, p)} (query-ok _ counted (rw found refl))
      ∙ bind-ok _ _ {s' = calm counted} {a = (u, p)} refl
      ∙ bind-ok _ _ {s' = calm counted} refl
      ∙ bind-ok _ _ (unwrap_or-select false _ counted)
