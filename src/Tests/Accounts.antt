-- ===== src/Tests/Accounts.antt =====
-- Tokens and runs of requests in the sample world (src/discovery.rs).
use naleystogramm_server.Base.{
  ◌≤◌, ◌≡◌, ◌≢◌, refl, Bool, true, false, List, [], ◌∷◌, some, codes, arith, strip_prefix, text_eq,
}
use naleystogramm_server.Error.{StatusCode, Body}
use naleystogramm_server.Extern.{rfc3339}
use naleystogramm_server.Tables.{migrate, has_user, Token}
use naleystogramm_server.State.{new}
use naleystogramm_server.Action.{ok, query, ◌>>=◌}
use naleystogramm_server.Action.Rules.{calm}
use naleystogramm_server.Auth.{extract_bearer, hash_token}
use naleystogramm_server.Discovery.Requests.{Request, expiry, unexpired, find_token, resolve_token}
use naleystogramm_server.Discovery.Register.{is_some, unused_invite}
use naleystogramm_server.Discovery.Account.{unregister}
use naleystogramm_server.Discovery.Router
use naleystogramm_server.Discovery.Router.{serve}
use naleystogramm_server.Discovery.Tokens.{tokens_of}
use naleystogramm_server.Discovery.Tokens.Limit.{serve-tokens_of}
use naleystogramm_server.Discovery.Expiry.{unexpired-expiry}
use naleystogramm_server.Discovery.Unregister.{unregister_revokes, unregister_reopens_invite}
use naleystogramm_server.Tests.Samples.{world, config, state, request, random, carol, used_invite}
use naleystogramm_server.Base.{length}
use naleystogramm_server.Discovery.Capacity.{serve-max_users}

-- Carol registers, takes two new tokens, and leaves; one statement on the way fails.
abbrev calls : List (Router.Endpoint × Request)
calls =
    (Router.Endpoint.register random carol, request [])
    ∷ (Router.Endpoint.token_refresh (codes "4567"), request (codes "naleys_0123"))
    ∷ (Router.Endpoint.token_refresh (codes "89AB"), request (codes "naleys_4567"))
    ∷ (Router.Endpoint.unregister, request (codes "naleys_0123"))
    ∷ []

abbrev faults : List Bool
faults = false ∷ false ∷ false ∷ true ∷ []

serve-tokens_of_example :
    tokens_of 1 (serve world calls (new migrate faults config (codes "discovery"))).pool ≤ 5
serve-tokens_of_example = serve-tokens_of world calls faults config (codes "discovery") 1

-- A token of the day 20_000 for 90 days, on the last of them.
abbrev dated : Token
dated = record {
  id = 1;
  user_id = 1;
  token_hash = codes "h";
  created_at = codes "c";
  expires_at = some (rfc3339 world.calendar 1_735_776_100);
}

dated-expiry : expiry world 1_728_000_100 90 ≡ ok dated.expires_at
unfolding expiry
dated-expiry = refl

unexpired-expiry_example : unexpired world 1_735_862_399 dated ≡ true
unexpired-expiry_example =
    unexpired-expiry world dated 1_728_000_100 90 1_735_862_399 dated-expiry (omega arith)
      (omega arith)

bob_resolves : resolve_token world (request (codes "naleys_b")) (calm state) ≡ (ok 2, calm state)
unfolding resolve_token find_token extract_bearer hash_token query ◌>>=◌ strip_prefix text_eq
bob_resolves = refl

unregister_revokes_example :
    let r = unregister world (request (codes "naleys_b")) (calm state) in
    (r.0 ≡ ok (record { status = StatusCode.no_content; body = Body.nothing }))
    × (has_user 2 r.1.pool ≡ false)
    × ((later : Request) → (resolve_token world later r.1).0 ≢ ok 2)
unregister_revokes_example =
    unregister_revokes world (request (codes "naleys_b")) state 2 bob_resolves

unregister_reopens_invite_example :
    is_some (
      unused_invite
        (codes "AAAA-BBBB")
        (unregister world (request (codes "naleys_b")) (calm state)).1.pool)
    ≡ true
unfolding text_eq
unregister_reopens_invite_example =
    unregister_reopens_invite world (request (codes "naleys_b")) state 2 (codes "AAAA-BBBB")
      used_invite bob_resolves refl refl

serve-max_users_example :
    length (serve world calls (new migrate faults config (codes "discovery"))).pool.users ≤ 3
serve-max_users_example =
    serve-max_users world calls faults config (codes "discovery") (omega arith)
