-- ===== src/Tests/Register.antt =====
-- A registration in the sample world: the theorems on `register` of src/discovery.rs apply to it.
use naleystogramm_server.Base.{
  ◌≡◌, refl, inr, Bool, true, false, [], some, codes, arith, any, text_eq, contains_char,
}
use naleystogramm_server.Error.{StatusCode, Body}
use naleystogramm_server.Extern.{datetime, rfc3339}
use naleystogramm_server.Tables.{has_hash}
use naleystogramm_server.Tables.Valid.{IsValid}
use naleystogramm_server.RateLimit
use naleystogramm_server.RateLimit.{allow_register, allow_lookup}
use naleystogramm_server.State.{AppState}
use naleystogramm_server.Action.{ok}
use naleystogramm_server.Action.Rules.{Post, calm}
use naleystogramm_server.Auth.{generate_token, hash_token}
use naleystogramm_server.Discovery.Requests.{expiry, resolve_token}
use naleystogramm_server.Discovery.Register.{register, client_too_old, unused_invite}
use naleystogramm_server.Discovery.Register.Admits.{IsAdmissible}
use naleystogramm_server.Discovery.Register.Rejects.{
  CreatedOr, BrokenOr, register-CreatedOr_untouched,
}
use naleystogramm_server.Discovery.Register.Account.{tables_after, welcome}
use naleystogramm_server.Discovery.Register.Succeeds.{register_succeeds}
use naleystogramm_server.Discovery.Register.RoundTrip.{resolve_token-register, lookup-register}
use naleystogramm_server.Discovery.Directory.{lookup}
use naleystogramm_server.Tests.Samples.{world, state, tables, request, random, carol}

tables-IsValid : IsValid world.to_lowercase tables
tables-IsValid = ground arith

allowed : (allow_register state.rate_limiter 7 1_000).0 ≡ true
unfolding allow_register RateLimit.check
allowed = refl

admissible : IsAdmissible world carol state
unfolding client_too_old unused_invite text_eq contains_char
admissible = record {
  current = refl;
  invited = inr (codes "CCCC-DDDD", _, refl, refl);
  long_enough = omega arith;
  short_enough = omega arith;
  matches = (λ t. true, refl, refl);
  free = refl;
  key_decodes = (_, refl, refl);
  ip = refl;
  email = inr refl;
  room = inr (omega arith);
}

fresh : any (has_hash (hash_token world (generate_token world random))) tables.tokens ≡ false
unfolding hash_token generate_token text_eq
fresh = refl

expires : expiry world 1_728_000_100 90 ≡ ok (some (rfc3339 world.calendar 1_735_776_100))
unfolding expiry
expires = refl

register-CreatedOr_untouched_example :
    Post
      (CreatedOr world (request []) random carol state)
      (BrokenOr world (request []) random carol state)
      (register world (request []) random carol state)
register-CreatedOr_untouched_example =
    register-CreatedOr_untouched world (request []) random carol state

register_succeeds_example : register world (request []) random carol (calm state) ≡ (
  ok (welcome world (request []) random carol state),
  calm (record state {
    rate_limiter = (allow_register state.rate_limiter 7 1_000).1;
    pool =
        tables_after world
          (request [])
          random
          carol
          state
          (some (rfc3339 world.calendar 1_735_776_100));
  }),
)
register_succeeds_example =
    register_succeeds world (request []) random carol state tables-IsValid allowed admissible fresh
      expires

resolve_token-register_example :
    let s' = (register world (request []) random carol (calm state)).1 in
    resolve_token world (request (generate_token world random)) s' ≡ (ok 3, s')
resolve_token-register_example =
    resolve_token-register world (request []) random carol state tables-IsValid allowed admissible
      fresh expires (request (generate_token world random)) refl (omega arith) (omega arith) refl

lookup-register_example :
    (online : Bool) × (s' : AppState) × (lookup world
        (request [])
        (codes "CAROL")
        (register world (request []) random carol (calm state)).1
      ≡ (
        ok (record {
          status = StatusCode.ok;
          body =
              Body.profile
                (codes "Carol")
                carol.pubkey
                (codes "10.0.0.3")
                5001
                online
                (datetime world.calendar 1_728_000_100);
        }),
        s',
      ))
unfolding allow_lookup RateLimit.check
lookup-register_example =
    lookup-register world (request []) random carol state tables-IsValid allowed admissible fresh
      expires (request []) (codes "CAROL") refl refl
