-- ===== src/Discovery/Register/Succeeds.antt =====
-- The registration that goes through (`register` of src/discovery.rs), and all that it changes.
use naleystogramm_server.Base.{ℕ, ◌≡◌, refl, ◌∙◌, true, false, List, Option, Text, any}
use naleystogramm_server.RateLimit.{allow_register}
use naleystogramm_server.Extern.{Extern}
use naleystogramm_server.Tables.{has_hash}
use naleystogramm_server.Tables.Valid.{IsValid}
use naleystogramm_server.State.{AppState}
use naleystogramm_server.Action.{ok, gets, throw_if}
use naleystogramm_server.Action.Rules.{calm, bind-ok}
use naleystogramm_server.Auth.{hash_token, generate_token}
use naleystogramm_server.Discovery.Requests.{Request, expiry}
use naleystogramm_server.Discovery.Register.{
  RegisterReq, register, register_current, limit_register, client_too_old,
}
use naleystogramm_server.Discovery.Register.Admits.{IsAdmissible, check_body-ok, server_full-ok}
use naleystogramm_server.Discovery.Register.Account.{tables_after, welcome, create_account-ok}

module _ (x : Extern) (rq : Request) (random : List ℕ) (body : RegisterReq) (s : AppState) where
  -- The state once the limiter has counted the request.
  abbrev counted : AppState
  counted = record s { rate_limiter = (allow_register s.rate_limiter rq.addr rq.instant).1 }

  still_admissible : IsAdmissible x body s → IsAdmissible x body counted
  unfolding client_too_old
  still_admissible a = record {
    current = a.current;
    invited = a.invited;
    long_enough = a.long_enough;
    short_enough = a.short_enough;
    matches = a.matches;
    free = a.free;
    key_decodes = a.key_decodes;
    ip = a.ip;
    email = a.email;
    room = a.room;
  }

module _ (x : Extern) (rq : Request) (random : List ℕ) (body : RegisterReq) (s : AppState) where
  register_current-ok :
      {expires_at : Option Text}
      → IsValid x.to_lowercase s.pool
      → IsAdmissible x body s
      → any (has_hash (hash_token x (generate_token x random))) s.pool.tokens ≡ false
      → expiry x rq.now s.config.tokens.ttl_days ≡ ok expires_at
      → register_current x rq random body (calm s) ≡ (
        ok (welcome x rq random body s),
        calm (record s { pool = tables_after x rq random body s expires_at }),
      )
  unfolding register_current
  register_current-ok v a fresh expires =
      bind-ok _ _ (check_body-ok x body s a)
      ∙ bind-ok _ _ (server_full-ok x body s a)
      ∙ create_account-ok x rq random body s v a.free fresh expires

module _ (x : Extern) (rq : Request) (random : List ℕ) (body : RegisterReq) (s : AppState) where
  -- A registration that the limiter allows and whose parts all pass is answered with 201, the new
  -- token and the username, in a well-formed database that fails no statement, if the token's hash
  -- is not taken: a user with the next id, its presence and its token are added, the invite that
  -- the request names is marked as the new user's, and the limiter has counted the request; the
  -- rest of the state is as before. No part is asked of the port: 0 is as good as any.
  pub register_succeeds :
      {expires_at : Option Text}
      → IsValid x.to_lowercase s.pool
      → (allow_register s.rate_limiter rq.addr rq.instant).0 ≡ true
      → IsAdmissible x body s
      → any (has_hash (hash_token x (generate_token x random))) s.pool.tokens ≡ false
      → expiry x rq.now s.config.tokens.ttl_days ≡ ok expires_at
      → register x rq random body (calm s) ≡ (
        ok (welcome x rq random body s),
        calm (record s {
          rate_limiter = (allow_register s.rate_limiter rq.addr rq.instant).1;
          pool = tables_after x rq random body s expires_at;
        }),
      )
  unfolding register limit_register throw_if gets client_too_old
  register_succeeds v allowed a fresh expires =
      bind-ok _ _ refl
      ∙ bind-ok _ _ {s' = calm (counted x rq random body s)} {a = tt} (rw allowed refl)
      ∙ bind-ok _ _ refl
      ∙ rw a.current (
          register_current-ok x rq random body (counted x rq random body s) v
            (still_admissible x rq random body s a) fresh expires)
