-- ===== src/Discovery/Tokens.antt =====
-- `token_refresh` of src/discovery.rs.
pub mod Oldest
pub mod Bound
pub mod Issue
pub mod Limit
use naleystogramm_server.Action.{lift}
use naleystogramm_server.Base.{ℕ, List, leb, ◌==◌, count_where, if◌then◌else◌}
use naleystogramm_server.Extern.{Extern, datetime}
use naleystogramm_server.Error.{StatusCode, Body, Response}
use naleystogramm_server.Tables.{Tables, select, delete_oldest_token, insert_token}
use naleystogramm_server.Action.{Action, ◌>>=◌, ◌>>◌, pure, gets, query}
use naleystogramm_server.Auth.{generate_token, hash_token}
use naleystogramm_server.Discovery.Requests.{Request, resolve_token, expiry}

-- SELECT COUNT(*) FROM tokens WHERE user_id=?
abbrev pub tokens_of : ℕ → Tables → ℕ
tokens_of user_id t = count_where (λ k. k.user_id == user_id) t.tokens

-- Beyond the limit the oldest token goes.
unfoldable pub make_room : ℕ → ℕ → Action (Unit {0})
make_room max_per_user user_id = do
  cnt ← query (select (tokens_of user_id))
  if leb max_per_user cnt then query (delete_oldest_token user_id) else pure tt

module _ (x : Extern) where
  unfoldable pub token_refresh : Request → List ℕ → Action Response
  unfolding make_room
  token_refresh rq random = do
    user_id ← resolve_token x rq
    cfg ← gets (λ s. s.config.tokens)
    make_room cfg.max_per_user user_id
    let token = generate_token x random
    expires_at ← lift (expiry x rq.now cfg.ttl_days)
    query (insert_token (datetime x.calendar rq.now) user_id (hash_token x token) expires_at)
    pure (record { status = StatusCode.ok; body = Body.token token })
