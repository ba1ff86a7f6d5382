-- ===== src/Discovery/Account.antt =====
-- `update`, `heartbeat` and `unregister` of src/discovery.rs.
use naleystogramm_server.Base.{ℕ, ◌<◌, not, Text, codes}
use naleystogramm_server.Extern.{Extern, datetime}
use naleystogramm_server.Error.{StatusCode, Body, Response, bad_request}
use naleystogramm_server.Tables.{upsert_presence, touch_presence, delete_user}
use naleystogramm_server.Action.{Action, ◌>>=◌, ◌>>◌, pure, throw_if, query}
use naleystogramm_server.Discovery.Requests.{Request, resolve_token}

pub record UpdateReq : Type 0 where
  pub ip : Text
  pub port : ℕ
  pub port_bound : port < 65536

abbrev pub done : Response
done = record { status = StatusCode.ok; body = Body.done }

module _ (x : Extern) where
  unfoldable pub update : Request → UpdateReq → Action Response
  update rq body = do
    user_id ← resolve_token x rq
    throw_if (not (x.is_ip_addr body.ip)) (bad_request (codes "invalid ip"))
    query (upsert_presence (datetime x.calendar rq.now) user_id body.ip body.port)
    pure done

  unfoldable pub heartbeat : Request → Action Response
  heartbeat rq = do
    user_id ← resolve_token x rq
    query (touch_presence (datetime x.calendar rq.now) user_id)
    pure done

  unfoldable pub unregister : Request → Action Response
  unregister rq = do
    user_id ← resolve_token x rq
    query (delete_user user_id)
    pure (record { status = StatusCode.no_content; body = Body.nothing })
