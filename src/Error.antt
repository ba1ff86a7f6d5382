-- ===== src/Error.antt =====
-- src/error.rs: the error type of the handlers, and the responses that it and they become.
use naleystogramm_server.Frames.{Post}
use naleystogramm_server.Base.{ℕ, Bool, Option, none, some, List, Text, codes}

-- `sqlx::Error`, as far as the statements of the server can meet it: a violated constraint, or
-- any failure of the database itself.
pub data DbError : Type 0 where
  unique_violation foreign_key_violation unavailable : DbError

pub data AppError : Type 0 where
  db : DbError → AppError
  not_found : Text → AppError
  conflict : Text → AppError
  bad_request : Text → AppError
  forbidden : Text → AppError
  unauthorized : AppError
  too_many_requests : AppError
  internal : Text → AppError

-- `http::StatusCode`, as far as it is used.
pub data StatusCode : Type 0 where
  ok created no_content : StatusCode
  bad_request unauthorized forbidden not_found conflict : StatusCode
  upgrade_required too_many_requests internal_server_error service_unavailable : StatusCode

-- The answer of `/info`, but for what is nested in `stats`, which comes last.
pub record ServerInfo : Type 0 where
  pub name : Text
  pub description : Text
  pub mode : Text
  pub version : Text
  pub public : Bool
  pub is_open : Bool
  pub require_email : Bool
  pub require_invite : Bool
  pub min_client_version : Text
  pub relay_enabled : Bool
  pub users_total : ℕ
  pub users_online : ℕ

pub record GroupInfo : Type 0 where
  pub name : Text
  pub description : Text
  pub mode : Text
  pub invite_only : Bool
  pub broadcast_only : Bool
  pub members_total : ℕ
  pub members_online : ℕ

-- `{ "username", "role", "online", "joined_at" }`
pub record MemberInfo : Type 0 where
  pub username : Text
  pub role : Text
  pub online : Bool
  pub joined_at : Text

-- The JSON object of a response, by its shape.
pub data Body : Type 0 where
  -- `{ "error", "detail" }`, the second only if it is there
  error : Text → Option Text → Body
  -- `{ "error", "min_version" }`
  too_old : Text → Text → Body
  info : ServerInfo → Body
  -- `{ "token", "username", "server" }`
  registered : Text → Text → Text → Body
  -- `{ "username", "pubkey", "ip", "port", "online", "last_seen" }`
  profile : Text → Text → Text → ℕ → Bool → Text → Body
  -- `{ "users" }`
  users : List Text → Body
  -- `{ "ok": true }`
  done : Body
  -- no content
  nothing : Body
  -- `{ "token" }`
  token : Text → Body
  -- `{ "code" }`
  code : Text → Body
  -- `{ "session_id", "token_a" }`
  session : Text → Text → Body
  -- `{ "token_b" }`
  token_b : Text → Body
  -- the answer of the group's `/info`
  group_info : GroupInfo → Body
  -- `{ "token", "group_key_enc", "role" }`
  joined : Text → Text → Text → Body
  -- `{ "members" }`
  members : List MemberInfo → Body
  -- `{ "messages" }`
  messages : List Post → Body
  -- plain text
  plain : Text → Body
  -- the switch to the WebSocket protocol
  upgraded : Body

pub record Response : Type 0 where
  pub status : StatusCode
  pub body : Body

-- `{ "error": code }` with a status.
abbrev pub refusal : StatusCode → Text → Response
refusal st e = record { status = st; body = error e none }

abbrev pub refusal_with : StatusCode → Text → Text → Response
refusal_with st e d = record { status = st; body = error e (some d) }

-- `impl IntoResponse for AppError`; `message` is `to_string` of the database's errors.
unfoldable pub into_response : (DbError → Text) → AppError → Response
into_response message (not_found e) = refusal StatusCode.not_found e
into_response message (conflict e) = refusal StatusCode.conflict e
into_response message (bad_request e) = refusal_with StatusCode.bad_request (codes "bad_request") e
into_response message (forbidden e) = refusal StatusCode.forbidden e
into_response message unauthorized = refusal StatusCode.unauthorized (codes "unauthorized")
into_response message too_many_requests =
    refusal StatusCode.too_many_requests (codes "rate_limited")
into_response message (db e) =
    refusal_with StatusCode.internal_server_error (codes "db_error") (message e)
into_response message (internal e) =
    refusal_with StatusCode.internal_server_error (codes "internal_error") e
