-- ===== src/Frames.antt =====
-- The JSON texts that src/group.rs sends over its WebSockets, by their fields, and what it looks at
-- in those that it receives.
use naleystogramm_server.Base.{ℕ, List, Option, Text}

-- A message as `/group/history` and the history frame show it: `{ "sender", "data", "ts" }`.
pub record Post : Type 0 where
  pub sender : Text
  pub content : Text
  pub ts : ℕ

pub data Frame : Type 0 where
  -- `{ "type": "join", "username", "role" }`
  join : Text → Text → Frame
  -- `{ "type": "leave", "username" }`
  leave : Text → Frame
  -- `{ "type": "msg", "sender", "data", "ts" }`
  msg : Post → Frame
  -- `{ "type": "history", "messages" }`
  history : List Post → Frame
  -- `{ "type": "error", "code", "detail" }`
  error : Text → Text → Frame
  -- a WebSocket pong
  pong : List ℕ → Frame

-- A JSON value as the handler reads it: `v["type"]` and `v["data"]`, each if it is there and a text.
pub record Json : Type 0 where
  pub kind : Option Text
  pub content : Option Text

-- What a member's socket gives: a text, which is JSON or is not, a ping, or anything else (another
-- frame, a close, an error or the end).
pub data Incoming : Type 0 where
  text : Option Json → Incoming
  ping : List ℕ → Incoming
  other : Incoming
