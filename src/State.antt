-- ===== src/State.antt =====
-- src/state.rs: the state that all handlers share.
-- A tokio channel or the shared half of a relay is an object with an identity; the state names it
-- by a number, and `next_channel` is the first number that names none.
use naleystogramm_server.Base.{ℕ, Bool, List, [], Text, codes, text_eq, HashMap, if◌then◌else◌}
use naleystogramm_server.RateLimit.{RateLimiter}
use naleystogramm_server.RateLimit
use naleystogramm_server.Config.{Config}
use naleystogramm_server.Frames.{Frame}
use naleystogramm_server.Tables.{Tables}

-- A relay session that `POST /relay/create` made and no WebSocket has joined.
pub record InitializedRelay : Type 0 where
  pub token_a_hash : Text
  pub token_b : Text
  pub token_b_hash : Text
  pub creator_id : ℕ
  pub created_at : ℕ

-- The creator's WebSocket is connected and the joiner's is not. `channels` names the two channels
-- and the notification that the two sides share.
pub record PendingRelay : Type 0 where
  pub token_b_hash : Text
  pub channels : ℕ
  pub created_at : ℕ

-- `pool` is the content of the database, and `faults` says of each statement to come whether the
-- database fails it; statements beyond its end do not fail. `group_conns` maps a username to the
-- channel of its sender, and `group_queues` has what waits in each channel that has a receiver.
pub record AppState : Type 0 where
  pub pool : Tables
  pub faults : List Bool
  pub config : Config
  pub mode : Text
  pub min_version : Text
  pub rate_limiter : RateLimiter
  pub relay_init : HashMap InitializedRelay
  pub relay_pending : HashMap PendingRelay
  pub group_conns : HashMap ℕ
  pub group_queues : List (ℕ × List Frame)
  pub next_channel : ℕ

-- `AppState::new`
unfoldable pub new : Tables → List Bool → Config → Text → AppState
new pool faults config mode = record {
  pool = pool;
  faults = faults;
  config = config;
  mode = mode;
  min_version =
      if text_eq config.compatibility.min_client_version (codes "latest")
      then codes "0.0.0"
      else config.compatibility.min_client_version;
  rate_limiter = RateLimit.new;
  relay_init = [];
  relay_pending = [];
  group_conns = [];
  group_queues = [];
  next_channel = 0;
}
