-- ===== src/Tables/Rows.antt =====
-- The rows of each table of src/db.rs, and the database.
use naleystogramm_server.Base.{ℕ, List, [], Option, Text}
use naleystogramm_server.Tables.GroupRows.{GroupTables}

pub record User : Type 0 where
  pub id : ℕ
  pub username : Text
  pub username_lc : Text
  pub pubkey : Text
  pub email : Option Text
  pub created_at : Text

pub record Presence : Type 0 where
  pub user_id : ℕ
  pub ip : Text
  pub port : ℕ
  pub last_seen : Text

pub record Token : Type 0 where
  pub id : ℕ
  pub user_id : ℕ
  pub token_hash : Text
  pub created_at : Text
  pub expires_at : Option Text

pub record Invite : Type 0 where
  pub code : Text
  pub created_by : Option ℕ
  pub used_by : Option ℕ
  pub created_at : Text
  pub used_at : Option Text

pub record RelaySession : Type 0 where
  pub id : Text
  pub creator_id : Option ℕ
  pub joiner_id : Option ℕ
  pub created_at : Text
  pub bytes_total : ℕ

pub record Tables : Type 0 where
  pub users : List User
  pub users_seq : ℕ
  pub presence : List Presence
  pub tokens : List Token
  pub tokens_seq : ℕ
  pub invites : List Invite
  pub relay_sessions : List RelaySession
  -- the tables of the modes `group` and `channel`, empty in the others
  pub group : GroupTables

-- The tables that `migrate` creates in a new file.
unfoldable pub migrate : Tables
migrate = record {
  users = [];
  users_seq = 0;
  presence = [];
  tokens = [];
  tokens_seq = 0;
  invites = [];
  relay_sessions = [];
  group = record { members = []; members_seq = 0; messages = []; messages_seq = 0; settings = [] };
}
