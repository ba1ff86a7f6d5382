-- ===== src/Tables/GroupRows.antt =====
-- The rows of the tables that src/db.rs creates for the modes `group` and `channel`.
use naleystogramm_server.Base.{ℕ, List, Text}

pub record Member : Type 0 where
  pub id : ℕ
  pub username : Text
  pub pubkey : Text
  pub token_hash : Text
  pub role : Text
  pub joined_at : Text

pub record Message : Type 0 where
  pub id : ℕ
  pub sender : Text
  pub content : Text
  pub ts : ℕ

pub record Setting : Type 0 where
  pub key : Text
  pub value : Text

pub record GroupTables : Type 0 where
  pub members : List Member
  pub members_seq : ℕ
  pub messages : List Message
  pub messages_seq : ℕ
  pub settings : List Setting
