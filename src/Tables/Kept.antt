-- ===== src/Tables/Kept.antt =====
-- Every statement of the discovery handlers keeps the database well-formed.
mod Columns
mod Users
mod Presence
mod Tokens
mod Invites
pub use Columns.{Leaves, fresh_key, with_sessions}
pub use Users.*
pub use Presence.*
pub use Tokens.*
pub use Invites.*
