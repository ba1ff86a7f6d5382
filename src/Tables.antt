-- ===== src/Tables.antt =====
-- src/db.rs: the tables. A table is the list of its rows, oldest first; an AUTOINCREMENT column
-- has the last number that it gave. SQLite writes a `datetime('now')` default when a row comes in.
mod Rows
mod Statements
mod GroupRows
mod GroupStatements
pub mod Valid
pub mod Kept
pub use Rows.*
unfoldable pub use Statements.*
pub use GroupRows.*
unfoldable pub use GroupStatements.*
