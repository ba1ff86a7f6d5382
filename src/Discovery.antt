-- ===== src/Discovery.antt =====
-- src/discovery.rs: the handlers of discovery mode, a module to a group of endpoints. A request
-- reads the clocks once; what it takes from the random generator is an argument.
pub mod Requests
pub mod Register
pub mod Directory
pub mod Account
pub mod Tokens
pub mod Invites
pub mod Checks
pub mod Writes
pub mod Validity
pub mod Settings
pub mod NoMore
pub mod Places
pub mod Capacity
pub mod Router
pub mod Expiry
pub mod Lookup
pub mod Unregister
pub mod Search
