-- ===== src/Relay/Unaware.antt =====
-- Who learns of the end of a relay session's other side (src/relay.rs).
pub mod Creator
pub mod Joiner
