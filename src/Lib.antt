-- ===== src/Lib.antt =====
-- The server of the messenger naleystogramm: its directory, its group chat, and the relay that goes
-- with both.
--
-- The server is an axum program. Each request runs one handler on one shared `AppState`: an SQLite
-- database behind a pool, the configuration, the minimal client version, the rate limiter, and the
-- maps of the relay and the group. A background task refreshes the minimal version. In discovery
-- mode users register under a name, get a bearer token, publish an address and look each other up,
-- and two of them can meet in a relay session, whose creator and joiner have a token each. In group
-- mode members join under a name, get a token and the group's key, sealed for them, and post over
-- WebSockets; the server keeps the last messages and tells them to all who are connected.
--
-- Which file models what (paths from the repository's root):
--   RateLimit    src/rate_limit.rs, with Window for what runs of requests let through
--   Auth         src/auth.rs: `generate_token`, `hash_token`, `extract_bearer`
--   Version      src/version.rs: `satisfies`, `fetch_latest`, `refresh_loop` by its rounds
--   Error        src/error.rs: `AppError`, its response, and the shapes of the responses
--   Config       src/config.rs: the records; the field `open` is `is_open` here. Defaults has what
--                serde fills in, Files what files stand for
--   State        src/state.rs: `AppState` and `AppState::new`
--   Tables       src/db.rs and the SQL of src/discovery.rs: Rows are the tables, Statements the
--                statements, Valid what the schema promises, Kept that each statement keeps it;
--                GroupRows and GroupStatements are those of src/group.rs
--   Frames       the JSON texts that src/group.rs sends and reads over its sockets
--   Action       the body of a handler as a `do` block, its rules (Rules) and invariants (Reads,
--                Preserves)
--   Discovery    src/discovery.rs: Requests (`resolve_token`), Register, Directory (`info`, `lookup`,
--                `search`), Account (`update`, `heartbeat`, `unregister`), Tokens
--                (`token_refresh`), Invites (`invite_create`), Router (`router` and runs of requests)
--                and proofs named for what they prove: Validity, Capacity, Expiry, Unregister,
--                Search, Lookup, Register/Succeeds, Tokens/Limit and others
--   Relay        src/relay.rs: `relay_create`, `relay_join`, `relay_ws`, `cleanup_loop` by its rounds;
--                Sessions and Handover prove, Spares has rules. Sockets has `creator_ws` and
--                `joiner_ws` by the turns of their loops; Fifo, Delivery, Exchange and Outcome prove
--                what arrives, Unaware who learns of an end, References what the rows refer to
--   Group        src/group.rs: the requests; Sealing is `ecies_encrypt`, Broadcast `broadcast` and the
--                channels, Sockets `group_ws` and the turns of `group_ws_handler`, Runs all of them
--                in any order. Joins and Kept have rules, Valid and Validity the well-formed tables,
--                Recent, Posts and History the messages, Opening, Keys, Issue and Sharing the group
--                key, Names and Takeover the names, Unchanged, Roles and Limits the members, Copies
--                the receivers, Reconnect a second connection
--   Start        src/main.rs: the state, which routers `build_router` merges, and runs of the
--                discovery and relay handlers together; Serving and GroupMode prove
--   Extern       what other crates, SQLite and the standard library do: parameters
--   Base         lists, texts, maps and Boolean tests that the others share
--   Tests        the theorems at concrete requests
--
-- How the program is read. A handler is an `Action`: from an `AppState` to a value, an error or a
-- panic, and the next `AppState`; what was written before an error stays written. A `do` line is a
-- statement of the source, in its order, and `?` is the error that ends the block. A run serves one
-- request after the other: what two handlers do between their statements does not interleave. A
-- list of faults in the state says which of the coming statements the database fails, and the
-- theorems on runs hold for every such list, unless they say that nothing fails; `calm` states fail
-- none. Each statement is its own transaction, as there is no other in the source. SQLite enforces
-- the references, since `sqlx` turns `foreign_keys` on.
--
-- Texts are lists of code points. Numbers are natural numbers: those of the source are unsigned or
-- are counts of rows, they are only compared, counted up and added to times, and a sum beyond what
-- chrono represents is the panic that it is in the source. A request carries its instant on the
-- monotonic clock, in nanoseconds, and its time, in seconds since 1970: each handler reads the
-- clocks once here. What the random generator gives is an argument, 32 bytes for a token and a
-- `u32` for an invite code. The `Calendar` of Extern says how SQLite and chrono write times, and
-- the laws that it carries (dates and times of day are ordered as text, within years of four
-- digits) are what the theorems on expiry rest on. `decimal` takes one more than its number as
-- fuel, which is enough. A port carries the bound of a `u16`. In a LIKE pattern a NUL is a character
-- like any other, where SQLite ends the pattern.
--
-- A loop of a WebSocket handler is a step for each turn: which branch of its `select!` a turn takes,
-- what the peer sends and whether its socket takes a frame are part of the event, so that a list of
-- events is any schedule. A turn runs to its end before the next, and so does what a handler does
-- before its loop. A tokio channel is a queue with a number; a queue without a receiver takes
-- nothing, and one that is empty ends only when nobody holds a sender, so a relay session says who
-- holds it. X25519, HKDF and AES-GCM are functions with the laws of a Diffie-Hellman exchange and of a
-- cipher; that base64 decodes what it encoded is a hypothesis where it is needed. The group's tables
-- stand empty in the discovery mode, which creates none and asks for none.
--
-- Not modelled: how two requests interleave between their statements or locks, `create_pool` and the
-- migration of an older table in src/db.rs, a session timeout too
-- long for an `Instant`, on which `creator_ws` panics, arguments, logging and listening in
-- src/main.rs, the HTTP and JSON layer of axum and serde, and the deployment.
pub mod Base
pub mod RateLimit
pub mod Extern
pub mod Error
pub mod Config
pub mod Tables
pub mod Frames
pub mod State
pub mod Action
pub mod Auth
pub mod Version
pub mod Discovery
pub mod Relay
pub mod Start
pub mod Group
pub mod Tests
