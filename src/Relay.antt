-- ===== src/Relay.antt =====
-- The requests of src/relay.rs and its cleanup. A request runs to its end before the next, and a
-- socket that is opened is an outcome here; what goes over it is not modelled.
pub mod Spares
pub mod Sessions
pub mod References
pub mod Handover
pub mod Sockets
pub mod Fifo
pub mod Delivery
pub mod Exchange
pub mod Outcome
pub mod Unaware
use naleystogramm_server.Base.{
  ℕ, suc, ◌+◌, ◌-◌, inl, inr, Bool, true, false, not, ◌&&◌, List, [], ◌∷◌, ◌++◌, Option, none, some,
  Text, codes, text_eq, any, update_where, length, ltb, leb, HashMap, get, insert, remove,
  retain_values, if◌then◌else◌,
}
use naleystogramm_server.RateLimit.{from_secs, Instant}
use naleystogramm_server.Extern.{Extern, datetime}
use naleystogramm_server.Error.{
  StatusCode, Body, Response, refusal, forbidden, not_found, unique_violation,
  foreign_key_violation,
}
use naleystogramm_server.Tables.{Tables, RelaySession, Statement, has_user}
use naleystogramm_server.State.{AppState, InitializedRelay, PendingRelay}
use naleystogramm_server.Action.{Action, ok, ◌>>=◌, ◌>>◌, pure, gets, ok_or, throw_if, query}
use naleystogramm_server.Auth.{generate_token, hash_token}
use naleystogramm_server.Discovery.Requests.{Request, resolve_token}

-- INSERT INTO relay_sessions (id, creator_id)
unfoldable pub insert_session : Text → Text → ℕ → Statement (Unit {0})
insert_session now id creator_id t =
    if any (λ (r : RelaySession). text_eq r.id id) t.relay_sessions
    then inl unique_violation
    else if has_user creator_id t
    then inr (tt, record t { relay_sessions = t.relay_sessions ++ row ∷ [] })
    else inl foreign_key_violation
  where
    row : RelaySession
    row = record {
      id = id;
      creator_id = some creator_id;
      joiner_id = none;
      created_at = now;
      bytes_total = 0;
    }

-- UPDATE relay_sessions SET joiner_id=? WHERE id=?
unfoldable pub set_joiner : ℕ → Text → Statement (Unit {0})
set_joiner joiner_id id t =
    if any (λ (r : RelaySession). text_eq r.id id) t.relay_sessions && not (has_user joiner_id t)
    then inl foreign_key_violation
    else inr (
      tt,
      record t {
        relay_sessions =
            update_where (λ (r : RelaySession). text_eq r.id id)
              (λ r. record r { joiner_id = some joiner_id }) t.relay_sessions;
      },
    )

-- How many sessions the two maps hold.
abbrev pub sessions : AppState → ℕ
sessions s = length s.relay_init + length s.relay_pending

unfoldable pub insert_init : Text → InitializedRelay → Action (Unit {0})
insert_init id v s = (ok tt, record s { relay_init = insert id v s.relay_init })

-- What a WebSocket request comes to: a socket for the creator, one for the joiner, on the channels
-- of that number, or an answer without a socket.
pub data Opened : Type 0 where
  creator joiner : ℕ → Opened
  refused : Response → Opened

-- What `cleanup_loop` keeps, of a session that was created then.
abbrev pub is_young : ℕ → Instant → Instant → Bool
is_young timeout_seconds now created_at =
    ltb (now - created_at) (from_secs timeout_seconds + from_secs 30)

-- Whether a `Duration` does not hold the seconds of `timeout + 30s`.
abbrev pub no_duration : ℕ → Bool
no_duration timeout_seconds = leb 18_446_744_073_709_551_616 (timeout_seconds + 30)

-- One round of `cleanup_loop`. `timeout + 30s` may panic, which ends
-- the task before it has removed anything, in its first round and for good.
unfoldable pub cleanup : Instant → AppState → AppState
cleanup now s = if no_duration s.config.relay.session_timeout_seconds then s else record s {
  relay_init =
      retain_values
        (λ (v : InitializedRelay). is_young s.config.relay.session_timeout_seconds now v.created_at)
        s.relay_init;
  relay_pending =
      retain_values
        (λ (v : PendingRelay). is_young s.config.relay.session_timeout_seconds now v.created_at)
        s.relay_pending;
}

-- The part of `relay_ws` for a session that its creator has not connected to.
unfoldable pub open_creator :
    Instant → Text → Text → InitializedRelay → AppState → Opened × AppState
open_creator now session_id token_hash init s =
    if not (text_eq token_hash init.token_a_hash)
    then (
      Opened.refused
          (record { status = StatusCode.unauthorized; body = Body.plain (codes "invalid token") }),
      s,
    )
    else (
      Opened.creator s.next_channel,
      record s {
        relay_init = remove session_id s.relay_init;
        relay_pending =
            insert session_id
              (record {
                token_b_hash = init.token_b_hash;
                channels = s.next_channel;
                created_at = now;
              })
              s.relay_pending;
        next_channel = suc s.next_channel;
      },
    )

abbrev pub session_not_found : Opened
session_not_found =
    Opened.refused
      (record { status = StatusCode.not_found; body = Body.plain (codes "session not found") })

-- The part for all other sessions.
unfoldable pub open_joiner : Text → Text → AppState → Opened × AppState
open_joiner session_id token_hash s = elim (get session_id s.relay_pending) [
  | none ↦ (session_not_found, s)
  | some p ↦
      if text_eq p.token_b_hash token_hash
      then (
        Opened.joiner p.channels,
        record s { relay_pending = remove session_id s.relay_pending },
      )
      else (session_not_found, s)
]

module _ (x : Extern) where
  -- `session_id` is the new UUID, and the other two what the random generator gives.
  unfoldable pub relay_create : Request → Text → List ℕ → List ℕ → Action Response
  unfolding insert_init
  relay_create rq session_id random_a random_b = do
    cfg ← gets (λ s. s.config.relay)
    throw_if (not cfg.enabled) (forbidden (codes "relay_disabled"))
    creator_id ← resolve_token x rq
    cnt ← gets sessions
    let token_a = generate_token x random_a
    let token_b = generate_token x random_b
    if ltb 0 cfg.max_sessions && leb cfg.max_sessions cnt
        then pure (refusal StatusCode.service_unavailable (codes "max_sessions_reached"))
        else (do
          query (insert_session (datetime x.calendar rq.now) session_id creator_id)
          insert_init session_id (record {
            token_a_hash = hash_token x token_a;
            token_b = token_b;
            token_b_hash = hash_token x token_b;
            creator_id = creator_id;
            created_at = rq.instant;
          })
          pure (record { status = StatusCode.ok; body = Body.session session_id token_a }))

  unfoldable pub relay_join : Request → Text → Action Response
  relay_join rq session_id = do
    cfg ← gets (λ s. s.config.relay)
    throw_if (not cfg.enabled) (forbidden (codes "relay_disabled"))
    joiner_id ← resolve_token x rq
    found ← gets (λ s. get session_id s.relay_init)
    session ← ok_or found (not_found (codes "session_not_found"))
    query (set_joiner joiner_id session_id)
    pure (record { status = StatusCode.ok; body = Body.token_b session.token_b })

  unfoldable pub relay_ws : Instant → Text → Option Text → AppState → Opened × AppState
  unfolding open_creator open_joiner
  relay_ws now session_id none s = (
    Opened.refused
        (record { status = StatusCode.bad_request; body = Body.plain (codes "missing token") }),
    s,
  )
  relay_ws now session_id (some token) s = elim (get session_id s.relay_init) [
    | none ↦ open_joiner session_id (hash_token x token) s
    | some init ↦ open_creator now session_id (hash_token x token) init s
  ]

-- What happens to the relay: a request, a round of the cleanup, or a creator that closes or has
-- waited too long before a joiner has come (`creator_ws` then removes its session).
pub data Event : Type 0 where
  create : Request → Text → List ℕ → List ℕ → Event
  join : Request → Text → Event
  open_socket : Instant → Text → Option Text → Event
  creator_gone : Text → Event
  tick : Instant → Event

module _ (x : Extern) where
  unfoldable pub step : Event → AppState → AppState
  unfolding relay_create relay_join relay_ws cleanup
  step (create rq id a b) s = (relay_create x rq id a b s).1
  step (join rq id) s = (relay_join x rq id s).1
  step (open_socket now id token) s = (relay_ws x now id token s).1
  step (creator_gone id) s = record s { relay_pending = remove id s.relay_pending }
  step (tick now) s = cleanup now s

  unfoldable pub run : List Event → AppState → AppState
  unfolding step
  run [] s = s
  run (e ∷ es) s = run es (step e s)
