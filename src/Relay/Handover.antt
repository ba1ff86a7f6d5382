-- ===== src/Relay/Handover.antt =====
-- Who gets a socket of a relay session (`relay_ws` of src/relay.rs).
use naleystogramm_server.Base.{
  suc, ◌≡◌, refl, ◌∙◌, ap, sym, inl, inr, none, some, Text, text_eq, text_eq_iff, text_eq_refl,
  HashMap, get, insert, remove, get-insert, get-remove, Bool-cases, Option-cases,
}
use naleystogramm_server.RateLimit.{Instant}
use naleystogramm_server.Extern.{Extern}
use naleystogramm_server.State.{AppState, InitializedRelay, PendingRelay}
use naleystogramm_server.Auth.{hash_token}
use naleystogramm_server.Relay.{Opened, open_creator, open_joiner, relay_ws, session_not_found}

-- What the token's hash must be for what a request comes to; a refused one has changed nothing.
abbrev pub IsEntitled : AppState → Text → Text → Opened × AppState → Type 0
IsEntitled s id hash (Opened.creator c, s') =
    (init : InitializedRelay) × (get id s.relay_init ≡ some init)
    × (hash ≡ init.token_a_hash)
    × (get id s'.relay_init ≡ none)
IsEntitled s id hash (Opened.joiner c, s') =
    (p : PendingRelay) × (get id s.relay_pending ≡ some p)
    × (hash ≡ p.token_b_hash)
    × (c ≡ p.channels)
    × (get id s'.relay_pending ≡ none)
IsEntitled s id hash (Opened.refused r, s') = s' ≡ s

get-removed : {V : Type 0} (k : Text) (m : HashMap V) → get k (remove k m) ≡ none
get-removed k m = get-remove k k m ∙ (rw (text_eq_refl k) refl)

get-inserted : {V : Type 0} (k : Text) (v : V) (m : HashMap V) → get k (insert k v m) ≡ some v
get-inserted k v m = get-insert k k v m ∙ (rw (text_eq_refl k) refl)

open_creator-IsEntitled :
    (now : Instant) (id hash : Text) (init : InitializedRelay) (s : AppState)
    → get id s.relay_init ≡ some init
    → IsEntitled s id hash (open_creator now id hash init s)
unfolding open_creator
open_creator-IsEntitled now id hash init s e = elim (Bool-cases (text_eq hash init.token_a_hash)) [
  | inr wrong ↦ rw wrong refl
  | inl right ↦
      rw right (init, e, (text_eq_iff hash init.token_a_hash).0 right, get-removed id s.relay_init)
]

open_joiner-IsEntitled :
    (id hash : Text) (s : AppState) → IsEntitled s id hash (open_joiner id hash s)
unfolding open_joiner
open_joiner-IsEntitled id hash s = elim (Option-cases (get id s.relay_pending)) [
  | inl nothing ↦ rw (nothing, open_joiner) refl
  | inr (p, e) ↦
      rw (e, open_joiner)
        (elim (Bool-cases (text_eq p.token_b_hash hash)) [
          | inr wrong ↦ rw wrong refl
          | inl right ↦ rw right (
            p,
            e,
            cc ((text_eq_iff p.token_b_hash hash).0 right),
            refl,
            get-removed id s.relay_pending,
          )
        ])
]

module _ (now : Instant) (id : Text) (init : InitializedRelay) (s : AppState) where
  -- The session once its creator is there, and the state then, and after the joiner.
  abbrev waiting : PendingRelay
  waiting = record { token_b_hash = init.token_b_hash; channels = s.next_channel; created_at = now }

  abbrev after_creator : AppState
  after_creator = record s {
    relay_init = remove id s.relay_init;
    relay_pending = insert id waiting s.relay_pending;
    next_channel = suc s.next_channel;
  }

  abbrev after_joiner : AppState
  after_joiner = record after_creator { relay_pending = remove id after_creator.relay_pending }

module _ (x : Extern) where
  -- A WebSocket request with a token gets the creator's socket only with the hash of the session's
  -- first token, on a session that then is no longer waiting for its creator, and the joiner's only
  -- with that of the second, on the channels of the session, which then is no longer waiting for a
  -- joiner; where it gets no socket it has changed nothing.
  pub relay_ws-IsEntitled :
      (now : Instant) (id token : Text) (s : AppState)
      → IsEntitled s id (hash_token x token) (relay_ws x now id (some token) s)
  unfolding relay_ws
  relay_ws-IsEntitled now id token s = elim (Option-cases (get id s.relay_init)) [
    | inl nothing ↦ rw (nothing, relay_ws) (open_joiner-IsEntitled id (hash_token x token) s)
    | inr (init, e) ↦
        rw (e, relay_ws) (open_creator-IsEntitled now id (hash_token x token) init s e)
  ]

  creator-opens :
      (now : Instant) (id token_a : Text) (init : InitializedRelay) (s : AppState)
      → get id s.relay_init ≡ some init
      → hash_token x token_a ≡ init.token_a_hash
      → relay_ws x now id (some token_a) s
        ≡ (Opened.creator s.next_channel, after_creator now id init s)
  unfolding relay_ws open_creator
  creator-opens now id token_a init s there right =
      rw (there, relay_ws) (rw ((text_eq_iff _ _).1 right) refl)

  joiner-opens :
      (now : Instant) (id token_b : Text) (p : PendingRelay) (s : AppState)
      → get id s.relay_init ≡ none
      → get id s.relay_pending ≡ some p
      → p.token_b_hash ≡ hash_token x token_b
      → relay_ws x now id (some token_b) s
        ≡ (Opened.joiner p.channels, record s { relay_pending = remove id s.relay_pending })
  unfolding relay_ws open_joiner
  joiner-opens now id token_b p s gone there right =
      rw (gone, relay_ws) (rw (there, open_joiner) (rw ((text_eq_iff _ _).1 right) refl))

  nobody-opens :
      (now : Instant) (id token : Text) (s : AppState)
      → get id s.relay_init ≡ none
      → get id s.relay_pending ≡ none
      → relay_ws x now id (some token) s ≡ (session_not_found, s)
  unfolding relay_ws open_joiner
  nobody-opens now id token s gone gone' = rw (gone, relay_ws) (rw (gone', open_joiner) refl)

  -- Where a session waits for its creator, a request with a token of its first hash and then one with
  -- a token of its second get the creator's and the joiner's socket, both on the channels of the next
  -- number; after the two, no token opens the session.
  pub relay_ws-handover :
      (now now' now'' : Instant) (id token_a token_b token : Text) (init : InitializedRelay)
      (s : AppState)
      → get id s.relay_init ≡ some init
      → hash_token x token_a ≡ init.token_a_hash
      → hash_token x token_b ≡ init.token_b_hash
      → let first = relay_ws x now id (some token_a) s in
        let second = relay_ws x now' id (some token_b) first.1 in
        (first.0 ≡ Opened.creator s.next_channel)
        × (second.0 ≡ Opened.joiner s.next_channel)
        × ((relay_ws x now'' id (some token) second.1).0 ≡ session_not_found)
  relay_ws-handover now now' now'' id token_a token_b token init s there right_a right_b =
      rw (creator-opens now id token_a init s there right_a) (
        rw
          (joiner-opens now' id token_b (waiting now id init s) (after_creator now id init s)
            (get-removed id s.relay_init) (get-inserted id _ s.relay_pending) (sym right_b))
          (
            refl,
            refl,
            ap (λ r. r.0)
                (nobody-opens now'' id token (after_joiner now id init s)
                  (get-removed id s.relay_init)
                  (get-removed id (after_creator now id init s).relay_pending)),
          ))
