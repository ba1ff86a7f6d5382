-- ===== src/Relay/Sessions.antt =====
-- How many relay sessions there are at a time (`max_sessions`, src/relay.rs).
use naleystogramm_server.Base.{
  ℕ, ◌+◌, ◌≤◌, ◌<◌, ◌≡◌, refl, inl, inr, Bool, not, ◌&&◌, List, [], ◌∷◌, Option, none, some, Text,
  text_eq, arith, length, length-insert-le, HashMap, get, remove, retain_values, Bool-cases,
  Option-cases, leb, ltb,
}
use naleystogramm_server.RateLimit.{Instant}
use naleystogramm_server.Extern.{Extern}
use naleystogramm_server.Config.{Config}
use naleystogramm_server.Tables.{Tables}
use naleystogramm_server.State.{AppState, InitializedRelay, new}
use naleystogramm_server.Action.{Action, ◌>>◌, pure, gets, throw_if, query}
use naleystogramm_server.Action.Rules.{Post, Post-bind, Post-weaken, post-always}
use naleystogramm_server.Auth.{hash_token}
use naleystogramm_server.Discovery.Requests.{Request, resolve_token}
use naleystogramm_server.Relay
use naleystogramm_server.Relay.{
  sessions, relay_create, relay_join, relay_ws, open_creator, open_joiner, insert_init,
  insert_session, cleanup, no_duration, Event, step, run,
}
use naleystogramm_server.Error.{Response}
use naleystogramm_server.Relay.Spares.{
  Spares-query, Spares-throw_if, Untouched, Spares, spares_rules, resolve_token-Spares,
}

module _ {V : Type 0} where
  length-remove-le : (k : Text) (m : HashMap V) → length (remove k m) ≤ length m
  unfolding remove
  length-remove-le k [] = omega arith
  length-remove-le k ((j, v) ∷ m) = ground (arith, length-remove-le k m)

  length-remove-lt :
      (k : Text) (v : V) (m : HashMap V) → get k m ≡ some v → length (remove k m) + 1 ≤ length m
  unfolding remove get
  length-remove-lt k v [] e = cc
  length-remove-lt k v ((j, w) ∷ m) e = ground (arith, length-remove-le k m, length-remove-lt k v m)

  length-retain_values-le :
      (keep : V → Bool) (m : HashMap V) → length (retain_values keep m) ≤ length m
  unfolding retain_values
  length-retain_values-le keep [] = omega arith
  length-retain_values-le keep ((j, v) ∷ m) = ground (arith, length-retain_values-le keep m)

-- Whether the bound that is configured is kept.
abbrev IsWithin : ℕ → AppState → Type 0
IsWithin n s = (s.config.relay.max_sessions ≡ n) × (sessions s ≤ n)

spared :
    {A : Type 0} (P : Config → ℕ → Type 0) (m : Action A) (s : AppState)
    → Spares m
    → P s.config (sessions s)
    → Post (λ _ s'. P s'.config (sessions s')) (λ _ s'. P s'.config (sessions s')) (m s)
spared P m s spares h =
    Post-weaken (λ _ s'. Untouched s s') (λ _ s'. Untouched s s')
      (λ _ s'. P s'.config (sessions s')) (λ _ s'. P s'.config (sessions s')) (m s) (spares.at s)
      (λ a s' u. rw (u.0, u.1, u.2) h) (λ e s' u. rw (u.0, u.1, u.2) h)

abbrev Within : ℕ → Config → ℕ → Type 0
Within n c k = (c.relay.max_sessions ≡ n) × (k ≤ n)

abbrev Below : ℕ → Config → ℕ → Type 0
Below n c k = (c.relay.max_sessions ≡ n) × (k < n)

open_creator-IsWithin :
    (n : ℕ) (now : Instant) (id hash : Text) (init : InitializedRelay) (s : AppState)
    → get id s.relay_init ≡ some init
    → IsWithin n s
    → IsWithin n (open_creator now id hash init s).1
unfolding open_creator
open_creator-IsWithin n now id hash init s e h =
    elim (Bool-cases (not (text_eq hash init.token_a_hash))) [
      | inl wrong ↦ rw wrong h
      | inr right ↦ rw right (
        h.0,
        omega (
          arith,
          h.1,
          length-remove-lt id init s.relay_init e,
          length-insert-le id
              (record {
                token_b_hash = init.token_b_hash;
                channels = s.next_channel;
                created_at = now;
              })
              s.relay_pending,
        ),
      )
    ]

open_joiner-IsWithin :
    (n : ℕ) (id hash : Text) (s : AppState) → IsWithin n s → IsWithin n (open_joiner id hash s).1
unfolding open_joiner
open_joiner-IsWithin n id hash s h = elim (Option-cases (get id s.relay_pending)) [
  | inl nothing ↦ rw (nothing, open_joiner) h
  | inr (p, e) ↦
      rw (e, open_joiner)
        (elim (Bool-cases (text_eq p.token_b_hash hash)) [
          | inr wrong ↦ rw wrong h
          | inl right ↦ rw right (h.0, omega (arith, h.1, length-remove-le id s.relay_pending))
        ])
]

-- A session that comes in below the bound.
insert_init-IsWithin :
    (n : ℕ) (id : Text) (v : InitializedRelay) (s : AppState)
    → s.config.relay.max_sessions ≡ n
    → sessions s < n
    → IsWithin n (insert_init id v s).1
unfolding insert_init
insert_init-IsWithin n id v s same below =
    (same, omega (arith, below, length-insert-le id v s.relay_init))

module _ (x : Extern) where
  relay_join-IsWithin :
      (n : ℕ) (rq : Request) (id : Text) (s : AppState)
      → IsWithin n s
      → IsWithin n (relay_join x rq id s).1
  unfolding relay_join
  relay_join-IsWithin n rq id s h = post-always (IsWithin n) (relay_join x rq id s) (
      spared (Within n) (relay_join x rq id) s
        (search (spares_rules, resolve_token-Spares) depth 12) h)

  relay_ws-IsWithin :
      (n : ℕ) (now : Instant) (id : Text) (token : Option Text) (s : AppState)
      → IsWithin n s
      → IsWithin n (relay_ws x now id token s).1
  unfolding relay_ws open_creator open_joiner
  relay_ws-IsWithin n now id none s h = h
  relay_ws-IsWithin n now id (some token) s h = elim (Option-cases (get id s.relay_init)) [
    | inl nothing ↦ rw (nothing, relay_ws) (open_joiner-IsWithin n id (hash_token x token) s h)
    | inr (init, e) ↦
        rw (e, relay_ws) (open_creator-IsWithin n now id (hash_token x token) init s e h)
  ]

  admitted :
      (n : ℕ) (now : Text) (id : Text) (creator_id : ℕ) (v : InitializedRelay) (answer : Response)
      (s : AppState)
      → Below n s.config (sessions s)
      → Post
          (λ _ s'. IsWithin n s')
          (λ _ s'. IsWithin n s')
          ((query (insert_session now id creator_id) >> (insert_init id v >> pure answer)) s)
  unfolding pure insert_init
  admitted n now id creator_id v answer s below =
      Post-bind (λ _ s'. Below n s'.config (sessions s')) (λ _ s'. IsWithin n s')
        (λ _ s'. IsWithin n s') (query _) _ s
        (Post-weaken (λ _ s'. Below n s'.config (sessions s'))
          (λ _ s'. Below n s'.config (sessions s')) (λ _ s'. Below n s'.config (sessions s'))
          (λ _ s'. IsWithin n s') (query (insert_session now id creator_id) s)
          (spared (Below n) (query _) s (Spares-query _) below) (λ a s' h. h)
          (λ e s' h. (h.0, omega (arith, h.1))))
        λ _ s' h.
          Post-bind (λ _ s'. IsWithin n s') (λ _ s'. IsWithin n s') (λ _ s'. IsWithin n s')
            (insert_init id v) _ s' (insert_init-IsWithin n id v s' h.0 h.1) λ _ s'' h'. h'

  relay_create-IsWithin :
      (n : ℕ) (rq : Request) (id : Text) (a b : List ℕ) (s : AppState)
      → 0 < n
      → IsWithin n s
      → IsWithin n (relay_create x rq id a b s).1
  unfolding relay_create gets pure
  relay_create-IsWithin n rq id a b s positive h =
      post-always (IsWithin n) (relay_create x rq id a b s) (
        Post-bind (λ cfg s'. (cfg.max_sessions ≡ n) × IsWithin n s') (λ _ s'. IsWithin n s')
          (λ _ s'. IsWithin n s') (gets _) _ s (h.0, h)
          λ cfg s₁ h₁.
            Post-bind (λ _ s'. IsWithin n s') (λ _ s'. IsWithin n s') (λ _ s'. IsWithin n s')
              (throw_if _ _) _ s₁ (spared (Within n) (throw_if _ _) s₁ (Spares-throw_if _ _) h₁.1)
              λ _ s₂ h₂.
                Post-bind (λ _ s'. IsWithin n s') (λ _ s'. IsWithin n s') (λ _ s'. IsWithin n s')
                  (resolve_token x rq) _ s₂
                  (spared (Within n) (resolve_token x rq) s₂ (resolve_token-Spares x rq) h₂)
                  λ i s₃ h₃.
                    Post-bind (λ cnt s'. (cnt ≡ sessions s') × IsWithin n s')
                      (λ _ s'. IsWithin n s') (λ _ s'. IsWithin n s') (gets sessions) _ s₃
                      (refl, h₃)
                      λ cnt s₄ h₄.
                        elim (Bool-cases (ltb 0 cfg.max_sessions && leb cfg.max_sessions cnt)) [
                          | inl full ↦ rw full h₄.1
                          | inr free ↦ rw free (admitted n _ id i _ _ s₄ (ground arith))
                        ])

  step-IsWithin :
      (n : ℕ) (e : Event) (s : AppState) → 0 < n → IsWithin n s → IsWithin n (step x e s)
  unfolding step cleanup
  step-IsWithin n (Relay.Event.create rq id a b) s positive h =
      relay_create-IsWithin n rq id a b s positive h
  step-IsWithin n (Relay.Event.join rq id) s positive h = relay_join-IsWithin n rq id s h
  step-IsWithin n (Relay.Event.open_socket now id token) s positive h =
      relay_ws-IsWithin n now id token s h
  step-IsWithin n (Relay.Event.creator_gone id) s positive h =
      (h.0, omega (arith, length-remove-le id s.relay_pending, h.1))
  step-IsWithin n (Relay.Event.tick now) s positive h =
      elim (Bool-cases (no_duration s.config.relay.session_timeout_seconds)) [
        | inl panics ↦ rw panics h
        | inr goes_on ↦ rw goes_on (
          h.0,
          omega (
            arith,
            length-retain_values-le _ s.relay_init,
            length-retain_values-le _ s.relay_pending,
            h.1,
          ),
        )
      ]

  run-IsWithin :
      (n : ℕ) (es : List Event) (s : AppState) → 0 < n → IsWithin n s → IsWithin n (run x es s)
  unfolding run
  run-IsWithin n [] s positive h = h
  run-IsWithin n (e ∷ es) s positive h =
      run-IsWithin n es (step x e s) positive (step-IsWithin n e s positive h)

  -- From the start of the server, with any database and whichever statements it fails, and whatever
  -- happens to the relay, one event after the other: where `max_sessions` is not 0, at most that
  -- many sessions wait for their creator or their joiner.
  pub sessions-run :
      (es : List Event) (pool : Tables) (faults : List Bool) (config : Config) (mode : Text)
      → 0 < config.relay.max_sessions
      → sessions (run x es (new pool faults config mode)) ≤ config.relay.max_sessions
  unfolding new
  sessions-run es pool faults config mode positive =
      (run-IsWithin config.relay.max_sessions es (new pool faults config mode) positive
        (refl, omega arith)).1
