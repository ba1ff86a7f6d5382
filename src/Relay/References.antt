-- ===== src/Relay/References.antt =====
-- The relay (src/relay.rs) keeps the database well-formed: a session's row refers to its creator and
-- its joiner.
use naleystogramm_server.Base.{
  ℕ, refl, inl, inr, List, Option, none, some, Text, text_eq, text_eq_iff, Bool-cases, Option-cases,
  All-append, All-update_where, Distinct-append, Distinct-update_where, update_where-none, any, get,
}
use naleystogramm_server.Extern.{Extern}
use naleystogramm_server.Tables.{Tables, RelaySession, has_user}
use naleystogramm_server.Tables.Valid.{IsValid}
use naleystogramm_server.Tables.Kept.{Leaves, fresh_key, with_sessions}
use naleystogramm_server.RateLimit.{Instant}
use naleystogramm_server.State.{AppState, InitializedRelay}
use naleystogramm_server.Action.{query}
use naleystogramm_server.Action.Rules.{post-always}
use naleystogramm_server.Action.Reads.{
  Keeps, Keeps-bind, Keeps-query, Keeps-if, Keeps-Reads, reads_rules, Reads-pure,
}
use naleystogramm_server.Auth.{hash_token}
use naleystogramm_server.Discovery.Requests.{Request}
use naleystogramm_server.Discovery.Checks.{resolve_token-Reads}
use naleystogramm_server.Discovery.Writes.{Valid}
use naleystogramm_server.Relay
use naleystogramm_server.Relay.{
  insert_session, set_joiner, insert_init, relay_create, relay_join, relay_ws, open_creator,
  open_joiner, cleanup, no_duration, Event, step,
}

module _ (to_lowercase : Text → Text) where
  insert_session-IsValid :
      (now id : Text) (creator_id : ℕ) (t : Tables)
      → IsValid to_lowercase t
      → Leaves (IsValid to_lowercase) (insert_session now id creator_id t)
  unfolding insert_session
  insert_session-IsValid now id creator_id t v =
      elim (Bool-cases (any (λ (r : RelaySession). text_eq r.id id) t.relay_sessions)) [
        | inl taken ↦ rw taken tt
        | inr free ↦ rw free (elim (Bool-cases (has_user creator_id t)) [
          | inr missing ↦ rw missing tt
          | inl there ↦ rw there (
              with_sessions to_lowercase t v _
                (Distinct-append _ t.relay_sessions _
                  (fresh_key _ (λ (r : RelaySession). text_eq r.id id) id t.relay_sessions
                    (λ r e. (text_eq_iff r.id id).1 e) free)
                  v.session_ids)
                (All-append _ t.relay_sessions _ v.sessions_refer ((there, refl), tt)))
        ])
      ]

  set_joiner-IsValid :
      (joiner_id : ℕ) (id : Text) (t : Tables)
      → IsValid to_lowercase t
      → Leaves (IsValid to_lowercase) (set_joiner joiner_id id t)
  unfolding set_joiner
  set_joiner-IsValid joiner_id id t v =
      elim (Bool-cases (any (λ (r : RelaySession). text_eq r.id id) t.relay_sessions)) [
        | inr absent ↦
            rw
              (
                absent,
                update_where-none (λ (r : RelaySession). text_eq r.id id)
                    (λ r. record r { joiner_id = some joiner_id }) t.relay_sessions absent,
              )
              v
        | inl found ↦ rw found (elim (Bool-cases (has_user joiner_id t)) [
          | inr missing ↦ rw missing tt
          | inl there ↦ rw there (
              with_sessions to_lowercase t v _
                (Distinct-update_where _ (λ (r : RelaySession). text_eq r.id id) _ t.relay_sessions
                  (λ r. refl) v.session_ids)
                (All-update_where _ (λ (r : RelaySession). text_eq r.id id) _ t.relay_sessions
                  (λ r h. (h.0, there)) v.sessions_refer))
        ])
      ]

module _ (x : Extern) where
  insert_init-Keeps : (id : Text) (v : InitializedRelay) → Keeps (Valid x) (insert_init id v)
  unfolding insert_init
  insert_init-Keeps id v = record { at = λ s h. h }

  insert_session-Keeps :
      (now id : Text) (creator_id : ℕ) → Keeps (Valid x) (query (insert_session now id creator_id))
  insert_session-Keeps now id creator_id =
      Keeps-query _ (λ _. insert_session-IsValid x.to_lowercase now id creator_id)

  relay_create-Keeps :
      (rq : Request) (id : Text) (random_a random_b : List ℕ)
      → Keeps (Valid x) (relay_create x rq id random_a random_b)
  unfolding relay_create
  relay_create-Keeps rq id random_a random_b =
      Keeps-bind _ _ (Keeps-Reads _ (search reads_rules)) λ cfg.
        Keeps-bind _ _ (Keeps-Reads _ (search reads_rules)) λ _.
          Keeps-bind _ _ (Keeps-Reads _ (resolve_token-Reads x rq)) λ creator_id.
            Keeps-bind _ _ (Keeps-Reads _ (search reads_rules)) λ cnt.
              Keeps-if _ _ _ (Keeps-Reads _ (Reads-pure _)) (
                Keeps-bind _ _ (insert_session-Keeps _ id creator_id)
                  λ _. Keeps-bind _ _ (insert_init-Keeps id _) λ _. Keeps-Reads _ (Reads-pure _))

  relay_join-Keeps : (rq : Request) (id : Text) → Keeps (Valid x) (relay_join x rq id)
  unfolding relay_join
  relay_join-Keeps rq id = Keeps-bind _ _ (Keeps-Reads _ (search reads_rules)) λ cfg.
      Keeps-bind _ _ (Keeps-Reads _ (search reads_rules)) λ _.
        Keeps-bind _ _ (Keeps-Reads _ (resolve_token-Reads x rq)) λ joiner_id.
          Keeps-bind _ _ (Keeps-Reads _ (search reads_rules)) λ found.
            Keeps-bind _ _ (Keeps-Reads _ (search reads_rules)) λ session.
              Keeps-bind _ _ (Keeps-query _ (λ _. set_joiner-IsValid x.to_lowercase joiner_id id))
                λ _. Keeps-Reads _ (Reads-pure _)

  -- A socket that is opened changes neither the tables nor the configuration.
  open_creator-Valid :
      (now : Instant) (id hash : Text) (init : InitializedRelay) (s : AppState)
      → Valid x s.config s.pool
      → Valid x (open_creator now id hash init s).1.config (open_creator now id hash init s).1.pool
  unfolding open_creator
  open_creator-Valid now id hash init s h = elim (Bool-cases (text_eq hash init.token_a_hash)) [
    | inl right ↦ rw right h
    | inr wrong ↦ rw wrong h
  ]

  open_joiner-Valid :
      (id hash : Text) (s : AppState)
      → Valid x s.config s.pool
      → Valid x (open_joiner id hash s).1.config (open_joiner id hash s).1.pool
  unfolding open_joiner
  open_joiner-Valid id hash s h = elim (Option-cases (get id s.relay_pending)) [
    | inl missing ↦ rw (missing, open_joiner) h
    | inr (p, there) ↦
        rw (there, open_joiner)
          (elim (Bool-cases (text_eq p.token_b_hash hash)) [
            | inl right ↦ rw right h
            | inr wrong ↦ rw wrong h
          ])
  ]

  relay_ws-Valid :
      (now : Instant) (id : Text) (token : Option Text) (s : AppState)
      → Valid x s.config s.pool
      → Valid x (relay_ws x now id token s).1.config (relay_ws x now id token s).1.pool
  unfolding relay_ws
  relay_ws-Valid now id none s h = h
  relay_ws-Valid now id (some token) s h = elim (Option-cases (get id s.relay_init)) [
    | inl missing ↦ rw (missing, relay_ws) (open_joiner-Valid id (hash_token x token) s h)
    | inr (init, there) ↦
        rw (there, relay_ws) (open_creator-Valid now id (hash_token x token) init s h)
  ]

  pub step-Valid :
      (e : Event) (s : AppState)
      → Valid x s.config s.pool
      → Valid x (step x e s).config (step x e s).pool
  unfolding step cleanup
  step-Valid (Relay.Event.create rq id a b) s h =
      post-always _ (relay_create x rq id a b s) ((relay_create-Keeps rq id a b).at s h)
  step-Valid (Relay.Event.join rq id) s h =
      post-always _ (relay_join x rq id s) ((relay_join-Keeps rq id).at s h)
  step-Valid (Relay.Event.open_socket now id token) s h = relay_ws-Valid now id token s h
  step-Valid (Relay.Event.creator_gone id) s h = h
  step-Valid (Relay.Event.tick now) s h =
      elim (Bool-cases (no_duration s.config.relay.session_timeout_seconds)) [
        | inl panics ↦ rw panics h
        | inr goes_on ↦ rw goes_on h
      ]
