-- ===== src/Discovery/Register/Rejects.antt =====
-- A registration that is turned down leaves the database alone (`register` of src/discovery.rs).
use naleystogramm_server.Base.{
  ◌≡◌, refl, ◌⊎◌, inl, inr, ◌∙◌, Bool, true, false, List, ℕ, Option, none, some, Text, codes,
  if◌then◌else◌, ltb, leb, ◌+◌, ◌*◌, Bool-cases,
}
use naleystogramm_server.Extern.{Extern}
use naleystogramm_server.Error.{StatusCode, Body, Response, refusal, AppError, db}
use naleystogramm_server.Tables.{Statement}
use naleystogramm_server.State.{AppState}
use naleystogramm_server.Action.{Action, ◌>>=◌, pure, lift, query, gets}
use naleystogramm_server.Action.Rules.{Post, Post-bind, Post-query, Post-weaken}
use naleystogramm_server.Action.Reads.{Reads, Same, Reads-throw_if, Reads-gets}
use naleystogramm_server.Discovery.Requests.{Request, expiry}
use naleystogramm_server.Discovery.Checks.{
  limit_register-Reads, check_body-Reads, server_full-Reads,
}
use naleystogramm_server.Discovery.Register.{
  RegisterReq, register, register_current, create_account, mark_invite,
}

-- The database failed a statement or refused it, or the handler panicked.
abbrev pub IsBroken : Option AppError → Type 0
IsBroken (some (db e)) = Unit
IsBroken none = Unit
IsBroken (some _) = ⊥

module _ (x : Extern) (rq : Request) (random : List ℕ) (body : RegisterReq) where
  abbrev Anything : {A : Type 0} → A → AppState → Type 0
  Anything a s = Unit

  abbrev Broken : Option AppError → AppState → Type 0
  Broken e s = IsBroken e

  abbrev Created : Response → AppState → Type 0
  Created r s = r.status ≡ StatusCode.created

  mark_invite-Post :
      (code : Option Text) (user_id : ℕ) (s : AppState)
      → Post Anything Broken (mark_invite x rq code user_id s)
  unfolding mark_invite pure
  mark_invite-Post none user_id s = tt
  mark_invite-Post (some code) user_id s =
      Post-query Anything Broken _ s (λ e fs. tt) (λ fs a t e. tt)

  expiry-Post : (ttl : ℕ) (s : AppState) → Post Anything Broken (lift (expiry x rq.now ttl) s)
  unfolding lift expiry
  expiry-Post ttl s = elim (Bool-cases (ltb 0 ttl)) [
    | inr forever ↦ rw forever tt
    | inl limited ↦ elim (Bool-cases (leb (rq.now + ttl * 86400) x.calendar.max_utc)) [
      | inl fits ↦ rw (limited, fits) tt
      | inr late ↦ rw (limited, late) tt
    ]
  ]

  query-Post : {A : Type 0} (q : Statement A) (s : AppState) → Post Anything Broken (query q s)
  query-Post q s = Post-query Anything Broken q s (λ e fs. tt) (λ fs a t e. tt)

  create_account-Post : (s : AppState) → Post Created Broken (create_account x rq random body s)
  unfolding create_account gets pure
  create_account-Post s = Post-bind Anything Broken Created _ _ s tt λ cfg s₁ _.
      Post-bind Anything Broken Created _ _ s₁ (query-Post _ s₁) λ user_id s₂ _.
        Post-bind Anything Broken Created _ _ s₂ (query-Post _ s₂) λ _ s₃ _.
          Post-bind Anything Broken Created _ _ s₃ (expiry-Post cfg.tokens.ttl_days s₃)
            λ expires_at s₄ _. Post-bind Anything Broken Created _ _ s₄ (query-Post _ s₄) λ _ s₅ _.
              Post-bind Anything Broken Created _ _ s₅
                (mark_invite-Post body.invite_code user_id s₅) λ _ s₆ _. refl

  -- What a rejected request has changed of the database: nothing.
  abbrev pub Untouched : AppState → AppState → Type 0
  Untouched s s' = s'.pool ≡ s.pool

  abbrev pub CreatedOr : AppState → Response → AppState → Type 0
  CreatedOr s r s' = (r.status ≡ StatusCode.created) ⊎ Untouched s s'

  abbrev pub BrokenOr : AppState → Option AppError → AppState → Type 0
  BrokenOr s e s' = IsBroken e ⊎ Untouched s s'

  -- A step that only reads, before a rest that keeps the promise.
  after_reading :
      {A : Type 0} (m : Action A) (f : A → Action Response)
      → Reads m
      → ((a : A) (s : AppState) → Post (CreatedOr s) (BrokenOr s) (f a s))
      → (s : AppState) → Post (CreatedOr s) (BrokenOr s) ((m >>= f) s)
  after_reading m f reads rest s =
      Post-bind (λ _ s'. Untouched s s') (BrokenOr s) (CreatedOr s) m f s
        (Post-weaken (λ _ s'. Same s s') (λ _ s'. Same s s') (λ _ s'. Untouched s s') (BrokenOr s)
          (m s) (reads.at s) (λ a s' h. h.0) (λ e s' h. inr h.0))
        λ a s' same.
          Post-weaken (CreatedOr s') (BrokenOr s') (CreatedOr s) (BrokenOr s) (f a s') (rest a s')
            (λ r t h. still s s' t same h) (λ e t h. still s s' t same h)
    where
      still :
          {P : Type 0} (s s' t : AppState) → Untouched s s' → P ⊎ Untouched s' t → P ⊎ Untouched s t
      still s s' t same (inl p) = inl p
      still s s' t same (inr h) = inr (h ∙ same)

  register_current-Post :
      (s : AppState) → Post (CreatedOr s) (BrokenOr s) (register_current x rq random body s)
  unfolding register_current pure
  register_current-Post =
      after_reading _ _ (check_body-Reads x body)
        λ _. after_reading _ _ (server_full-Reads x) λ full. go full
    where
      go :
          (full : Bool) (s : AppState)
          → Post (CreatedOr s) (BrokenOr s) (
              (if full
                  then pure (refusal StatusCode.too_many_requests (codes "server_full"))
                  else create_account x rq random body)
                s)
      go true s = inr refl
      go false s =
          Post-weaken Created Broken (CreatedOr s) (BrokenOr s) (create_account x rq random body s)
            (create_account-Post s) (λ r t h. inl h) (λ e t h. inl h)

  -- Unless the answer is 201, or the database failed a statement, or the handler panicked, a
  -- registration has changed nothing in the database.
  pub register-CreatedOr_untouched :
      (s : AppState) → Post (CreatedOr s) (BrokenOr s) (register x rq random body s)
  unfolding register pure
  register-CreatedOr_untouched = after_reading _ _ (limit_register-Reads rq) λ allowed.
      after_reading _ _ (Reads-throw_if _ _)
        λ _. after_reading _ _ (Reads-gets _) λ outdated. go outdated
    where
      go :
          (o : Option Text) (s : AppState)
          → Post (CreatedOr s) (BrokenOr s) (
              (elim o as (λ _. Action Response) [
                | some min ↦ pure (record {
                  status = StatusCode.upgrade_required;
                  body = Body.too_old (codes "client_too_old") min;
                })
                | none ↦ register_current x rq random body
              ])
                s)
      go none s = register_current-Post s
      go (some min) s = inr refl
