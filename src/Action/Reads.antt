-- ===== src/Action/Reads.antt =====
-- Actions that only read the database, and actions that keep a property of it: a rule for each way
-- to build an action.
use naleystogramm_server.Config.{Config}
use naleystogramm_server.Base.{
  ◌≡◌, refl, ◌∙◌, subst, Bool, true, false, Option, none, some, arith, if◌then◌else◌,
}
use naleystogramm_server.Error.{AppError}
use naleystogramm_server.Tables.{Tables, Statement, select}
use naleystogramm_server.Tables.Kept.{Leaves}
use naleystogramm_server.State.{AppState}
use naleystogramm_server.Action.{
  Action, Result, ok, err, panicked, ◌>>=◌, recover, unwrap_or, lift, ok_or, throw_if, throw, gets,
  pure, query,
}
use naleystogramm_server.Action.Rules.{Post, Post-bind, Post-query, Post-weaken}

-- The database and the configuration are those of before.
abbrev pub Same : AppState → AppState → Type 0
Same s s' = (s'.pool ≡ s.pool) × (s'.config ≡ s.config)

-- However the action ends, it has changed neither.
pub record Reads {A : Type 0} (m : Action A) : Type 0 where
  pub at : (s : AppState) → Post (λ _ s'. Same s s') (λ _ s'. Same s s') (m s)

-- However the action ends, the database has `P` of the configuration if it had it before.
pub record Keeps {A : Type 0} (P : Config → Tables → Type 0) (m : Action A) : Type 0 where
  pub at :
      (s : AppState)
      → P s.config s.pool
      → Post (λ _ s'. P s'.config s'.pool) (λ _ s'. P s'.config s'.pool) (m s)

module _ {A : Type 0} where
  pub Reads-pure : (a : A) → Reads (pure a)
  unfolding pure
  Reads-pure a = record { at = λ s. (refl, refl) }

  pub Reads-throw : (e : AppError) → Reads (throw {A = A} e)
  unfolding throw
  Reads-throw e = record { at = λ s. (refl, refl) }

  pub Reads-gets : (f : AppState → A) → Reads (gets f)
  unfolding gets
  Reads-gets f = record { at = λ s. (refl, refl) }

  pub Reads-lift : (r : Result A) → Reads (lift r)
  unfolding lift
  Reads-lift (ok a) = record { at = λ s. (refl, refl) }
  Reads-lift (err e) = record { at = λ s. (refl, refl) }
  Reads-lift panicked = record { at = λ s. (refl, refl) }

  pub Reads-ok_or : (o : Option A) (e : AppError) → Reads (ok_or o e)
  unfolding ok_or
  Reads-ok_or none e = record { at = λ s. (refl, refl) }
  Reads-ok_or (some a) e = record { at = λ s. (refl, refl) }

  pub Reads-if : (c : Bool) (m k : Action A) → Reads m → Reads k → Reads (if c then m else k)
  Reads-if true m k hm hk = hm
  Reads-if false m k hm hk = hk

  pub Reads-select : (f : Tables → A) → Reads (query (select f))
  Reads-select f = record {
    at = λ s.
        Post-query (λ _ s'. Same s s') (λ _ s'. Same s s') (select f) s (λ e fs. (refl, refl))
          (λ fs a t e. (ground arith, refl));
  }

  recovered :
      (s : AppState) (default : A) (r : Result A × AppState)
      → Post (λ _ s'. Same s s') (λ _ s'. Same s s') r
      → Post (λ _ s'. Same s s') (λ _ s'. Same s s') (recover default r.0, r.1)
  recovered s default (ok a, s') h = h
  recovered s default (err e, s') h = h
  recovered s default (panicked, s') h = h

  pub Reads-unwrap_or : (default : A) (m : Action A) → Reads m → Reads (unwrap_or default m)
  unfolding unwrap_or
  Reads-unwrap_or default m h = record { at = λ s. recovered s default (m s) (h.at s) }

  pub Reads-bind :
      {B : Type 0} (m : Action A) (f : A → Action B)
      → Reads m
      → ((a : A) → Reads (f a))
      → Reads (m >>= f)
  Reads-bind m f rm rf = record {
    at = λ s.
        Post-bind (λ _ s'. Same s s') (λ _ s'. Same s s') (λ _ s'. Same s s') m f s (rm.at s)
          λ a s' h.
            Post-weaken (λ _ t. Same s' t) (λ _ t. Same s' t) (λ _ t. Same s t) (λ _ t. Same s t)
              (f a s') ((rf a).at s') (λ b t k. (k.0 ∙ h.0, k.1 ∙ h.1))
              (λ e t k. (k.0 ∙ h.0, k.1 ∙ h.1));
  }

pub Reads-throw_if : (c : Bool) (e : AppError) → Reads (throw_if c e)
unfolding throw_if
Reads-throw_if true e = record { at = λ s. (refl, refl) }
Reads-throw_if false e = record { at = λ s. (refl, refl) }

pub ruleset reads_rules = (
  Reads-pure, Reads-throw, Reads-gets, Reads-lift, Reads-ok_or, Reads-throw_if, Reads-if,
  Reads-select, Reads-unwrap_or, Reads-bind,
)

abbrev pub Holds : (Config → Tables → Type 0) → AppState → Type 0
Holds P s = P s.config s.pool

module _ {A : Type 0} {P : Config → Tables → Type 0} where
  pub Keeps-bind :
      {B : Type 0} (m : Action A) (f : A → Action B)
      → Keeps P m
      → ((a : A) → Keeps P (f a))
      → Keeps P (m >>= f)
  Keeps-bind m f km kf = record {
    at = λ s h.
        Post-bind (λ _ s'. Holds P s') (λ _ s'. Holds P s') (λ _ s'. Holds P s') m f s (km.at s h)
          λ a s' h'. (kf a).at s' h';
  }

  pub Keeps-query :
      (q : Statement A)
      → ((c : Config) (t : Tables) → P c t → Leaves (P c) (q t))
      → Keeps P (query q)
  Keeps-query q keep = record {
    at = λ s h.
        Post-query (λ _ s'. Holds P s') (λ _ s'. Holds P s') q s (λ e fs. h)
          (λ fs a t e. subst (Leaves (P s.config)) e (keep s.config s.pool h));
  }

  pub Keeps-if : (c : Bool) (m k : Action A) → Keeps P m → Keeps P k → Keeps P (if c then m else k)
  Keeps-if true m k hm hk = hm
  Keeps-if false m k hm hk = hk

  pub Keeps-Reads : (m : Action A) → Reads m → Keeps P m
  Keeps-Reads m reads = record {
    at = λ s h.
        Post-weaken (λ _ s'. Same s s') (λ _ s'. Same s s') (λ _ s'. Holds P s')
          (λ _ s'. Holds P s') (m s) (reads.at s) (λ a s' e. moved s s' e h)
          (λ a s' e. moved s s' e h);
  }
    where
      moved : (s s' : AppState) → Same s s' → Holds P s → Holds P s'
      moved s s' e h = rw (e.0, e.1) h
