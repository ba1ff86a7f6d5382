-- ===== src/Action/Preserves.antt =====
-- Actions that keep a property of the faults to come, the configuration and the database: a rule for
-- each way to build an action. With `P` about `[]` only, the database fails nothing.
use naleystogramm_server.Config.{Config}
use naleystogramm_server.Base.{
  ◌⊎◌, inl, inr, Bool, true, false, List, Option, none, some, if◌then◌else◌, Bool-cases,
}
use naleystogramm_server.Error.{AppError, db, DbError}
use naleystogramm_server.Tables.{Tables, Statement}
use naleystogramm_server.Tables.Kept.{Leaves}
use naleystogramm_server.State.{AppState}
use naleystogramm_server.Action.{
  Action, Result, ok, err, panicked, ◌>>=◌, recover, unwrap_or, lift, ok_or, throw_if, throw, gets,
  pure, query, next_fault, later_faults,
}
use naleystogramm_server.Action.Rules.{Post, Post-bind}

abbrev pub OnTables : (List Bool → Config → Tables → Type 0) → AppState → Type 0
OnTables P s = P s.faults s.config s.pool

pub record Preserves {A : Type 0} (P : List Bool → Config → Tables → Type 0) (m : Action A)
    : Type 0 where
  pub at :
      (s : AppState) → OnTables P s → Post (λ _ s'. OnTables P s') (λ _ s'. OnTables P s') (m s)

module _ {A : Type 0} (P : List Bool → Config → Tables → Type 0) where
  recovered :
      (default : A) (r : Result A × AppState)
      → Post (λ _ s'. OnTables P s') (λ _ s'. OnTables P s') r
      → Post (λ _ s'. OnTables P s') (λ _ s'. OnTables P s') (recover default r.0, r.1)
  recovered default (ok a, s') h = h
  recovered default (err e, s') h = h
  recovered default (panicked, s') h = h

  answered :
      (s : AppState) (r : DbError ⊎ (A × Tables))
      → P (later_faults s.faults) s.config s.pool
      → Leaves (P (later_faults s.faults) s.config) r
      → Post {A = A}
          (λ _ s'. OnTables P s')
          (λ _ s'. OnTables P s')
          (let s' = record s { faults = later_faults s.faults } in
            elim r [ inl e ↦ (err (db e), s') | inr (a, t) ↦ (ok a, record s' { pool = t }) ])
  answered s (inl e) old new = old
  answered s (inr (a, t)) old new = new

module _ {A : Type 0} {P : List Bool → Config → Tables → Type 0} where
  pub Preserves-pure : (a : A) → Preserves P (pure a)
  unfolding pure
  Preserves-pure a = record { at = λ s h. h }

  pub Preserves-throw : (e : AppError) → Preserves P (throw {A = A} e)
  unfolding throw
  Preserves-throw e = record { at = λ s h. h }

  pub Preserves-gets : (f : AppState → A) → Preserves P (gets f)
  unfolding gets
  Preserves-gets f = record { at = λ s h. h }

  pub Preserves-lift : (r : Result A) → Preserves P (lift r)
  unfolding lift
  Preserves-lift (ok a) = record { at = λ s h. h }
  Preserves-lift (err e) = record { at = λ s h. h }
  Preserves-lift panicked = record { at = λ s h. h }

  pub Preserves-ok_or : (o : Option A) (e : AppError) → Preserves P (ok_or o e)
  unfolding ok_or
  Preserves-ok_or none e = record { at = λ s h. h }
  Preserves-ok_or (some a) e = record { at = λ s h. h }

  pub Preserves-if :
      (c : Bool) (m k : Action A) → Preserves P m → Preserves P k → Preserves P (if c then m else k)
  Preserves-if true m k hm hk = hm
  Preserves-if false m k hm hk = hk

  pub Preserves-unwrap_or :
      (default : A) (m : Action A) → Preserves P m → Preserves P (unwrap_or default m)
  unfolding unwrap_or
  Preserves-unwrap_or default m h = record { at = λ s p. recovered P default (m s) (h.at s p) }

  pub Preserves-bind :
      {B : Type 0} (m : Action A) (f : A → Action B)
      → Preserves P m
      → ((a : A) → Preserves P (f a))
      → Preserves P (m >>= f)
  Preserves-bind m f km kf = record {
    at = λ s h.
        Post-bind (λ _ s'. OnTables P s') (λ _ s'. OnTables P s') (λ _ s'. OnTables P s') m f s
          (km.at s h) λ a s' h'. (kf a).at s' h';
  }

  pub Preserves-query :
      (q : Statement A)
      → ((fs : List Bool) (c : Config) (t : Tables)
          → P fs c t
          → P (later_faults fs) c t × Leaves (P (later_faults fs) c) (q t))
      → Preserves P (query q)
  unfolding query
  Preserves-query q keep = record {
    at = λ s h.
        let (old, new) = keep s.faults s.config s.pool h in
        elim (Bool-cases (next_fault s.faults)) [
          | inl fault ↦ rw fault old
          | inr fine ↦ rw fine (answered P s (q s.pool) old new)
        ];
  }

pub Preserves-throw_if :
    {P : List Bool → Config → Tables → Type 0} (c : Bool) (e : AppError)
    → Preserves P (throw_if c e)
unfolding throw_if
Preserves-throw_if true e = record { at = λ s h. h }
Preserves-throw_if false e = record { at = λ s h. h }

pub ruleset preserves_rules = (
  Preserves-pure, Preserves-throw, Preserves-gets, Preserves-lift, Preserves-ok_or,
  Preserves-throw_if, Preserves-if, Preserves-unwrap_or, Preserves-bind,
)
