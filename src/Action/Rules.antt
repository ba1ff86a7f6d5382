-- ===== src/Action/Rules.antt =====
-- Postconditions of actions, and their rules: a handler's theorem follows its `do` block.
use naleystogramm_server.Action.{unwrap_or}
use naleystogramm_server.Tables.{select}
use naleystogramm_server.Base.{[]}
use naleystogramm_server.Base.{
  ◌≡◌, refl, ◌⊎◌, inl, inr, Bool, true, false, List, Option, none, some, Bool-cases,
}
use naleystogramm_server.Error.{AppError, db, DbError, unavailable}
use naleystogramm_server.Tables.{Tables, Statement}
use naleystogramm_server.State.{AppState}
use naleystogramm_server.Action.{
  Action, Result, ok, err, panicked, ◌>>=◌, continue, ok_or, throw_if, next_fault, later_faults,
  query,
}

-- What holds of the value and the state, and of the state after an error, or after a panic (`none`).
abbrev pub Post :
    {A : Type 0}
    → (A → AppState → Type 0)
    → (Option AppError → AppState → Type 0)
    → Result A × AppState
    → Type 0
Post Q E (ok a, s) = Q a s
Post Q E (err e, s) = E (some e) s
Post Q E (panicked, s) = E none s

module _ {A : Type 0} (Q : A → AppState → Type 0) (E : Option AppError → AppState → Type 0) where
  bind_result :
      {B : Type 0} (R : B → AppState → Type 0) (f : A → Action B) (r : Result A × AppState)
      → Post Q E r
      → ((a : A) (s : AppState) → Q a s → Post R E (f a s))
      → Post R E (continue r.0 f r.1)
  bind_result R f (ok a, s) h k = k a s h
  bind_result R f (err e, s) h k = h
  bind_result R f (panicked, s) h k = h

  pub Post-bind :
      {B : Type 0} (R : B → AppState → Type 0) (m : Action A) (f : A → Action B) (s : AppState)
      → Post Q E (m s)
      → ((a : A) (s' : AppState) → Q a s' → Post R E (f a s'))
      → Post R E ((m >>= f) s)
  unfolding ◌>>=◌
  Post-bind R m f s h k = bind_result R f (m s) h k

  -- A statement leaves the new tables and one fault less, and nothing else.
  pub Post-query :
      (q : Statement A) (s : AppState)
      → ((e : DbError) (fs : List Bool) → E (some (db e)) (record s { faults = fs }))
      → ((fs : List Bool) (a : A) (t : Tables)
          → q s.pool ≡ inr (a, t)
          → Q a (record s { faults = fs; pool = t }))
      → Post Q E (query q s)
  unfolding query
  Post-query q s failed answered = elim (Bool-cases (next_fault s.faults)) [
    | inl fault ↦ rw fault (failed unavailable (later_faults s.faults))
    | inr fine ↦ rw fine (go (q s.pool) refl)
  ]
    where
      go :
          (r : DbError ⊎ (A × Tables))
          → q s.pool ≡ r
          → Post Q E (
              let s' = record s { faults = later_faults s.faults } in
              elim r [ inl e ↦ (err (db e), s') | inr (a, t) ↦ (ok a, record s' { pool = t }) ])
      go (inl e) eq = failed e (later_faults s.faults)
      go (inr (a, t)) eq = answered (later_faults s.faults) a t eq

  pub Post-ok_or :
      (o : Option A) (e : AppError) (s : AppState)
      → E (some e) s
      → ((a : A) → o ≡ some a → Q a s)
      → Post Q E (ok_or o e s)
  unfolding ok_or
  Post-ok_or none e s missing found = missing
  Post-ok_or (some a) e s missing found = found a refl

  pub Post-weaken :
      (Q' : A → AppState → Type 0) (E' : Option AppError → AppState → Type 0)
      (r : Result A × AppState)
      → Post Q E r
      → ((a : A) (s : AppState) → Q a s → Q' a s)
      → ((e : Option AppError) (s : AppState) → E e s → E' e s)
      → Post Q' E' r
  Post-weaken Q' E' (ok a, s) h f g = f a s h
  Post-weaken Q' E' (err e, s) h f g = g (some e) s h
  Post-weaken Q' E' (panicked, s) h f g = g none s h

pub Post-throw_if :
    (Q : Unit {0} → AppState → Type 0) (E : Option AppError → AppState → Type 0) (c : Bool)
    (e : AppError) (s : AppState)
    → E (some e) s
    → (c ≡ false → Q tt s)
    → Post Q E (throw_if c e s)
unfolding throw_if
Post-throw_if Q E true e s bad good = bad
Post-throw_if Q E false e s bad good = good refl

pub post-always :
    {A : Type 0} (P : AppState → Type 0) (r : Result A × AppState)
    → Post (λ _ s. P s) (λ _ s. P s) r
    → P r.1
post-always P (ok a, s) h = h
post-always P (err e, s) h = h
post-always P (panicked, s) h = h

-- A step that is known to answer.
pub bind-ok :
    {A B : Type 0} (m : Action A) (f : A → Action B) {s s' : AppState} {a : A}
    → m s ≡ (ok a, s')
    → (m >>= f) s ≡ f a s'
unfolding ◌>>=◌
bind-ok m f e = rw e refl

-- The state in which the database fails no statement.
abbrev pub calm : AppState → AppState
calm s = record s { faults = [] }

pub query-ok :
    {A : Type 0} (q : Statement A) (s : AppState) {a : A} {t : Tables}
    → q s.pool ≡ inr (a, t)
    → query q (calm s) ≡ (ok a, calm (record s { pool = t }))
unfolding query
query-ok q s e = rw e refl

pub unwrap_or-select :
    {A : Type 0} (default : A) (f : Tables → A) (s : AppState)
    → unwrap_or default (query (select f)) (calm s) ≡ (ok (f s.pool), calm s)
unfolding unwrap_or query
unwrap_or-select default f s = refl
