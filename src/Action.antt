-- ===== src/Action.antt =====
-- A handler's body: it reads and writes the shared state, and ends with a value, with an error
-- (`?` on a `Result`), or in a panic. What was written before an error stays written.
pub mod Rules
pub mod Reads
pub mod Preserves
use naleystogramm_server.Base.{
  ◌≡◌, refl, ◌⊎◌, inl, inr, Bool, true, false, List, [], ◌∷◌, Option, none, some, if◌then◌else◌,
}
use naleystogramm_server.Error.{AppError, db, DbError, unavailable}
use naleystogramm_server.Tables.{Tables, Statement}
use naleystogramm_server.State.{AppState}

pub data Result (A : Type 0) : Type 0 where
  ok : A → Result A
  err : AppError → Result A
  panicked : Result A

abbrev pub Action : Type 0 → Type 0
Action A = AppState → Result A × AppState

module _ {A : Type 0} where
  unfoldable pub pure : A → Action A
  pure a s = (ok a, s)

  unfoldable pub throw : AppError → Action A
  throw e s = (err e, s)

  unfoldable pub gets : (AppState → A) → Action A
  gets f s = (ok (f s), s)

  -- a `Result` and its `?`
  unfoldable pub lift : Result A → Action A
  lift r s = (r, s)

  -- `.ok_or(e)?`
  unfoldable pub ok_or : Option A → AppError → Action A
  ok_or none e s = (err e, s)
  ok_or (some a) e s = (ok a, s)

  -- `.unwrap_or(default)`
  abbrev pub recover : A → Result A → Result A
  recover default (ok a) = ok a
  recover default (err e) = ok default
  recover default panicked = panicked

  unfoldable pub unwrap_or : A → Action A → Action A
  unwrap_or default m s = let (r, s') = m s in (recover default r, s')

-- `if c { return Err(e) }`
unfoldable pub throw_if : Bool → AppError → Action (Unit {0})
throw_if true e s = (err e, s)
throw_if false e s = (ok tt, s)

abbrev pub continue : {A B : Type 0} → Result A → (A → Action B) → Action B
continue (ok a) f s = f a s
continue (err e) f s = (err e, s)
continue panicked f s = (panicked, s)

infixl 5 ◌>>=◌ ◌>>◌
-- A line that unfolds this unfolds the actions above too.
unfoldable pub ◌>>=◌ : {A B : Type 0} → Action A → (A → Action B) → Action B
unfolding pure throw gets lift ok_or unwrap_or throw_if
◌>>=◌ m f s = let (r, s') = m s in continue r f s'

abbrev pub ◌>>◌ : {A B : Type 0} → Action A → Action B → Action B
m >> k = m >>= λ _. k

abbrev pub next_fault : List Bool → Bool
next_fault [] = false
next_fault (b ∷ bs) = b

abbrev pub later_faults : List Bool → List Bool
later_faults [] = []
later_faults (b ∷ bs) = bs

-- One statement on the pool: it may be failed, and else answers or violates a constraint.
unfoldable pub query : {A : Type 0} → Statement A → Action A
query q s =
    let s' = record s { faults = later_faults s.faults } in
    if next_fault s.faults
    then (err (db unavailable), s')
    else elim (q s.pool) [ inl e ↦ (err (db e), s') | inr (a, t) ↦ (ok a, record s' { pool = t }) ]
