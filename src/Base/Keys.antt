-- ===== src/Base/Keys.antt =====
-- Columns whose values differ from row to row, and what keeps them so.
use mathlib.Core.Path.{◌≡◌, refl, sym}
use mathlib.Core.Logic.{◌≢◌, inl, inr}
use mathlib.Core.Bool.{Bool, true, false}
use mathlib.Core.List.{List, [], ◌∷◌, ◌++◌, map}
use native.Mathlib.Omega.{arith}
use naleystogramm_server.Base.Tests.{Bool-cases, if◌then◌else◌}
use naleystogramm_server.Base.Lists.{
  All, All-append, All-delete_where, any, delete_where, update_where,
}

module _ {ℓ κ} {A : Type ℓ} {K : Type κ} where
  -- No two rows have one key.
  abbrev pub Distinct : (A → K) → List A → Type (ℓ ⊔ κ)
  Distinct key [] = Unit
  Distinct key (x ∷ xs) = All (λ y. key y ≢ key x) xs × Distinct key xs

module _ {ℓ} {A : Type ℓ} where
  pub All-any : (p : A → Bool) (xs : List A) → any p xs ≡ false → All (λ y. p y ≡ false) xs
  All-any p [] h = tt
  All-any p (x ∷ xs) h = ground (arith, All-any p xs)

module _ {ℓ κ} {A : Type ℓ} where
  pub All-map {μ} :
      {P : A → Type κ} {Q : A → Type μ} (f : (a : A) → P a → Q a) (xs : List A)
      → All P xs
      → All Q xs
  All-map f [] h = tt
  All-map f (x ∷ xs) h = (f x h.0, All-map f xs h.1)

  pub All-update_where :
      (P : A → Type κ) (p : A → Bool) (f : A → A) (xs : List A)
      → ((a : A) → P a → P (f a))
      → All P xs
      → All P (update_where p f xs)
  All-update_where P p f [] keep h = tt
  All-update_where P p f (x ∷ xs) keep h = (go (p x), All-update_where P p f xs keep h.1)
    where
      go : (b : Bool) → P (if b then f x else x)
      go true = keep x h.0
      go false = h.0

module _ {ℓ κ} {A : Type ℓ} {K : Type κ} (key : A → K) where
  pub Distinct-append :
      (xs : List A) (z : A)
      → All (λ y. key y ≢ key z) xs
      → Distinct key xs
      → Distinct key (xs ++ z ∷ [])
  Distinct-append [] z new h = (tt, tt)
  Distinct-append (x ∷ xs) z new h =
      (All-append _ xs (z ∷ []) h.0 (λ e. new.0 (sym e), tt), Distinct-append xs z new.1 h.1)

  pub Distinct-delete_where :
      (p : A → Bool) (xs : List A) → Distinct key xs → Distinct key (delete_where p xs)
  Distinct-delete_where p [] h = tt
  Distinct-delete_where p (x ∷ xs) h = elim (Bool-cases (p x)) [
    | inl gone ↦ rw gone (Distinct-delete_where p xs h.1)
    | inr kept ↦ rw kept (All-delete_where _ p xs h.0, Distinct-delete_where p xs h.1)
  ]

  pub Distinct-update_where :
      (p : A → Bool) (f : A → A) (xs : List A)
      → ((a : A) → key (f a) ≡ key a)
      → Distinct key xs
      → Distinct key (update_where p f xs)
  Distinct-update_where p f [] same h = tt
  Distinct-update_where p f (x ∷ xs) same h = (
    rw (at x) (All-update_where _ p f xs (λ a ne. rw (same a) ne) h.0),
    Distinct-update_where p f xs same h.1,
  )
    where
      at : (a : A) → key (if p a then f a else a) ≡ key a
      at a = go (p a)
        where
          go : (b : Bool) → key (if b then f a else a) ≡ key a
          go true = same a
          go false = refl

  pub Distinct-map :
      (f : A → A) (xs : List A)
      → ((a : A) → key (f a) ≡ key a)
      → Distinct key xs
      → Distinct key (map f xs)
  Distinct-map f [] same h = tt
  Distinct-map f (x ∷ xs) same h = (rw (same x) (keep xs h.0), Distinct-map f xs same h.1)
    where
      keep : (ys : List A) → All (λ y. key y ≢ key x) ys → All (λ y. key y ≢ key x) (map f ys)
      keep [] g = tt
      keep (y ∷ ys) g = (rw (same y) g.0, keep ys g.1)
