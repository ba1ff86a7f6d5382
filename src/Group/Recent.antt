-- ===== src/Group/Recent.antt =====
-- The last rows of a table, as src/group.rs trims its history to them.
use naleystogramm_server.Base.{
  ℕ, zero, suc, ◌<◌, ◌≡◌, refl, sym, ◌∙◌, ap, Bool, true, false, not, List, [], ◌∷◌, ◌++◌, map,
  reverse, arith, ◌==◌, take, drop, any, All, All-append, All-map, delete_where, subst,
}
use naleystogramm_server.Tables.{Message, latest, is_old}
use naleystogramm_server.Group.Valid.{IsIncreasing}
use mathlib.Core.List.{reverse-append, reverse-reverse, reverse-cons, map-append}

module _ {ℓ} {A : Type ℓ} where
  -- The last `n` entries, in their order.
  unfoldable pub last_n : ℕ → List A → List A
  last_n n xs = reverse (take n (reverse xs))

  take-drop : (n : ℕ) (xs : List A) → take n xs ++ drop n xs ≡ xs
  take-drop zero xs = refl
  take-drop (suc n) [] = refl
  take-drop (suc n) (x ∷ xs) = ap (λ (l : List A). x ∷ l) (take-drop n xs)

  take-take : (n : ℕ) (xs : List A) → take n (take (suc n) xs) ≡ take n xs
  take-take zero xs = refl
  take-take (suc n) [] = refl
  take-take (suc n) (x ∷ xs) = ap (λ (l : List A). x ∷ l) (take-take n xs)

  take-take_same : (n : ℕ) (xs : List A) → take n (take n xs) ≡ take n xs
  take-take_same zero xs = refl
  take-take_same (suc n) [] = refl
  take-take_same (suc n) (x ∷ xs) = ap (λ (l : List A). x ∷ l) (take-take_same n xs)

  take-cons_take : (n : ℕ) (x : A) (xs : List A) → take n (x ∷ take n xs) ≡ take n (x ∷ xs)
  take-cons_take zero x xs = refl
  take-cons_take (suc n) x xs = ap (λ (l : List A). x ∷ l) (take-take n xs)

  -- What falls out of the last `n` stays out when an entry comes.
  pub last_n-append :
      (n : ℕ) (xs : List A) (x : A) → last_n n (last_n n xs ++ x ∷ []) ≡ last_n n (xs ++ x ∷ [])
  unfolding last_n
  last_n-append n xs x = ap reverse (
      ap (take n) (
        reverse-append (reverse (take n (reverse xs))) (x ∷ [])
        ∙ ap (λ (l : List A). x ∷ l) (reverse-reverse (take n (reverse xs))))
      ∙ take-cons_take n x (reverse xs)
      ∙ ap (take n) (sym (reverse-append xs (x ∷ []))))

  pub last_n-nil : (n : ℕ) → last_n n [] ≡ []
  unfolding last_n
  last_n-nil zero = refl
  last_n-nil (suc n) = refl

  pub last_n-last_n : (n : ℕ) (xs : List A) → last_n n (last_n n xs) ≡ last_n n xs
  unfolding last_n
  last_n-last_n n xs =
      ap reverse
        (ap (take n) (reverse-reverse (take n (reverse xs))) ∙ take-take_same n (reverse xs))

  -- The older entries, and then the last ones.
  older : ℕ → List A → List A
  older n xs = reverse (drop n (reverse xs))

  older-last_n : (n : ℕ) (xs : List A) → older n xs ++ last_n n xs ≡ xs
  unfolding older last_n
  older-last_n n xs =
      sym (reverse-append (take n (reverse xs)) (drop n (reverse xs)))
      ∙ ap reverse (take-drop n (reverse xs))
      ∙ reverse-reverse xs

module _ {ℓ κ} {A : Type ℓ} {B : Type κ} (f : A → B) where
  map-reverse : (xs : List A) → map f (reverse xs) ≡ reverse (map f xs)
  map-reverse [] = refl
  map-reverse (x ∷ xs) =
      ap (map f) (reverse-cons x xs)
      ∙ map-append f (reverse xs) (x ∷ [])
      ∙ ap (λ (l : List B). l ++ f x ∷ []) (map-reverse xs)
      ∙ sym (reverse-cons (f x) (map f xs))

  take-map : (n : ℕ) (xs : List A) → take n (map f xs) ≡ map f (take n xs)
  take-map zero xs = refl
  take-map (suc n) [] = refl
  take-map (suc n) (x ∷ xs) = ap (λ (l : List B). f x ∷ l) (take-map n xs)

  pub last_n-map : (n : ℕ) (xs : List A) → last_n n (map f xs) ≡ map f (last_n n xs)
  unfolding last_n
  last_n-map n xs =
      rw (← map-reverse xs, take-map n (reverse xs), ← map-reverse (take n (reverse xs))) refl

module _ {ℓ} {A : Type ℓ} where
  All-reverse {κ} : (P : A → Type κ) (xs : List A) → All P xs → All P (reverse xs)
  All-reverse P [] h = h
  All-reverse P (x ∷ xs) h =
      subst (All P) (sym (reverse-cons x xs))
        (All-append P (reverse xs) (x ∷ []) (All-reverse P xs h.1) (h.0, tt))

  All-append_right {κ} : (P : A → Type κ) (xs ys : List A) → All P (xs ++ ys) → All P ys
  All-append_right P [] ys h = h
  All-append_right P (x ∷ xs) ys h = All-append_right P xs ys h.1

  delete_where-append :
      (p : A → Bool) (xs ys : List A)
      → All (λ x. p x ≡ true) xs
      → All (λ y. p y ≡ false) ys
      → delete_where p (xs ++ ys) ≡ ys
  delete_where-append p [] [] h k = refl
  delete_where-append p [] (y ∷ ys) h k =
      rw k.0 (ap (λ (l : List A). y ∷ l) (delete_where-append p [] ys h k.1))
  delete_where-append p (x ∷ xs) ys h k = rw h.0 (delete_where-append p xs ys h.1 k)

any_self : (ms : List Message) → All (λ m. any (λ (k : Message). k.id == m.id) ms ≡ true) ms
any_self [] = tt
any_self (m ∷ ms) = (ground arith, All-map (λ k h. ground arith) ms (any_self ms))

any-larger :
    (m : Message) (ms : List Message)
    → All (λ k. m.id < k.id) ms
    → any (λ (k : Message). k.id == m.id) ms ≡ false
any-larger m [] h = refl
any-larger m (k ∷ ks) h = ground (arith, any-larger m ks h.1, h.0)

IsIncreasing-append_split :
    (ms ks : List Message) → IsIncreasing (ms ++ ks) → All (λ m. All (λ k. m.id < k.id) ks) ms
IsIncreasing-append_split [] ks h = tt
IsIncreasing-append_split (m ∷ ms) ks h =
    (All-append_right _ ms ks h.0, IsIncreasing-append_split ms ks h.1)

-- The statement that trims the history leaves the last `n` rows.
pub delete_where-is_old :
    (n : ℕ) (ms : List Message) → IsIncreasing ms → delete_where (is_old n ms) ms ≡ last_n n ms
unfolding last_n
delete_where-is_old n ms h =
    ap (delete_where (is_old n ms)) (sym (older-last_n n ms))
    ∙ delete_where-append (is_old n ms) (older n ms) (last_n n ms)
        (All-map
          (λ m larger. ap not (
            any-larger m (latest n ms) (
              subst (All (λ k. m.id < k.id)) (reverse-reverse (latest n ms))
                (All-reverse _ (last_n n ms) larger))))
          (older n ms)
          (IsIncreasing-append_split (older n ms) (last_n n ms)
            (subst IsIncreasing (sym (older-last_n n ms)) h)))
        (All-reverse _ (latest n ms)
          (All-map (λ m hit. ap not hit) (latest n ms) (any_self (latest n ms))))
