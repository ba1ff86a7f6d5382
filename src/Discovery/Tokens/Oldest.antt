-- ===== src/Discovery/Tokens/Oldest.antt =====
-- Counting the tokens of a user under the statements on tokens (src/discovery.rs, `token_refresh`).
use naleystogramm_server.Base.{
  ℕ, ◌+◌, ◌≤◌, ◌<◌, ◌≡◌, refl, inl, inr, ◌⊎◌, Bool, true, false, ◌&&◌, List, [], ◌∷◌, Option, none,
  some, Text, text_ltb, arith, ◌==◌, ==_iff, any, All, count_where, count_where-append,
  count_where-delete_where, delete_where, max, if◌then◌else◌, Bool-cases, Option-cases,
}
use naleystogramm_server.Tables.{
  Tables, Token, has_user, has_hash, oldest_token, older, delete_oldest_token, insert_token,
}
use naleystogramm_server.Tables.Kept.{Leaves}
use naleystogramm_server.Discovery.Tokens.{tokens_of}

abbrev pub is_owned : ℕ → Token → Bool
is_owned i k = k.user_id == i

-- The row with a user and an id is there.
abbrev IsIn : ℕ → Token → List Token → Type 0
IsIn i k ks = any (λ j. is_owned i j && (j.id == k.id)) ks ≡ true

older-cases : (k : Token) (o : Option Token) → (older k o ≡ some k) ⊎ (older k o ≡ o)
older-cases k none = inl refl
older-cases k (some j) = elim (Bool-cases (text_ltb j.created_at k.created_at)) [
  | inl younger ↦ inr (rw younger refl)
  | inr older ↦ inl (rw older refl)
]

oldest_token-IsIn : (i : ℕ) (ks : List Token) (k : Token) → oldest_token i ks ≡ some k → IsIn i k ks
unfolding oldest_token
oldest_token-IsIn i [] k e = cc
oldest_token-IsIn i (j ∷ ks) k e =
    ground (arith, older-cases j (oldest_token i ks), oldest_token-IsIn i ks k)

oldest_token-none :
    (i : ℕ) (ks : List Token) → oldest_token i ks ≡ none → count_where (is_owned i) ks ≡ 0
unfolding oldest_token
oldest_token-none i [] e = refl
oldest_token-none i (k ∷ ks) e =
    ground (arith, older-cases k (oldest_token i ks), oldest_token-none i ks)

count-delete-lt :
    (i n : ℕ) (ks : List Token)
    → any (λ j. is_owned i j && (j.id == n)) ks ≡ true
    → count_where (is_owned i) (delete_where (λ j. j.id == n) ks) < count_where (is_owned i) ks
count-delete-lt i n [] h = cc
count-delete-lt i n (k ∷ ks) h =
    ground
      (arith, count-delete-lt i n ks, count_where-delete_where (is_owned i) (λ j. j.id == n) ks)

-- Deleting the oldest token of a user takes at least one of the user's tokens, if there is one, and
-- gives nobody a token.
pub delete_oldest_token-counts :
    (i u : ℕ) (t : Tables)
    → Leaves
        (λ t'. (tokens_of u t' ≤ tokens_of u t) × (tokens_of i t' + 1 ≤ max 1 (tokens_of i t)))
        (delete_oldest_token i t)
unfolding delete_oldest_token
delete_oldest_token-counts i u t = elim (Option-cases (oldest_token i t.tokens)) [
  | inl nothing ↦
      rw (nothing, delete_oldest_token)
        (omega arith, omega (arith, oldest_token-none i t.tokens nothing))
  | inr (k, e) ↦
      rw (e, delete_oldest_token)
        (
          count_where-delete_where (is_owned u) (λ j. j.id == k.id) t.tokens,
          omega (arith, count-delete-lt i k.id t.tokens (oldest_token-IsIn i t.tokens k e)),
        )
]

-- A new token is the user's, and nobody else's.
pub insert_token-counts :
    (now : Text) (i u : ℕ) (hash : Text) (expires_at : Option Text) (t : Tables)
    → Leaves
        (λ t'. tokens_of u t' ≡ tokens_of u t + (if i == u then 1 else 0))
        (insert_token now i hash expires_at t)
unfolding insert_token
insert_token-counts now i u hash expires_at t = elim (Bool-cases (any (has_hash hash) t.tokens)) [
  | inl taken ↦ rw taken tt
  | inr free ↦ rw free (elim (Bool-cases (has_user i t)) [
    | inr missing ↦ rw missing tt
    | inl there ↦ rw there (rw (count_where-append (is_owned u) t.tokens _) ground arith)
  ])
]

-- A user that is not there has no token.
pub no_tokens :
    (i : ℕ) (t : Tables) (ks : List Token)
    → has_user i t ≡ false
    → All (λ k. has_user k.user_id t ≡ true) ks
    → count_where (is_owned i) ks ≡ 0
no_tokens i t [] missing h = refl
no_tokens i t (k ∷ ks) missing h = elim (Bool-cases (is_owned i k)) [
  | inr other ↦ rw other (no_tokens i t ks missing h.1)
  | inl same ↦ let there = rw ((==_iff k.user_id i).0 same) at h.0 in cc
]
