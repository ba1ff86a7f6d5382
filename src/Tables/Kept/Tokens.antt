-- ===== src/Tables/Kept/Tokens.antt =====
-- The statements on tokens keep the database well-formed.
use naleystogramm_server.Base.{
  ℕ, inl, inr, Option, none, some, Text, text_eq_iff, arith, ◌==◌, Bool-cases, All-append, All-map,
  All-delete_where, Distinct-append, Distinct-delete_where, any, delete_where,
}
use naleystogramm_server.Tables.Rows.{Token, Tables}
use naleystogramm_server.Tables.Statements.{
  has_user, has_hash, insert_token, delete_oldest_token, oldest_token,
}
use naleystogramm_server.Tables.Valid.{IsValid}
use naleystogramm_server.Tables.Kept.Columns.{Leaves, fresh_key, with_tokens}

module _ (to_lowercase : Text → Text) where
  pub insert_token-IsValid :
      (now : Text) (user_id : ℕ) (hash : Text) (expires_at : Option Text) (t : Tables)
      → IsValid to_lowercase t
      → Leaves (IsValid to_lowercase) (insert_token now user_id hash expires_at t)
  unfolding insert_token
  insert_token-IsValid now user_id hash expires_at t v =
      elim (Bool-cases (any (has_hash hash) t.tokens)) [
        | inl taken ↦ rw taken tt
        | inr free ↦ rw free (elim (Bool-cases (has_user user_id t)) [
          | inr missing ↦ rw missing tt
          | inl there ↦ rw there (record {
            lower_case = v.lower_case;
            user_ids_bounded = v.user_ids_bounded;
            user_ids = v.user_ids;
            names = v.names;
            presence_users = v.presence_users;
            presence_refers = v.presence_refers;
            token_ids_bounded =
                All-append _ t.tokens _ (All-map (λ k h. omega arith) t.tokens v.token_ids_bounded)
                  (omega arith, tt);
            token_ids =
                Distinct-append _ t.tokens _
                  (All-map (λ k h. omega arith) t.tokens v.token_ids_bounded) v.token_ids;
            token_hashes =
                Distinct-append _ t.tokens _
                  (fresh_key _ (has_hash hash) hash t.tokens
                    (λ k e. (text_eq_iff k.token_hash hash).1 e) free)
                  v.token_hashes;
            tokens_refer = All-append _ t.tokens _ v.tokens_refer (there, tt);
            invite_codes = v.invite_codes;
            invites_refer = v.invites_refer;
            session_ids = v.session_ids;
            sessions_refer = v.sessions_refer;
          })
        ])
      ]

  pub delete_oldest_token-IsValid :
      (user_id : ℕ) (t : Tables)
      → IsValid to_lowercase t
      → Leaves (IsValid to_lowercase) (delete_oldest_token user_id t)
  unfolding delete_oldest_token
  delete_oldest_token-IsValid user_id t v = go (oldest_token user_id t.tokens)
    where
      go :
          (o : Option Token)
          → Leaves {A = Unit {0}} (IsValid to_lowercase) (elim o [
            | none ↦ inr (tt, t)
            | some k ↦ inr (tt, record t { tokens = delete_where (λ j. j.id == k.id) t.tokens })
          ])
      go none = v
      go (some k) =
          with_tokens to_lowercase t v _
            (All-delete_where _ (λ j. j.id == k.id) t.tokens v.token_ids_bounded)
            (Distinct-delete_where _ (λ j. j.id == k.id) t.tokens v.token_ids)
            (Distinct-delete_where _ (λ j. j.id == k.id) t.tokens v.token_hashes)
            (All-delete_where _ (λ j. j.id == k.id) t.tokens v.tokens_refer)
