-- ===== src/Tables/Kept/Presence.antt =====
-- The statements on presence keep the database well-formed.
use naleystogramm_server.Base.{
  ℕ, refl, inl, inr, Text, Bool-cases, All-append, All-update_where, Distinct-append,
  Distinct-update_where, any,
}
use naleystogramm_server.Tables.Rows.{Tables}
use naleystogramm_server.Tables.Statements.{
  has_user, is_of, insert_presence, upsert_presence, touch_presence,
}
use naleystogramm_server.Tables.Valid.{IsValid}
use naleystogramm_server.Tables.Kept.Columns.{Leaves, fresh_number, with_presence}

module _ (to_lowercase : Text → Text) where
  pub insert_presence-IsValid :
      (now : Text) (user_id : ℕ) (ip : Text) (port : ℕ) (t : Tables)
      → IsValid to_lowercase t
      → Leaves (IsValid to_lowercase) (insert_presence now user_id ip port t)
  unfolding insert_presence
  insert_presence-IsValid now user_id ip port t v =
      elim (Bool-cases (any (is_of user_id) t.presence)) [
        | inl taken ↦ rw taken tt
        | inr free ↦ rw free (elim (Bool-cases (has_user user_id t)) [
          | inr missing ↦ rw missing tt
          | inl there ↦ rw there (record {
            lower_case = v.lower_case;
            user_ids_bounded = v.user_ids_bounded;
            user_ids = v.user_ids;
            names = v.names;
            presence_users =
                Distinct-append _ t.presence _ (fresh_number _ user_id t.presence free)
                  v.presence_users;
            presence_refers = All-append _ t.presence _ v.presence_refers (there, tt);
            token_ids_bounded = v.token_ids_bounded;
            token_ids = v.token_ids;
            token_hashes = v.token_hashes;
            tokens_refer = v.tokens_refer;
            invite_codes = v.invite_codes;
            invites_refer = v.invites_refer;
            session_ids = v.session_ids;
            sessions_refer = v.sessions_refer;
          })
        ])
      ]

  pub touch_presence-IsValid :
      (now : Text) (user_id : ℕ) (t : Tables)
      → IsValid to_lowercase t
      → Leaves (IsValid to_lowercase) (touch_presence now user_id t)
  unfolding touch_presence
  touch_presence-IsValid now user_id t v =
      with_presence to_lowercase t v _
        (Distinct-update_where _ (is_of user_id) _ t.presence (λ p. refl) v.presence_users)
        (All-update_where _ (is_of user_id) _ t.presence (λ p h. h) v.presence_refers)

  pub upsert_presence-IsValid :
      (now : Text) (user_id : ℕ) (ip : Text) (port : ℕ) (t : Tables)
      → IsValid to_lowercase t
      → Leaves (IsValid to_lowercase) (upsert_presence now user_id ip port t)
  unfolding upsert_presence
  upsert_presence-IsValid now user_id ip port t v =
      elim (Bool-cases (any (is_of user_id) t.presence)) [
        | inl old ↦ rw old (
            with_presence to_lowercase t v _
              (Distinct-update_where _ (is_of user_id) _ t.presence (λ p. refl) v.presence_users)
              (All-update_where _ (is_of user_id) _ t.presence (λ p h. h) v.presence_refers))
        | inr free ↦ rw free (elim (Bool-cases (has_user user_id t)) [
          | inr missing ↦ rw missing tt
          | inl there ↦ rw there (
              with_presence to_lowercase t v _
                (Distinct-append _ t.presence _ (fresh_number _ user_id t.presence free)
                  v.presence_users)
                (All-append _ t.presence _ v.presence_refers (there, tt)))
        ])
      ]
