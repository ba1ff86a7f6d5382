-- ===== src/Tables/Kept/Invites.antt =====
-- The statements on invites keep the database well-formed.
use naleystogramm_server.Base.{
  ℕ, refl, inl, inr, Text, text_eq_iff, Bool-cases, All-append, All-update_where, Distinct-append,
  Distinct-update_where, any,
}
use naleystogramm_server.Tables.Rows.{Tables}
use naleystogramm_server.Tables.Statements.{has_user, has_code, insert_invite, use_invite}
use naleystogramm_server.Tables.Valid.{IsValid}
use naleystogramm_server.Tables.Kept.Columns.{Leaves, fresh_key, with_invites}

module _ (to_lowercase : Text → Text) where
  pub insert_invite-IsValid :
      (now code : Text) (created_by : ℕ) (t : Tables)
      → IsValid to_lowercase t
      → Leaves (IsValid to_lowercase) (insert_invite now code created_by t)
  unfolding insert_invite
  insert_invite-IsValid now code created_by t v =
      elim (Bool-cases (any (has_code code) t.invites)) [
        | inl taken ↦ rw taken tt
        | inr free ↦ rw free (elim (Bool-cases (has_user created_by t)) [
          | inr missing ↦ rw missing tt
          | inl there ↦ rw there (
              with_invites to_lowercase t v _
                (Distinct-append _ t.invites _
                  (fresh_key _ (has_code code) code t.invites (λ i e. (text_eq_iff i.code code).1 e)
                    free)
                  v.invite_codes)
                (All-append _ t.invites _ v.invites_refer ((there, refl), tt)))
        ])
      ]

  pub use_invite-IsValid :
      (now : Text) (user_id : ℕ) (code : Text) (t : Tables)
      → IsValid to_lowercase t
      → Leaves (IsValid to_lowercase) (use_invite now user_id code t)
  unfolding use_invite
  use_invite-IsValid now user_id code t v = elim (Bool-cases (any (has_code code) t.invites)) [
    | inr missing ↦ rw missing v
    | inl found ↦ rw found (elim (Bool-cases (has_user user_id t)) [
      | inr missing ↦ rw missing tt
      | inl there ↦ rw there (
          with_invites to_lowercase t v _
            (Distinct-update_where _ (has_code code) _ t.invites (λ i. refl) v.invite_codes)
            (All-update_where _ (has_code code) _ t.invites (λ i h. (h.0, there)) v.invites_refer))
    ])
  ]
