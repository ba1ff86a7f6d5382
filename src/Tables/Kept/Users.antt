-- ===== src/Tables/Kept/Users.antt =====
-- The statements on users keep the database well-formed.
use naleystogramm_server.Base.{
  ℕ, ◌≡◌, refl, inl, inr, Bool, true, false, List, [], ◌∷◌, ◌++◌, map, Option, none, some, Text,
  text_eq_iff, arith, ◌==◌, Bool-cases, All, All-append, All-map, All-delete_where, Distinct-append,
  Distinct-delete_where, Distinct-map, any, delete_where,
}
use naleystogramm_server.Tables.Rows.{User, Tables}
use naleystogramm_server.Tables.Statements.{has_name, cut_out, insert_user, delete_user}
use naleystogramm_server.Tables.Valid.{IsValid, refers}
use naleystogramm_server.Tables.Kept.Columns.{Leaves, fresh_key, any-append_old}

-- A user other than the deleted one is still there.
user_survives :
    (i j : ℕ) (us : List User)
    → (j == i) ≡ false
    → any (λ u. u.id == j) us ≡ true
    → any (λ u. u.id == j) (delete_where (λ u. u.id == i) us) ≡ true
user_survives i j [] ne h = cc
user_survives i j (u ∷ us) ne h = ground (arith, user_survives i j us ne)

All-survivors :
    {A : Type 0} (P Q : A → Type 0) (p : A → Bool) (xs : List A)
    → ((a : A) → p a ≡ false → P a → Q a)
    → All P xs
    → All Q (delete_where p xs)
All-survivors P Q p [] keep h = tt
All-survivors P Q p (x ∷ xs) keep h = elim (Bool-cases (p x)) [
  | inl gone ↦ rw gone (All-survivors P Q p xs keep h.1)
  | inr kept ↦ rw kept (keep x kept h.0, All-survivors P Q p xs keep h.1)
]

All-mapped :
    {A : Type 0} (P Q : A → Type 0) (f : A → A) (xs : List A)
    → ((a : A) → P a → Q (f a))
    → All P xs
    → All Q (map f xs)
All-mapped P Q f [] keep h = tt
All-mapped P Q f (x ∷ xs) keep h = (keep x h.0, All-mapped P Q f xs keep h.1)

-- A reference that may be null, when a user comes and when one is deleted.
refers-more :
    (t : Tables) (us : List User) (o : Option ℕ)
    → refers o t.users ≡ true
    → refers o (t.users ++ us) ≡ true
refers-more t us none h = refl
refers-more t us (some j) h = any-append_old _ t.users us h

refers-cut_out :
    (i : ℕ) (o : Option ℕ) (us : List User)
    → refers o us ≡ true
    → refers (cut_out i o) (delete_where (λ u. u.id == i) us) ≡ true
refers-cut_out i none us h = refl
refers-cut_out i (some j) us h = elim (Bool-cases (j == i)) [
  | inl gone ↦ rw gone refl
  | inr kept ↦ rw kept (user_survives i j us kept h)
]

module _ (to_lowercase : Text → Text) where
  pub insert_user-IsValid :
      (now username pubkey : Text) (email : Option Text) (t : Tables)
      → IsValid to_lowercase t
      → Leaves
          (IsValid to_lowercase)
          (insert_user now username (to_lowercase username) pubkey email t)
  unfolding insert_user
  insert_user-IsValid now username pubkey email t v =
      elim (Bool-cases (any (has_name username (to_lowercase username)) t.users)) [
        | inl taken ↦ rw taken tt
        | inr free ↦ rw free (record {
          lower_case = All-append _ t.users _ v.lower_case (refl, tt);
          user_ids_bounded =
              All-append _ t.users _ (All-map (λ u h. omega arith) t.users v.user_ids_bounded)
                (omega arith, tt);
          user_ids =
              Distinct-append _ t.users _ (All-map (λ u h. omega arith) t.users v.user_ids_bounded)
                v.user_ids;
          names =
              Distinct-append _ t.users _
                (fresh_key _ _ (to_lowercase username) t.users
                  (λ u e. ground (arith, (text_eq_iff u.username_lc (to_lowercase username)).1 e))
                  free)
                v.names;
          presence_users = v.presence_users;
          presence_refers =
              All-map (λ p h. any-append_old _ t.users _ h) t.presence v.presence_refers;
          token_ids_bounded = v.token_ids_bounded;
          token_ids = v.token_ids;
          token_hashes = v.token_hashes;
          tokens_refer = All-map (λ p h. any-append_old _ t.users _ h) t.tokens v.tokens_refer;
          invite_codes = v.invite_codes;
          invites_refer =
              All-map (λ w h. (refers-more t _ w.created_by h.0, refers-more t _ w.used_by h.1))
                t.invites v.invites_refer;
          session_ids = v.session_ids;
          sessions_refer =
              All-map (λ r h. (refers-more t _ r.creator_id h.0, refers-more t _ r.joiner_id h.1))
                t.relay_sessions v.sessions_refer;
        })
      ]

  pub delete_user-IsValid :
      (i : ℕ) (t : Tables)
      → IsValid to_lowercase t
      → Leaves (IsValid to_lowercase) (delete_user i t)
  unfolding delete_user
  delete_user-IsValid i t v = record {
    lower_case = All-delete_where _ _ t.users v.lower_case;
    user_ids_bounded = All-delete_where _ _ t.users v.user_ids_bounded;
    user_ids = Distinct-delete_where _ _ t.users v.user_ids;
    names = Distinct-delete_where _ _ t.users v.names;
    presence_users = Distinct-delete_where _ _ t.presence v.presence_users;
    presence_refers =
        All-survivors _ _ _ t.presence (λ p ne h. user_survives i p.user_id t.users ne h)
          v.presence_refers;
    token_ids_bounded = All-delete_where _ _ t.tokens v.token_ids_bounded;
    token_ids = Distinct-delete_where _ _ t.tokens v.token_ids;
    token_hashes = Distinct-delete_where _ _ t.tokens v.token_hashes;
    tokens_refer =
        All-survivors _ _ _ t.tokens (λ k ne h. user_survives i k.user_id t.users ne h)
          v.tokens_refer;
    invite_codes = Distinct-map _ _ t.invites (λ v. refl) v.invite_codes;
    invites_refer =
        All-mapped _ _ _ t.invites
          (λ w h.
            (refers-cut_out i w.created_by t.users h.0, refers-cut_out i w.used_by t.users h.1))
          v.invites_refer;
    session_ids = Distinct-map _ _ t.relay_sessions (λ v. refl) v.session_ids;
    sessions_refer =
        All-mapped _ _ _ t.relay_sessions
          (λ r h.
            (refers-cut_out i r.creator_id t.users h.0, refers-cut_out i r.joiner_id t.users h.1))
          v.sessions_refer;
  }
