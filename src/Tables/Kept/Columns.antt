-- ===== src/Tables/Kept/Columns.antt =====
-- How a column stays well-formed, and what a table needs when it alone changes.
use naleystogramm_server.Base.{
  ℕ, ◌≤◌, ◌≡◌, ◌≢◌, ◌⊎◌, inl, inr, Bool, true, false, List, ◌++◌, Text, arith, ◌==◌, All, All-map,
  All-any, Distinct, any, any-append,
}
use naleystogramm_server.Error.{DbError}
use naleystogramm_server.Tables.Rows.{Presence, Token, Invite, RelaySession, Tables}
use naleystogramm_server.Tables.Statements.{has_user}
use naleystogramm_server.Tables.Valid.{IsValid, refers}

-- A statement that answers leaves tables with `P`.
abbrev pub Leaves {ℓ} : {A : Type 0} → (Tables → Type ℓ) → DbError ⊎ (A × Tables) → Type ℓ
Leaves P (inl e) = Unit
Leaves P (inr (a, t)) = P t

-- A key that no row has under a test `p` that finds it.
pub fresh_key :
    {A : Type 0} (key : A → Text) (p : A → Bool) (k : Text) (xs : List A)
    → ((a : A) → key a ≡ k → p a ≡ true)
    → any p xs ≡ false
    → All (λ a. key a ≢ k) xs
fresh_key key p k xs found miss = All-map (λ a h e. cc (found a e)) xs (All-any p xs miss)

pub fresh_number :
    {A : Type 0} (key : A → ℕ) (k : ℕ) (xs : List A)
    → any (λ a. key a == k) xs ≡ false
    → All (λ a. key a ≢ k) xs
fresh_number key k xs miss = All-map (λ a h e. ground arith) xs (All-any _ xs miss)

-- A user that is there stays there when another comes.
pub any-append_old :
    {A : Type 0} (p : A → Bool) (xs ys : List A) → any p xs ≡ true → any p (xs ++ ys) ≡ true
any-append_old p xs ys h = rw (any-append p xs ys, h)

module _ (to_lowercase : Text → Text) where
  -- What each table needs when it alone changes.
  pub with_invites :
      (t : Tables)
      → IsValid to_lowercase t
      → (is : List Invite) → Distinct (λ i. i.code) is
      → All (λ i. (refers i.created_by t.users ≡ true) × (refers i.used_by t.users ≡ true)) is
      → IsValid to_lowercase (record t { invites = is })
  with_invites t v is codes refer = record {
    lower_case = v.lower_case;
    user_ids_bounded = v.user_ids_bounded;
    user_ids = v.user_ids;
    names = v.names;
    presence_users = v.presence_users;
    presence_refers = v.presence_refers;
    token_ids_bounded = v.token_ids_bounded;
    token_ids = v.token_ids;
    token_hashes = v.token_hashes;
    tokens_refer = v.tokens_refer;
    invite_codes = codes;
    invites_refer = refer;
    session_ids = v.session_ids;
    sessions_refer = v.sessions_refer;
  }

  pub with_sessions :
      (t : Tables)
      → IsValid to_lowercase t
      → (rs : List RelaySession) → Distinct (λ r. r.id) rs
      → All (λ r. (refers r.creator_id t.users ≡ true) × (refers r.joiner_id t.users ≡ true)) rs
      → IsValid to_lowercase (record t { relay_sessions = rs })
  with_sessions t v rs ids refer = record {
    lower_case = v.lower_case;
    user_ids_bounded = v.user_ids_bounded;
    user_ids = v.user_ids;
    names = v.names;
    presence_users = v.presence_users;
    presence_refers = v.presence_refers;
    token_ids_bounded = v.token_ids_bounded;
    token_ids = v.token_ids;
    token_hashes = v.token_hashes;
    tokens_refer = v.tokens_refer;
    invite_codes = v.invite_codes;
    invites_refer = v.invites_refer;
    session_ids = ids;
    sessions_refer = refer;
  }

  pub with_presence :
      (t : Tables)
      → IsValid to_lowercase t
      → (ps : List Presence) → Distinct (λ p. p.user_id) ps
      → All (λ p. has_user p.user_id t ≡ true) ps
      → IsValid to_lowercase (record t { presence = ps })
  with_presence t v ps users refer = record {
    lower_case = v.lower_case;
    user_ids_bounded = v.user_ids_bounded;
    user_ids = v.user_ids;
    names = v.names;
    presence_users = users;
    presence_refers = refer;
    token_ids_bounded = v.token_ids_bounded;
    token_ids = v.token_ids;
    token_hashes = v.token_hashes;
    tokens_refer = v.tokens_refer;
    invite_codes = v.invite_codes;
    invites_refer = v.invites_refer;
    session_ids = v.session_ids;
    sessions_refer = v.sessions_refer;
  }

  pub with_tokens :
      (t : Tables)
      → IsValid to_lowercase t
      → (ks : List Token) → All (λ k. k.id ≤ t.tokens_seq) ks
      → Distinct (λ k. k.id) ks
      → Distinct (λ k. k.token_hash) ks
      → All (λ k. has_user k.user_id t ≡ true) ks
      → IsValid to_lowercase (record t { tokens = ks })
  with_tokens t v ks bounded ids hashes refer = record {
    lower_case = v.lower_case;
    user_ids_bounded = v.user_ids_bounded;
    user_ids = v.user_ids;
    names = v.names;
    presence_users = v.presence_users;
    presence_refers = v.presence_refers;
    token_ids_bounded = bounded;
    token_ids = ids;
    token_hashes = hashes;
    tokens_refer = refer;
    invite_codes = v.invite_codes;
    invites_refer = v.invites_refer;
    session_ids = v.session_ids;
    sessions_refer = v.sessions_refer;
  }
