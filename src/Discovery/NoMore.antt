-- ===== src/Discovery/NoMore.antt =====
-- Which statements of src/discovery.rs add no user.
use naleystogramm_server.Base.{
  ℕ, ◌+◌, ◌≤◌, inl, inr, Option, Text, arith, length, length-append, length-delete_where, any,
  Bool-cases, Option-cases,
}
use naleystogramm_server.Tables.{
  Tables, has_name, Statement, oldest_token, insert_user, insert_presence, insert_token, use_invite,
  upsert_presence, touch_presence, delete_user, delete_oldest_token, insert_invite,
}
use naleystogramm_server.Tables.Kept.{Leaves}

-- A statement adds no user.
abbrev pub NoMore : {A : Type 0} → Statement A → Type 0
NoMore q = (t : Tables) → Leaves (λ t'. length t'.users ≤ length t.users) (q t)

pub insert_presence-NoMore :
    (now : Text) (i : ℕ) (ip : Text) (port : ℕ) → NoMore (insert_presence now i ip port)
unfolding insert_presence
insert_presence-NoMore now i ip port t = ground arith

pub upsert_presence-NoMore :
    (now : Text) (i : ℕ) (ip : Text) (port : ℕ) → NoMore (upsert_presence now i ip port)
unfolding upsert_presence
upsert_presence-NoMore now i ip port t = ground arith

pub touch_presence-NoMore : (now : Text) (i : ℕ) → NoMore (touch_presence now i)
unfolding touch_presence
touch_presence-NoMore now i t = omega arith

pub insert_token-NoMore :
    (now : Text) (i : ℕ) (hash : Text) (expires_at : Option Text)
    → NoMore (insert_token now i hash expires_at)
unfolding insert_token
insert_token-NoMore now i hash expires_at t = ground arith

pub delete_oldest_token-NoMore : (i : ℕ) → NoMore (delete_oldest_token i)
unfolding delete_oldest_token
delete_oldest_token-NoMore i t = elim (Option-cases (oldest_token i t.tokens)) [
  | inl nothing ↦ rw (nothing, delete_oldest_token) omega arith
  | inr (k, e) ↦ rw (e, delete_oldest_token) omega arith
]

pub insert_invite-NoMore : (now code : Text) (i : ℕ) → NoMore (insert_invite now code i)
unfolding insert_invite
insert_invite-NoMore now code i t = ground arith

pub use_invite-NoMore : (now : Text) (i : ℕ) (code : Text) → NoMore (use_invite now i code)
unfolding use_invite
use_invite-NoMore now i code t = ground arith

pub delete_user-NoMore : (i : ℕ) → NoMore (delete_user i)
unfolding delete_user
delete_user-NoMore i t = length-delete_where _ t.users

pub insert_user-one_more :
    (now username lc pubkey : Text) (email : Option Text) (t : Tables)
    → Leaves
        (λ t'. length t'.users ≤ length t.users + 1)
        (insert_user now username lc pubkey email t)
unfolding insert_user
insert_user-one_more now username lc pubkey email t =
    elim (Bool-cases (any (has_name username lc) t.users)) [
      | inl taken ↦ rw taken tt
      | inr free ↦ rw free (rw (length-append t.users _) omega arith)
    ]
