-- ===== src/Discovery/Unregister.antt =====
-- What `unregister` of src/discovery.rs leaves behind.
use naleystogramm_server.Base.{
  ℕ, ◌≡◌, ◌≢◌, refl, sym, ◌∙◌, inl, inr, Bool, true, false, ◌&&◌, List, [], ◌∷◌, some, Text,
  text_eq, arith, ◌==◌, ==_iff, find, any, map, delete_where, Bool-cases,
}
use naleystogramm_server.Extern.{Extern}
use naleystogramm_server.Error.{StatusCode, Body, unauthorized}
use naleystogramm_server.Tables.{Tables, Token, Invite, has_user, has_code, cut_out, delete_user}
use naleystogramm_server.State.{AppState}
use naleystogramm_server.Action.{Result, ok, err, panicked, lift, pure}
use naleystogramm_server.Action.Rules.{
  Post, Post-bind, Post-query, Post-ok_or, calm, bind-ok, query-ok,
}
use naleystogramm_server.Auth.{extract_bearer, hash_token}
use naleystogramm_server.Discovery.Requests.{Request, find_token, resolve_token}
use naleystogramm_server.Discovery.Register.{is_unused, unused_invite, is_some}
use naleystogramm_server.Discovery.Account.{unregister}

find-delete_where :
    {A : Type 0} (p q : A → Bool) (xs : List A) (a : A)
    → find p (delete_where q xs) ≡ some a
    → q a ≡ false
find-delete_where p q [] a e = cc
find-delete_where p q (x ∷ xs) a e = elim (Bool-cases (q x)) [
  | inl gone ↦ let e' = rw gone at e in find-delete_where p q xs a e'
  | inr kept ↦
      let e' = rw kept at e in
      elim (Bool-cases (p x)) [
        | inl hit ↦ let e'' = rw hit at e' in cc
        | inr miss ↦ let e'' = rw miss at e' in find-delete_where p q xs a e''
      ]
]

any-delete_where : {A : Type 0} (q : A → Bool) (xs : List A) → any q (delete_where q xs) ≡ false
any-delete_where q [] = refl
any-delete_where q (x ∷ xs) = ground (arith, any-delete_where q xs)

module _ (x : Extern) where
  -- A request whose token is found has the user of its row.
  resolve_token-row :
      (rq : Request) (P : ℕ → Type 0) (s : AppState)
      → ((raw : Text) (k : Token)
          → find_token x rq.now (hash_token x raw) s.pool ≡ some k
          → P k.user_id)
      → Post (λ j _. P j) (λ _ _. Unit) (resolve_token x rq s)
  unfolding resolve_token pure lift
  resolve_token-row rq P s row =
      Post-bind (λ _ s'. s'.pool ≡ s.pool) (λ _ _. Unit) (λ j _. P j) _ _ s
        (lifted (extract_bearer rq.authorization))
        λ raw s' same.
          Post-bind (λ o _. o ≡ find_token x rq.now (hash_token x raw) s.pool) (λ _ _. Unit)
            (λ j _. P j) _ _ s'
            (Post-query (λ o _. o ≡ find_token x rq.now (hash_token x raw) s.pool) (λ _ _. Unit) _
              s' (λ e fs. tt) (λ fs o t e. let e' = rw same at e in ground arith))
            λ o s'' found.
              Post-bind (λ k _. o ≡ some k) (λ _ _. Unit) (λ j _. P j) _ _ s''
                (Post-ok_or (λ k _. o ≡ some k) (λ _ _. Unit) o unauthorized s'' tt (λ k e. e))
                λ k s''' hit. row raw k (sym found ∙ hit)
    where
      lifted : (r : Result Text) → Post (λ _ s'. s'.pool ≡ s.pool) (λ _ _. Unit) (lift r s)
      lifted (ok a) = refl
      lifted (err e) = tt
      lifted panicked = tt

  unregister-ok :
      (rq : Request) (s : AppState) (i : ℕ) (t : Tables)
      → resolve_token x rq (calm s) ≡ (ok i, calm s)
      → delete_user i s.pool ≡ inr (tt, t)
      → unregister x rq (calm s) ≡ (
        ok (record { status = StatusCode.no_content; body = Body.nothing }),
        calm (record s { pool = t }),
      )
  unfolding unregister pure
  unregister-ok rq s i t resolved deleted =
      bind-ok _ _ {s' = calm s} {a = i} resolved ∙ bind-ok _ _ {a = tt} (query-ok _ s deleted)

  not_ok : (i : ℕ) (r : Result ℕ × AppState) → Post (λ j _. j ≢ i) (λ _ _. Unit) r → r.0 ≢ ok i
  not_ok i (ok j, s) h e = let same : j ≡ i = cc e in h same
  not_ok i (err e', s) h e = cc e
  not_ok i (panicked, s) h e = cc e

  -- Where the database fails no statement, a request with a token of user `i` that unregisters is
  -- answered with 204 and takes the user out of the table of users, and the next request, whatever
  -- its bearer and its time, is not taken for one of that user.
  pub unregister_revokes :
      (rq : Request) (s : AppState) (i : ℕ)
      → resolve_token x rq (calm s) ≡ (ok i, calm s)
      → let r = unregister x rq (calm s) in
        (r.0 ≡ ok (record { status = StatusCode.no_content; body = Body.nothing }))
        × (has_user i r.1.pool ≡ false)
        × ((later : Request) → (resolve_token x later r.1).0 ≢ ok i)
  unfolding delete_user find_token
  unregister_revokes rq s i resolved = rw (unregister-ok rq s i _ resolved refl) (
    refl,
    any-delete_where (λ u. u.id == i) s.pool.users,
    λ later. not_ok i _ (
        resolve_token-row later (λ j. j ≢ i) _
          λ raw k found same. cc (
            find-delete_where _ (λ k. k.user_id == i) s.pool.tokens k found,
            (==_iff k.user_id i).1 same,
          )),
  )

  reopened :
      (i : ℕ) (code : Text) (v : Invite) (vs : List Invite)
      → find (has_code code) vs ≡ some v
      → v.used_by ≡ some i
      → is_some (
          find
            (λ w. text_eq w.code code && is_unused w)
            (map
              (λ (w : Invite). record w {
                created_by = cut_out i w.created_by;
                used_by = cut_out i w.used_by;
              })
              vs))
        ≡ true
  reopened i code v [] e used = cc
  reopened i code v (w ∷ vs) e used = elim (Bool-cases (has_code code w)) [
    | inr miss ↦ let e' = rw miss at e in rw miss (reopened i code v vs e' used)
    | inl hit ↦
        let e' = rw hit at e in
        let same : w.used_by ≡ some i = cc in rw (hit, same, (==_iff i i).1 refl) refl
  ]

  -- Where the database fails no statement, once user `i` unregisters with a token of its own, an
  -- invite that it had used is there again for a further registration.
  pub unregister_reopens_invite :
      (rq : Request) (s : AppState) (i : ℕ) (code : Text) (v : Invite)
      → resolve_token x rq (calm s) ≡ (ok i, calm s)
      → find (has_code code) s.pool.invites ≡ some v
      → v.used_by ≡ some i
      → is_some (unused_invite code (unregister x rq (calm s)).1.pool) ≡ true
  unfolding delete_user unused_invite
  unregister_reopens_invite rq s i code v resolved found used =
      rw (unregister-ok rq s i _ resolved refl) (reopened i code v s.pool.invites found used)
