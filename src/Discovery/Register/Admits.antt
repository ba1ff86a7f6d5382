-- ===== src/Discovery/Register/Admits.antt =====
-- What a registration needs so that each check of `register` (src/discovery.rs) lets it through.
use naleystogramm_server.Base.{
  ℕ, ◌≤◌, ◌<◌, ◌≡◌, refl, ◌⊎◌, inr, Bool, true, false, List, [], ◌∷◌, none, some, Text, length, any,
  find, contains_char, arith, text_eq, ◌==◌,
}
use naleystogramm_server.Extern.{Extern}
use naleystogramm_server.Tables.{User, Invite, has_name}
use naleystogramm_server.State.{AppState}
use naleystogramm_server.Action.{ok, ◌>>=◌, query, throw_if}
use naleystogramm_server.Action.Rules.{calm}
use naleystogramm_server.Discovery.Register.{
  RegisterReq, client_too_old, check_body, check_invite, check_username, check_regex, check_pubkey,
  check_ip, check_email, server_full, unused_invite, user_by_lc, text_or_empty,
}

contains-nonempty : (c : ℕ) (t : Text) → contains_char c t ≡ true → (length t == 0) ≡ false
unfolding contains_char
contains-nonempty c [] h = cc
contains-nonempty c (d ∷ t) h = ground arith

-- No user of a name, so none of its lower-case form.
free-user_by_lc :
    (username lc : Text) (us : List User)
    → any (has_name username lc) us ≡ false
    → find (λ u. text_eq u.username_lc lc) us ≡ none
free-user_by_lc username lc [] h = refl
free-user_by_lc username lc (u ∷ us) h = ground (arith, free-user_by_lc username lc us)

module _ (x : Extern) (body : RegisterReq) (s : AppState) where
  -- What a registration needs of the request and the state, but for the limit on requests.
  pub record IsAdmissible : Type 0 where
    pub current : client_too_old x body s ≡ none
    pub invited :
        (s.config.registration.is_open ≡ true)
        ⊎ ((code : Text) × (i : Invite) × (body.invite_code ≡ some code)
            × (unused_invite code s.pool ≡ some i))
    pub long_enough : s.config.registration.username_min_length ≤ length body.username
    pub short_enough : length body.username ≤ s.config.registration.username_max_length
    pub matches :
        (is_match : Text → Bool) × (x.regex s.config.registration.username_regex ≡ inr is_match)
        × (is_match body.username ≡ true)
    pub free : any (has_name body.username (x.to_lowercase body.username)) s.pool.users ≡ false
    pub key_decodes : (key : List ℕ) × (x.b64_decode body.pubkey ≡ some key) × (length key ≡ 32)
    pub ip : x.is_ip_addr body.ip ≡ true
    pub email :
        (s.config.registration.require_email ≡ false)
        ⊎ (contains_char b'@' (text_or_empty body.email) ≡ true)
    pub room :
        (s.config.registration.max_users ≡ 0)
        ⊎ (length s.pool.users < s.config.registration.max_users)

  check_invite-ok : IsAdmissible → check_invite body (calm s) ≡ (ok tt, calm s)
  unfolding check_invite query ◌>>=◌
  check_invite-ok a = ground arith

  check_regex-ok :
      IsAdmissible
      → check_regex x s.config.registration.username_regex body.username (calm s) ≡ (ok tt, calm s)
  unfolding check_regex throw_if
  check_regex-ok a = rw (a.matches.1, check_regex) (rw a.matches.2 refl)

  check_username-ok : IsAdmissible → check_username x body (calm s) ≡ (ok tt, calm s)
  unfolding check_username user_by_lc query ◌>>=◌
  check_username-ok a = ground (
    arith,
    check_regex-ok a,
    free-user_by_lc _ (x.to_lowercase body.username) s.pool.users a.free,
  )

  check_pubkey-ok : IsAdmissible → check_pubkey x body (calm s) ≡ (ok tt, calm s)
  unfolding check_pubkey ◌>>=◌
  check_pubkey-ok a = ground arith

  check_email-ok : IsAdmissible → check_email x body (calm s) ≡ (ok tt, calm s)
  unfolding check_email ◌>>=◌
  check_email-ok a = ground (arith, contains-nonempty b'@' (text_or_empty body.email))

  pub server_full-ok : IsAdmissible → server_full x (calm s) ≡ (ok false, calm s)
  unfolding server_full query ◌>>=◌
  server_full-ok a = ground arith

  pub check_body-ok : IsAdmissible → check_body x body (calm s) ≡ (ok tt, calm s)
  unfolding check_body check_ip ◌>>=◌
  check_body-ok a =
      ground (arith, check_invite-ok a, check_username-ok a, check_pubkey-ok a, check_email-ok a)
