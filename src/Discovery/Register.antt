-- ===== src/Discovery/Register.antt =====
-- `register` of src/discovery.rs: the checks in their order, then the writes.
pub mod Rejects
pub mod Admits
pub mod Account
pub mod Succeeds
pub mod RoundTrip
use naleystogramm_server.Action.{lift}
use naleystogramm_server.Base.{
  ◌<◌, ℕ, ◌++◌, inl, inr, Bool, true, false, not, ◌&&◌, ◌||◌, List, [], Option, none, some, Text,
  codes, decimal, contains_char, text_eq, ltb, leb, ◌==◌, find, length, if◌then◌else◌,
}
use naleystogramm_server.RateLimit.{allow_register}
use naleystogramm_server.Extern.{Extern, datetime}
use naleystogramm_server.Config.{RegistrationConfig}
use naleystogramm_server.Error.{
  StatusCode, Body, Response, refusal, forbidden, bad_request, internal, conflict,
  too_many_requests,
}
use naleystogramm_server.Tables.{
  Tables, User, Invite, select, insert_user, insert_presence, insert_token, use_invite,
}
use naleystogramm_server.State.{AppState}
use naleystogramm_server.Action.{Action, ok, ◌>>=◌, ◌>>◌, pure, throw, gets, ok_or, throw_if, query}
use naleystogramm_server.Auth.{generate_token, hash_token}
use naleystogramm_server.Version.{satisfies}
use naleystogramm_server.Discovery.Requests.{Request, expiry}

pub record RegisterReq : Type 0 where
  pub username : Text
  pub pubkey : Text
  pub ip : Text
  pub port : ℕ
  pub port_bound : port < 65536
  pub email : Option Text
  pub invite_code : Option Text
  pub client_version : Option Text

-- `state.rate_limiter.allow_register(addr.ip())`
unfoldable pub limit_register : Request → Action Bool
limit_register rq s =
    let (allowed, l) = allow_register s.rate_limiter rq.addr rq.instant in
    (ok allowed, record s { rate_limiter = l })

-- SELECT code FROM invites WHERE code=? AND used_by IS NULL
abbrev pub is_unused : Invite → Bool
is_unused i = elim i.used_by [ none ↦ true | some _ ↦ false ]

unfoldable pub unused_invite : Text → Tables → Option Invite
unused_invite code t = find (λ i. text_eq i.code code && is_unused i) t.invites

unfoldable pub check_invite : RegisterReq → Action (Unit {0})
unfolding unused_invite
check_invite body = do
  is_open ← gets (λ s. s.config.registration.is_open)
  if is_open then pure tt else (do
    code ← ok_or body.invite_code (forbidden (codes "registration_closed"))
    row ← query (select (unused_invite code))
    ok_or row (forbidden (codes "invalid_invite"))
    pure tt)

-- "username length must be {}-{}"
unfoldable pub length_message : RegistrationConfig → Text
length_message cfg =
    codes "username length must be "
    ++ decimal cfg.username_min_length
    ++ codes "-"
    ++ decimal cfg.username_max_length

-- `as_deref().unwrap_or("")`
abbrev pub text_or_empty : Option Text → Text
text_or_empty none = []
text_or_empty (some t) = t

-- SELECT id FROM users WHERE username_lc=?
unfoldable pub user_by_lc : Text → Tables → Option User
user_by_lc username_lc t = find (λ u. text_eq u.username_lc username_lc) t.users

abbrev pub is_some : {A : Type 0} → Option A → Bool
is_some none = false
is_some (some a) = true

module _ (x : Extern) where
  -- The minimal version that the client falls short of, if it does.
  unfoldable pub client_too_old : RegisterReq → AppState → Option Text
  client_too_old body s = elim body.client_version [
    | none ↦ none
    | some cv ↦
        if not (text_eq s.min_version (codes "0.0.0")) && not (satisfies x.semver cv s.min_version)
        then some s.min_version
        else none
  ]

  -- `Regex::new`, and `is_match` of the username.
  unfoldable pub check_regex : Text → Text → Action (Unit {0})
  check_regex username_regex username = elim (x.regex username_regex) [
    | inl e ↦ throw (internal e)
    | inr is_match ↦ throw_if (not (is_match username)) (bad_request (codes "invalid_username"))
  ]

  unfoldable pub check_username : RegisterReq → Action (Unit {0})
  unfolding user_by_lc check_regex
  check_username body = do
    cfg ← gets (λ s. s.config.registration)
    throw_if
        (ltb (length body.username) cfg.username_min_length
          || ltb cfg.username_max_length (length body.username))
        (bad_request (length_message cfg))
    check_regex cfg.username_regex body.username
    taken ← query (select (user_by_lc (x.to_lowercase body.username)))
    throw_if (is_some taken) (conflict (codes "username_taken"))

  unfoldable pub check_pubkey : RegisterReq → Action (Unit {0})
  check_pubkey body = do
    key_bytes ← ok_or (x.b64_decode body.pubkey) (bad_request (codes "invalid pubkey: bad base64"))
    throw_if (not (length key_bytes == 32)) (bad_request (codes "invalid pubkey: must be 32 bytes"))

  unfoldable pub check_ip : Text → Action (Unit {0})
  check_ip ip = throw_if (not (x.is_ip_addr ip)) (bad_request (codes "invalid ip"))

  unfoldable pub check_email : RegisterReq → Action (Unit {0})
  check_email body = do
    required ← gets (λ s. s.config.registration.require_email)
    let email = text_or_empty body.email
    throw_if (required && (length email == 0 || not (contains_char b'@' email)))
        (bad_request (codes "email required"))

  -- Whether `max_users` is set and reached.
  unfoldable pub server_full : Action Bool
  server_full = do
    max_users ← gets (λ s. s.config.registration.max_users)
    if ltb 0 max_users
        then (do cnt ← query (select (λ t. length t.users)); pure (leb max_users cnt))
        else pure false

  -- The checks between the version and the limit on users.
  unfoldable pub check_body : RegisterReq → Action (Unit {0})
  check_body body = do
    check_invite body
    check_username body
    check_pubkey body
    check_ip body.ip
    check_email body

  -- The invite that the request names, used or not, is marked.
  unfoldable pub mark_invite : Request → Option Text → ℕ → Action (Unit {0})
  mark_invite rq none user_id = pure tt
  mark_invite rq (some code) user_id = query (use_invite (datetime x.calendar rq.now) user_id code)

  -- The four writes, each its own transaction, and the answer.
  unfoldable pub create_account : Request → List ℕ → RegisterReq → Action Response
  unfolding expiry mark_invite
  create_account rq random body = do
    let now = datetime x.calendar rq.now
    cfg ← gets (λ s. s.config)
    user_id ←
        query (insert_user now body.username (x.to_lowercase body.username) body.pubkey body.email)
    query (insert_presence now user_id body.ip body.port)
    let token = generate_token x random
    expires_at ← lift (expiry x rq.now cfg.tokens.ttl_days)
    query (insert_token now user_id (hash_token x token) expires_at)
    mark_invite rq body.invite_code user_id
    let host = cfg.server.name ++ codes ":" ++ decimal cfg.server.port
    pure (record { status = StatusCode.created; body = Body.registered token body.username host })

  unfoldable pub register_current : Request → List ℕ → RegisterReq → Action Response
  register_current rq random body = do
    check_body body
    full ← server_full
    if full
        then pure (refusal StatusCode.too_many_requests (codes "server_full"))
        else create_account rq random body

  unfoldable pub register : Request → List ℕ → RegisterReq → Action Response
  register rq random body = do
    allowed ← limit_register rq
    throw_if (not allowed) too_many_requests
    outdated ← gets (client_too_old body)
    elim outdated [
      | some min ↦ pure (record {
        status = StatusCode.upgrade_required;
        body = Body.too_old (codes "client_too_old") min;
      })
      | none ↦ register_current rq random body
    ]
