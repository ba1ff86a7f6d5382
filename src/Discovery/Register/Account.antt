-- ===== src/Discovery/Register/Account.antt =====
-- The rows that `register` of src/discovery.rs writes for a new account.
use naleystogramm_server.Base.{
  ℕ, suc, ◌≤◌, ◌≡◌, refl, ◌∙◌, inl, inr, ◌++◌, true, false, List, [], ◌∷◌, Option, none, some, Text,
  codes, decimal, any, any-append, All, update_where, update_where-none, arith, ◌==◌, Bool-cases,
  ==_iff,
}
use naleystogramm_server.Extern.{Extern, datetime}
use naleystogramm_server.Error.{StatusCode, Body, Response}
use naleystogramm_server.Tables.{
  Tables, User, Presence, Token, Invite, has_name, has_user, is_of, has_hash, has_code, use_invite,
  insert_user, insert_presence, insert_token,
}
use naleystogramm_server.Tables.Valid.{IsValid}
use naleystogramm_server.State.{AppState}
use naleystogramm_server.Action.{ok, pure, lift, gets, query}
use naleystogramm_server.Action.Rules.{calm, bind-ok, query-ok}
use naleystogramm_server.Auth.{hash_token, generate_token}
use naleystogramm_server.Discovery.Requests.{Request, expiry}
use naleystogramm_server.Discovery.Register.{RegisterReq, create_account, mark_invite}

-- The number that the next user gets belongs to nobody yet.
pub no_such_user :
    (n : ℕ) (us : List User) → All (λ u. u.id ≤ n) us → any (λ u. u.id == suc n) us ≡ false
no_such_user n [] h = refl
no_such_user n (u ∷ us) h = ground (arith, no_such_user n us h.1)

pub no_presence :
    (i : ℕ) (t : Tables) (ps : List Presence)
    → has_user i t ≡ false
    → All (λ p. has_user p.user_id t ≡ true) ps
    → any (is_of i) ps ≡ false
no_presence i t [] none_there h = refl
no_presence i t (p ∷ ps) none_there h = elim (Bool-cases (is_of i p)) [
  | inr other ↦ rw other (no_presence i t ps none_there h.1)
  | inl same ↦ let there = rw ((==_iff p.user_id i).0 same) at h.0 in cc
]

module _ (x : Extern) (rq : Request) (random : List ℕ) (body : RegisterReq) (s : AppState) where
  abbrev now : Text
  now = datetime x.calendar rq.now

  -- The rows of the new account.
  abbrev pub account_user : User
  account_user = record {
    id = suc s.pool.users_seq;
    username = body.username;
    username_lc = x.to_lowercase body.username;
    pubkey = body.pubkey;
    email = body.email;
    created_at = now;
  }

  abbrev pub account_presence : Presence
  account_presence = record {
    user_id = suc s.pool.users_seq;
    ip = body.ip;
    port = body.port;
    last_seen = now;
  }

  abbrev pub account_token : Option Text → Token
  account_token expires_at = record {
    id = suc s.pool.tokens_seq;
    user_id = suc s.pool.users_seq;
    token_hash = hash_token x (generate_token x random);
    created_at = now;
    expires_at = expires_at;
  }

  -- The invite that the request names becomes the new user's.
  abbrev pub invites_after : Option Text → List Invite
  invites_after none = s.pool.invites
  invites_after (some code) =
      update_where (has_code code)
        (λ i. record i { used_by = some (suc s.pool.users_seq); used_at = some now }) s.pool.invites

  abbrev pub tables_after : Option Text → Tables
  tables_after expires_at = record s.pool {
    users = s.pool.users ++ account_user ∷ [];
    users_seq = suc s.pool.users_seq;
    presence = s.pool.presence ++ account_presence ∷ [];
    tokens = s.pool.tokens ++ account_token expires_at ∷ [];
    tokens_seq = suc s.pool.tokens_seq;
    invites = invites_after body.invite_code;
  }

  abbrev pub welcome : Response
  welcome = record {
    status = StatusCode.created;
    body =
        Body.registered (generate_token x random) body.username
          (s.config.server.name ++ codes ":" ++ decimal s.config.server.port);
  }

  user_added : Tables
  user_added = record s.pool {
    users = s.pool.users ++ account_user ∷ [];
    users_seq = suc s.pool.users_seq;
  }

  there : has_user (suc s.pool.users_seq) user_added ≡ true
  unfolding user_added
  there = rw (any-append _ s.pool.users (account_user ∷ [])) (ground arith)

  mark_invite-ok :
      (code : Option Text) (t : Tables)
      → t.invites ≡ s.pool.invites
      → has_user (suc s.pool.users_seq) t ≡ true
      → mark_invite x rq code (suc s.pool.users_seq) (calm (record s { pool = t }))
        ≡ (ok tt, calm (record s { pool = record t { invites = invites_after code } }))
  unfolding mark_invite pure query use_invite
  mark_invite-ok none t same user = rw (← same)
  mark_invite-ok (some code) t same user = ground (
    arith,
    update_where-none (has_code code)
        (λ i. record i { used_by = some (suc s.pool.users_seq); used_at = some now })
        s.pool.invites,
  )

  presence_added : Tables
  unfolding user_added
  presence_added = record user_added { presence = s.pool.presence ++ account_presence ∷ [] }

  token_added : Option Text → Tables
  unfolding presence_added
  token_added expires_at = record presence_added {
    tokens = s.pool.tokens ++ account_token expires_at ∷ [];
    tokens_seq = suc s.pool.tokens_seq;
  }

  insert_user-ok :
      any (has_name body.username (x.to_lowercase body.username)) s.pool.users ≡ false
      → insert_user now body.username (x.to_lowercase body.username) body.pubkey body.email s.pool
        ≡ inr (suc s.pool.users_seq, user_added)
  unfolding insert_user user_added
  insert_user-ok free = rw free refl

  insert_presence-ok :
      IsValid x.to_lowercase s.pool
      → insert_presence now (suc s.pool.users_seq) body.ip body.port user_added
        ≡ inr (tt, presence_added)
  unfolding insert_presence presence_added
  insert_presence-ok v =
      let fresh =
        no_presence (suc s.pool.users_seq) s.pool s.pool.presence
          (no_such_user s.pool.users_seq s.pool.users v.user_ids_bounded) v.presence_refers in
      rw (fresh, there) refl

  insert_token-ok :
      (expires_at : Option Text)
      → any (has_hash (hash_token x (generate_token x random))) s.pool.tokens ≡ false
      → insert_token now
          (suc s.pool.users_seq)
          (hash_token x (generate_token x random))
          expires_at
          presence_added
        ≡ inr (tt, token_added expires_at)
  unfolding insert_token token_added
  insert_token-ok expires_at fresh = rw (fresh, there) refl

  pub create_account-ok :
      {expires_at : Option Text}
      → IsValid x.to_lowercase s.pool
      → any (has_name body.username (x.to_lowercase body.username)) s.pool.users ≡ false
      → any (has_hash (hash_token x (generate_token x random))) s.pool.tokens ≡ false
      → expiry x rq.now s.config.tokens.ttl_days ≡ ok expires_at
      → create_account x rq random body (calm s)
        ≡ (ok welcome, calm (record s { pool = tables_after expires_at }))
  unfolding create_account gets lift pure token_added
  create_account-ok {expires_at} v free fresh expires = ◌∙◌ (bind-ok _ _ refl) (
      bind-ok _ _ (query-ok _ s (insert_user-ok free))
      ∙ bind-ok _ _ (query-ok _ (record s { pool = user_added }) (insert_presence-ok v))
      ∙ bind-ok _ _ (rw expires refl)
      ∙ bind-ok _ _
          (query-ok _ (record s { pool = presence_added }) (insert_token-ok expires_at fresh))
      ∙ bind-ok _ _ (mark_invite-ok body.invite_code (token_added expires_at) refl there)
      ∙ refl)
