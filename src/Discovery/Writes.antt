-- ===== src/Discovery/Writes.antt =====
-- Every handler of src/discovery.rs that writes keeps the database well-formed, however it ends: also
-- where the database fails one of its statements, which leaves the earlier ones in force.
use naleystogramm_server.Base.{ℕ, List, Option, none, some, Text, codes}
use naleystogramm_server.Extern.{Extern}
use naleystogramm_server.Error.{StatusCode, Body, Response}
use naleystogramm_server.Tables.{Tables, insert_user, insert_presence, insert_token}
use naleystogramm_server.Tables.Valid.{IsValid}
use naleystogramm_server.Tables.Kept
use naleystogramm_server.Action.{pure, query}
use naleystogramm_server.Action.Reads.{
  Keeps, Keeps-bind, Keeps-query, Keeps-if, Keeps-Reads, reads_rules, Reads-pure,
}
use naleystogramm_server.Discovery.Requests.{Request}
use naleystogramm_server.Discovery.Register.{
  RegisterReq, register, register_current, create_account, mark_invite,
}
use naleystogramm_server.Discovery.Account.{UpdateReq, update, heartbeat, unregister}
use naleystogramm_server.Discovery.Tokens.{token_refresh, make_room}
use naleystogramm_server.Discovery.Invites.{invite_create}
use naleystogramm_server.Config.{Config}
use naleystogramm_server.Discovery.Checks.{
  limit_register-Reads, resolve_token-Reads, server_full-Reads, check_body-Reads,
}

module _ (x : Extern) where
  abbrev pub Valid : Config → Tables → Type 0
  Valid config t = IsValid x.to_lowercase t

  insert_user-Keeps :
      (now username pubkey : Text) (email : Option Text)
      → Keeps Valid (query (insert_user now username (x.to_lowercase username) pubkey email))
  insert_user-Keeps now username pubkey email =
      Keeps-query _ (λ _. Kept.insert_user-IsValid x.to_lowercase now username pubkey email)

  insert_presence-Keeps :
      (now : Text) (user_id : ℕ) (ip : Text) (port : ℕ)
      → Keeps Valid (query (insert_presence now user_id ip port))
  insert_presence-Keeps now user_id ip port =
      Keeps-query _ (λ _. Kept.insert_presence-IsValid x.to_lowercase now user_id ip port)

  insert_token-Keeps :
      (now : Text) (user_id : ℕ) (hash : Text) (expires_at : Option Text)
      → Keeps Valid (query (insert_token now user_id hash expires_at))
  insert_token-Keeps now user_id hash expires_at =
      Keeps-query _ (λ _. Kept.insert_token-IsValid x.to_lowercase now user_id hash expires_at)

  mark_invite-Keeps :
      (rq : Request) (code : Option Text) (user_id : ℕ)
      → Keeps Valid (mark_invite x rq code user_id)
  unfolding mark_invite
  mark_invite-Keeps rq none user_id = Keeps-Reads _ (Reads-pure tt)
  mark_invite-Keeps rq (some code) user_id =
      Keeps-query _ (λ _. Kept.use_invite-IsValid x.to_lowercase _ user_id code)

  create_account-Keeps :
      (rq : Request) (random : List ℕ) (body : RegisterReq)
      → Keeps Valid (create_account x rq random body)
  unfolding create_account
  create_account-Keeps rq random body =
      search
        (
          Keeps-bind, insert_user-Keeps, insert_presence-Keeps, insert_token-Keeps,
          mark_invite-Keeps, Keeps-Reads, reads_rules,
        )
        depth 14

  register_current-Keeps :
      (rq : Request) (random : List ℕ) (body : RegisterReq)
      → Keeps Valid (register_current x rq random body)
  unfolding register_current
  register_current-Keeps rq random body =
      Keeps-bind _ _ (Keeps-Reads _ (check_body-Reads x body)) λ _.
        Keeps-bind _ _ (Keeps-Reads _ (server_full-Reads x)) λ full.
          Keeps-if full _ _ (Keeps-Reads _ (Reads-pure _)) (create_account-Keeps rq random body)

  pub register-Keeps :
      (rq : Request) (random : List ℕ) (body : RegisterReq)
      → Keeps Valid (register x rq random body)
  unfolding register
  register-Keeps rq random body =
      Keeps-bind _ _ (Keeps-Reads _ (limit_register-Reads rq)) λ allowed.
        Keeps-bind _ _ (Keeps-Reads _ (search reads_rules))
          λ _. Keeps-bind _ _ (Keeps-Reads _ (search reads_rules)) λ outdated. go outdated
    where
      go :
          (o : Option Text)
          → Keeps {A = Response} Valid (elim o [
            | some min ↦ pure (record {
              status = StatusCode.upgrade_required;
              body = Body.too_old (codes "client_too_old") min;
            })
            | none ↦ register_current x rq random body
          ])
      go none = register_current-Keeps rq random body
      go (some min) = Keeps-Reads _ (Reads-pure _)

  pub update-Keeps : (rq : Request) (body : UpdateReq) → Keeps Valid (update x rq body)
  unfolding update
  update-Keeps rq body = Keeps-bind _ _ (Keeps-Reads _ (resolve_token-Reads x rq)) λ user_id.
      Keeps-bind _ _ (Keeps-Reads _ (search reads_rules)) λ _.
        Keeps-bind _ _
          (Keeps-query _
            (λ _. Kept.upsert_presence-IsValid x.to_lowercase _ user_id body.ip body.port))
          λ _. Keeps-Reads _ (Reads-pure _)

  pub heartbeat-Keeps : (rq : Request) → Keeps Valid (heartbeat x rq)
  unfolding heartbeat
  heartbeat-Keeps rq = Keeps-bind _ _ (Keeps-Reads _ (resolve_token-Reads x rq)) λ user_id.
      Keeps-bind _ _ (Keeps-query _ (λ _. Kept.touch_presence-IsValid x.to_lowercase _ user_id))
        λ _. Keeps-Reads _ (Reads-pure _)

  pub unregister-Keeps : (rq : Request) → Keeps Valid (unregister x rq)
  unfolding unregister
  unregister-Keeps rq = Keeps-bind _ _ (Keeps-Reads _ (resolve_token-Reads x rq)) λ user_id.
      Keeps-bind _ _ (Keeps-query _ (λ _. Kept.delete_user-IsValid x.to_lowercase user_id))
        λ _. Keeps-Reads _ (Reads-pure _)

  make_room-Keeps : (n user_id : ℕ) → Keeps Valid (make_room n user_id)
  unfolding make_room
  make_room-Keeps n user_id = Keeps-bind _ _ (Keeps-Reads _ (search reads_rules)) λ cnt.
      Keeps-if _ _ _ (Keeps-query _ (λ _. Kept.delete_oldest_token-IsValid x.to_lowercase user_id))
        (Keeps-Reads _ (Reads-pure tt))

  pub token_refresh-Keeps :
      (rq : Request) (random : List ℕ) → Keeps Valid (token_refresh x rq random)
  unfolding token_refresh
  token_refresh-Keeps rq random =
      Keeps-bind _ _ (Keeps-Reads _ (resolve_token-Reads x rq)) λ user_id.
        search (Keeps-bind, make_room-Keeps, insert_token-Keeps, Keeps-Reads, reads_rules) depth 10

  pub invite_create-Keeps : (rq : Request) (random : ℕ) → Keeps Valid (invite_create x rq random)
  unfolding invite_create
  invite_create-Keeps rq random =
      Keeps-bind _ _ (Keeps-Reads _ (resolve_token-Reads x rq)) λ user_id.
        Keeps-bind _ _ (Keeps-query _ (λ _. Kept.insert_invite-IsValid x.to_lowercase _ _ user_id))
          λ _. Keeps-Reads _ (Reads-pure _)
