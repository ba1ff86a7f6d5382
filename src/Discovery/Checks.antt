-- ===== src/Discovery/Checks.antt =====
-- The checks of the handlers of src/discovery.rs only read the database.
use naleystogramm_server.Base.{Bool, Text, inl, inr, refl, ◌⊎◌, not, codes}
use naleystogramm_server.Action.{throw, throw_if}
use naleystogramm_server.Error.{internal, bad_request}
use naleystogramm_server.Extern.{Extern}
use naleystogramm_server.Action.Reads.{Reads, reads_rules, Reads-throw, Reads-throw_if}
use naleystogramm_server.Discovery.Requests.{Request, resolve_token}
use naleystogramm_server.Discovery.Register.{
  RegisterReq, limit_register, check_invite, check_regex, check_username, check_pubkey, check_ip,
  check_email, server_full, check_body,
}

pub limit_register-Reads : (rq : Request) → Reads (limit_register rq)
unfolding limit_register
limit_register-Reads rq = record { at = λ s. (refl, refl) }

check_invite-Reads : (body : RegisterReq) → Reads (check_invite body)
unfolding check_invite
check_invite-Reads body = search reads_rules depth 12

module _ (x : Extern) where
  pub resolve_token-Reads : (rq : Request) → Reads (resolve_token x rq)
  unfolding resolve_token
  resolve_token-Reads rq = search reads_rules depth 12

  check_pubkey-Reads : (body : RegisterReq) → Reads (check_pubkey x body)
  unfolding check_pubkey
  check_pubkey-Reads body = search reads_rules depth 12

  check_email-Reads : (body : RegisterReq) → Reads (check_email x body)
  unfolding check_email
  check_email-Reads body = search reads_rules depth 12

  check_regex-Reads : (pattern username : Text) → Reads (check_regex x pattern username)
  unfolding check_regex
  check_regex-Reads pattern username = go (x.regex pattern)
    where
      go :
          (r : Text ⊎ (Text → Bool))
          → Reads {A = Unit {0}} (elim r [
            | inl e ↦ throw (internal e)
            | inr is_match ↦
                throw_if (not (is_match username)) (bad_request (codes "invalid_username"))
          ])
      go (inl e) = Reads-throw (internal e)
      go (inr is_match) = Reads-throw_if _ _

  check_username-Reads : (body : RegisterReq) → Reads (check_username x body)
  unfolding check_username
  check_username-Reads body = search (reads_rules, check_regex-Reads) depth 12

  pub check_body-Reads : (body : RegisterReq) → Reads (check_body x body)
  unfolding check_body check_ip
  check_body-Reads body =
      search
        (
          reads_rules, check_invite-Reads, check_username-Reads, check_pubkey-Reads,
          check_email-Reads,
        )
        depth 12

  pub server_full-Reads : Reads (server_full x)
  unfolding server_full
  server_full-Reads = search reads_rules depth 12
