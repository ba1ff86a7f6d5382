-- ===== src/Group/Takeover.antt =====
-- What a join of src/group.rs makes of a name: a new member, or the member that has it.
use naleystogramm_server.Base.{
  ℕ, ◌≡◌, refl, ◌∙◌, ap, inl, inr, true, false, ◌&&◌, List, ◌++◌, some, Text, Bool-cases, codes,
  any, length, ltb, leb, ◌==◌,
}
use naleystogramm_server.Extern.{datetime}
use naleystogramm_server.Error.{Body, StatusCode}
use naleystogramm_server.Tables.{Tables, Setting, has_member_hash, upsert_member, member_by_hash}
use naleystogramm_server.State.{AppState}
use naleystogramm_server.Action.{Action, ok, pure, query, ◌>>=◌}
use naleystogramm_server.Action.Rules.{calm, bind-ok}
use naleystogramm_server.Auth.{generate_token, hash_token}
use naleystogramm_server.Discovery.Requests.{Request}
use naleystogramm_server.Group.{
  GroupExtern, JoinReq, Dice, member_count, group_full, get_or_create_group_key, or_internal, seal,
  check_member_key, admit, join_current, group_join, resolve_member,
}
use naleystogramm_server.Group.Sealing.{ecies_encrypt}
use naleystogramm_server.Group.Broadcast.{broadcast, send_all}
use naleystogramm_server.Frames.{Frame}
use naleystogramm_server.Auth.Bearer.{extract_bearer_iff}
use naleystogramm_server.Group.Names.{joining_role, kept_role, upserted}

group_full-calm :
    (s : AppState)
    → (ltb 0 s.config.group.max_members
        && leb s.config.group.max_members (length s.pool.group.members))
      ≡ false
    → group_full (calm s) ≡ (ok false, calm s)
unfolding group_full member_count query ◌>>=◌
group_full-calm s room = elim (Bool-cases (ltb 0 s.config.group.max_members)) [
  | inl limited ↦ rw (limited, full limited) refl
  | inr unlimited ↦ rw unlimited refl
]
  where
    full :
        ltb 0 s.config.group.max_members ≡ true
        → leb s.config.group.max_members (length s.pool.group.members) ≡ false
    full limited =
        cc (
          ap (λ b. b && leb s.config.group.max_members (length s.pool.group.members)) limited,
          room,
        )

module _ (x : GroupExtern) where
  check_member_key-fits :
      (pubkey : Text) (key_bytes : List ℕ) (s : AppState)
      → x.base.b64_decode pubkey ≡ some key_bytes
      → (length key_bytes == 32) ≡ true
      → check_member_key x pubkey s ≡ (ok key_bytes, s)
  unfolding check_member_key ◌>>=◌
  check_member_key-fits pubkey key_bytes s e fits = rw (e, fits) refl

  or_internal-ok :
      {A : Type 0} (m : Action A) (s s' : AppState) (a : A)
      → m s ≡ (ok a, s')
      → or_internal x.describe m s ≡ (ok a, s')
  unfolding or_internal
  or_internal-ok m s s' a e = rw e refl

  seal-ok :
      (dice : Dice) (recipient_pub key sealed : List ℕ) (s : AppState)
      → ecies_encrypt x.crypto dice.ephemeral dice.nonce recipient_pub key ≡ inr sealed
      → seal x dice recipient_pub key s ≡ (ok sealed, s)
  unfolding seal pure
  seal-ok dice recipient_pub key sealed s e = rw (seal, e) refl

  admit-ok :
      (rq : Request) (dice : Dice) (body : JoinReq) (sealed : List ℕ) (s : AppState) (t' : Tables)
      → upsert_member
          (datetime x.base.calendar rq.now)
          body.username
          body.pubkey
          (hash_token x.base (generate_token x.base dice.token))
          (joining_role s.pool.group.members)
          s.pool
        ≡ inr (tt, t')
      → admit x rq dice body sealed (calm s) ≡ (
        ok (record {
          status = StatusCode.ok;
          body =
              Body.joined
                (generate_token x.base dice.token)
                (x.base.b64_encode sealed)
                (joining_role s.pool.group.members);
        }),
        calm (record s {
          pool = t';
          group_queues =
              send_all
                (Frame.join body.username (joining_role s.pool.group.members))
                s.group_conns
                s.group_queues;
        }),
      )
  unfolding admit member_count query broadcast ◌>>=◌
  admit-ok rq dice body sealed s t' e = rw e refl

  resolve_member-ok :
      (rq : Request) (token : Text) (s : AppState) (found : Text × Text)
      → rq.authorization ≡ some (codes "Bearer " ++ token)
      → member_by_hash (hash_token x.base token) s.pool ≡ some found
      → (resolve_member x rq (calm s)).0 ≡ ok found
  unfolding resolve_member query ◌>>=◌
  resolve_member-ok rq token s found bearer e =
      rw ((extract_bearer_iff rq.authorization token).1 bearer, e) refl

  -- A join answers with a token, and the token is good: it stands for the name with the role that
  -- the name had, if some member had it, and else with the role of the answer. The database fails
  -- nothing, the group has room, the public key that is sent decodes to 32 bytes, the group key is
  -- read or made, the encryption succeeds, and no member has the token's hash.
  pub resolve_member-group_join :
      (rq rq' : Request) (dice : Dice) (body : JoinReq) (s : AppState)
      (key_bytes key sealed : List ℕ) (settings : List Setting)
      → (ltb 0 s.config.group.max_members
          && leb s.config.group.max_members (length s.pool.group.members))
        ≡ false
      → x.base.b64_decode body.pubkey ≡ some key_bytes
      → (length key_bytes == 32) ≡ true
      → get_or_create_group_key x dice.key (calm s) ≡ (
        ok key,
        calm (record s {
          pool = record s.pool { group = record s.pool.group { settings = settings } };
        }),
      )
      → ecies_encrypt x.crypto dice.ephemeral dice.nonce key_bytes key ≡ inr sealed
      → any
          (has_member_hash (hash_token x.base (generate_token x.base dice.token)))
          s.pool.group.members
        ≡ false
      → rq'.authorization ≡ some (codes "Bearer " ++ generate_token x.base dice.token)
      → let r = group_join x rq dice body (calm s) in
        (r.0
          ≡ ok (record {
            status = StatusCode.ok;
            body =
                Body.joined
                  (generate_token x.base dice.token)
                  (x.base.b64_encode sealed)
                  (joining_role s.pool.group.members);
          }))
        × ((resolve_member x rq' r.1).0
            ≡ ok (body.username, kept_role body.username s.pool.group.members))
  unfolding group_join join_current
  resolve_member-group_join rq rq' dice body s key_bytes key sealed settings room pubkey fits keyed
        encrypted fresh bearer =
      let s1 = record s {
        pool = record s.pool { group = record s.pool.group { settings = settings } };
      } in
      let (t', added, there) =
        upserted (datetime x.base.calendar rq.now) body.username body.pubkey
          (hash_token x.base (generate_token x.base dice.token)) s1.pool fresh in
      let role = joining_role s.pool.group.members in
      let s2 = record s1 {
        pool = t';
        group_queues = send_all (Frame.join body.username role) s.group_conns s.group_queues;
      } in
      let joins =
        bind-ok _ _ (group_full-calm s room)
        ∙ bind-ok _ _ (check_member_key-fits body.pubkey key_bytes (calm s) pubkey fits)
        ∙ bind-ok _ _
            (or_internal-ok (get_or_create_group_key x dice.key) (calm s) (calm s1) key keyed)
        ∙ bind-ok _ _ (seal-ok dice key_bytes key sealed (calm s1) encrypted)
        ∙ admit-ok rq dice body sealed s1 t' added in
      (
        ap (λ r. r.0) joins,
        ap (λ r. (resolve_member x rq' r.1).0) joins
            ∙ resolve_member-ok rq' (generate_token x.base dice.token) s2 _ bearer there,
      )
