-- ===== src/Group/Sharing.antt =====
-- Every join of src/group.rs seals the same group key.
use naleystogramm_server.Base.{
  ℕ, ◌≡◌, ◌∙◌, ap, subst, Bool, true, false, List, some, Text, codes, length, if◌then◌else◌,
}
use naleystogramm_server.Error.{refusal, StatusCode, Body}
use naleystogramm_server.Tables.{Tables}
use naleystogramm_server.State.{AppState}
use naleystogramm_server.Action.{ok, pure}
use naleystogramm_server.Action.Rules.{Post, Post-bind, Post-weaken}
use naleystogramm_server.Discovery.Requests.{Request}
use naleystogramm_server.Group.{GroupExtern, JoinReq, Dice, group_full, join_current, group_join}
use naleystogramm_server.Group.Joins.{group_full-Preserves}
use naleystogramm_server.Group.Runs.{Event, World, run}
use naleystogramm_server.Group.Keys.{HasKey, opened_key, Opens, Anything, join-Kept, run-Kept}
use naleystogramm_server.Group.Issue.{join_current-Post}

module _ (x : GroupExtern) where
  module _ (b64 : (bs : List ℕ) → x.base.b64_decode (x.base.b64_encode bs) ≡ some bs) where
    module _ (secret : List ℕ) (dice : Dice) (h32 : length dice.ephemeral ≡ 32)
        (h12 : length dice.nonce ≡ 12) where
      -- What holds of a member's response.
      abbrev IsSealed : Body → AppState → Type 0
      IsSealed (Body.joined token group_key_enc role) s =
          (key : List ℕ) × (opened_key x secret group_key_enc ≡ some key) × HasKey x key s.pool
      IsSealed body s = Unit

      from_key :
          (body : Body) (s : AppState)
          → (key : List ℕ) × Opens x secret key body × HasKey x key s.pool
          → IsSealed body s
      from_key (Body.joined token group_key_enc role) s h = h
      from_key body s h = tt

      group_join-Post :
          (rq : Request) (body : JoinReq) (s : AppState)
          → x.base.b64_decode body.pubkey ≡ some (x.crypto.public_of secret)
          → Post (λ r s'. IsSealed r.body s') Anything (group_join x rq dice body s)
      unfolding group_join pure
      group_join-Post rq body s pubkey =
          Post-bind (λ full s'. Unit) Anything (λ r s'. IsSealed r.body s') _ _ s
            (Post-weaken (λ full s'. Unit) Anything (λ full s'. Unit) Anything (group_full s)
              ((group_full-Preserves (λ fs c t. Unit) (λ fs c t h. tt)).at s tt) (λ full s' h. tt)
              (λ e s' h. tt))
            λ full s' h. go full s'
        where
          go :
              (full : Bool) (s' : AppState)
              → Post
                  (λ r s'. IsSealed r.body s')
                  Anything
                  ((if full
                      then pure (refusal StatusCode.forbidden (codes "group_full"))
                      else join_current x rq dice body)
                    s')
          go true s' = tt
          go false s' =
              Post-weaken _ Anything (λ r s'. IsSealed r.body s') Anything
                (join_current x rq dice body s')
                (join_current-Post x b64 secret dice h32 h12 rq body s' pubkey)
                (λ r s'' k. from_key r.body s'' k) (λ e s'' k. tt)

  same_key : (key1 key2 : List ℕ) (t : Tables) → HasKey x key1 t → HasKey x key2 t → key1 ≡ key2
  same_key key1 key2 t (b1, e1, d1) (b2, e2, d2) = cc (e1, d1, e2, d2)

  -- A member that joins and any member that joins later, with whatever requests, frames and failing
  -- statements between, open the same key from the `group_key_enc` of their responses. The first
  -- has sent the public key of `secret1` and the other that of `secret2`, the server's ephemeral
  -- secrets and nonces have 32 and 12 bytes, and a text that base64 has encoded decodes to what it
  -- was.
  pub joins-share_key :
      (b64 : (bs : List ℕ) → x.base.b64_decode (x.base.b64_encode bs) ≡ some bs)
      (secret1 secret2 : List ℕ) (dice1 dice2 : Dice) (rq1 rq2 : Request) (body1 body2 : JoinReq)
      (es : List Event) (w : World) (s1 s2 : AppState) (token1 token2 enc1 enc2 role1 role2 : Text)
      → length dice1.ephemeral ≡ 32
      → length dice1.nonce ≡ 12
      → length dice2.ephemeral ≡ 32
      → length dice2.nonce ≡ 12
      → x.base.b64_decode body1.pubkey ≡ some (x.crypto.public_of secret1)
      → x.base.b64_decode body2.pubkey ≡ some (x.crypto.public_of secret2)
      → group_join x rq1 dice1 body1 w.state
        ≡ (ok (record { status = StatusCode.ok; body = Body.joined token1 enc1 role1 }), s1)
      → group_join x rq2 dice2 body2 (run x es (record w { state = s1 })).state
        ≡ (ok (record { status = StatusCode.ok; body = Body.joined token2 enc2 role2 }), s2)
      → (key : List ℕ) × (opened_key x secret1 enc1 ≡ some key)
        × (opened_key x secret2 enc2 ≡ some key)
  joins-share_key b64 secret1 secret2 dice1 dice2 rq1 rq2 body1 body2 es w s1 s2 token1 token2 enc1
        enc2 role1 role2 e32 n12 f32 o12 pubkey1 pubkey2 first second =
      let w2 = run x es (record w { state = s1 }) in
      let (key1, opens1, has1) =
        subst (Post (λ r s'. IsSealed b64 secret1 dice1 e32 n12 r.body s') Anything) first
          (group_join-Post b64 secret1 dice1 e32 n12 rq1 body1 w.state pubkey1) in
      let (key2, opens2, has2) =
        subst (Post (λ r s'. IsSealed b64 secret2 dice2 f32 o12 r.body s') Anything) second
          (group_join-Post b64 secret2 dice2 f32 o12 rq2 body2 w2.state pubkey2) in
      let later : HasKey x key1 s2.pool =
        subst (Post (λ r s'. HasKey x key1 s'.pool) (λ e s'. HasKey x key1 s'.pool)) second (
          (join-Kept x key1 rq2 dice2 body2).at w2.state
            (run-Kept x key1 es (record w { state = s1 }) has1)) in
      (key1, opens1, opens2 ∙ ap some (same_key key2 key1 s2.pool has2 later))
