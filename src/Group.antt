-- ===== src/Group.antt =====
-- src/group.rs: the group chat, its requests.
pub mod Sealing
pub mod Broadcast
pub mod Sockets
pub mod Runs
pub mod Joins
pub mod Kept
pub mod Valid
pub mod Validity
pub mod Recent
pub mod Posts
pub mod History
pub mod Opening
pub mod Keys
pub mod Issue
pub mod Sharing
pub mod Names
pub mod Takeover
pub mod Copies
pub mod Unchanged
pub mod Roles
pub mod Limits
pub mod Reconnect
use naleystogramm_server.Base.{
  ℕ, inl, inr, ◌⊎◌, Bool, true, false, not, List, [], ◌∷◌, map, Option, none, some, Text, codes,
  ltb, leb, ◌==◌, length, reverse, HashMap, get, if◌then◌else◌,
}
use naleystogramm_server.Extern.{Extern, datetime}
use naleystogramm_server.Frames.{Frame, Post}
use naleystogramm_server.Error.{
  DbError, AppError, db, internal, StatusCode, Body, Response, GroupInfo, MemberInfo, refusal,
  bad_request, unauthorized,
}
use naleystogramm_server.Tables.{
  Tables, Member, Message, select, member_by_hash, upsert_member, delete_member, sort_members,
  latest, setting, insert_setting,
}
use naleystogramm_server.State.{AppState}
use naleystogramm_server.Action.{
  Action, Result, ok, err, panicked, ◌>>=◌, ◌>>◌, pure, throw, gets, lift, ok_or, throw_if,
  unwrap_or, query,
}
use naleystogramm_server.Auth.{generate_token, hash_token, extract_bearer}
use naleystogramm_server.Discovery.Requests.{Request}
use naleystogramm_server.Discovery.Register.{is_some}
use naleystogramm_server.Group.Sealing.{Crypto, ecies_encrypt}
use naleystogramm_server.Group.Broadcast.{broadcast}

-- What the group calls and does not implement, with the texts of the errors that it passes on.
pub record GroupExtern : Type 1 where
  pub base : Extern
  pub crypto : Crypto
  -- `to_string` of the database's errors, and of base64's on a text
  pub describe : DbError → Text
  pub describe_b64 : Text → Text

pub record JoinReq : Type 0 where
  pub username : Text
  pub pubkey : Text

-- What a join takes from the random generator: the group key, if there is none yet, the secret and
-- the nonce of the encryption, and the token.
pub record Dice : Type 0 where
  pub key : List ℕ
  pub ephemeral : List ℕ
  pub nonce : List ℕ
  pub token : List ℕ

-- `map_err(|e| AppError::Internal(e.to_string()))`
abbrev pub internal_of : (DbError → Text) → AppError → AppError
internal_of describe (db e) = internal (describe e)
internal_of describe e = e

abbrev pub as_internal : {A : Type 0} → (DbError → Text) → Result A → Result A
as_internal describe (ok a) = ok a
as_internal describe (err e) = err (internal_of describe e)
as_internal describe panicked = panicked

unfoldable pub or_internal : {A : Type 0} → (DbError → Text) → Action A → Action A
or_internal describe m s = let (r, s') = m s in (as_internal describe r, s')

-- A count that fails is 0.
unfoldable pub member_count : Action ℕ
member_count = unwrap_or 0 (query (select (λ t. length t.group.members)))

abbrev pub owner : Text
owner = codes "owner"

-- The messages that `/group/history` and the history frame show, oldest first.
abbrev pub post_of : Message → Post
post_of m = record { sender = m.sender; content = m.content; ts = m.ts }

unfoldable pub recent_posts : ℕ → Tables → List Post
recent_posts limit t = map post_of (reverse (latest limit t.group.messages))

-- Whether `max_members` is set and reached.
unfoldable pub group_full : Action Bool
unfolding member_count
group_full = do
  max_members ← gets (λ s. s.config.group.max_members)
  if ltb 0 max_members then (do cnt ← member_count; pure (leb max_members cnt)) else pure false

abbrev pub member_info : HashMap ℕ → Member → MemberInfo
member_info conns m = record {
  username = m.username;
  role = m.role;
  online = is_some (get m.username conns);
  joined_at = m.joined_at;
}

unfoldable pub group_info : Action Response
unfolding member_count
group_info = do
  total ← member_count
  online ← gets (λ s. length s.group_conns)
  cfg ← gets (λ s. s.config.group)
  pure (record {
    status = StatusCode.ok;
    body = Body.group_info (record {
      name = cfg.name;
      description = cfg.description;
      mode = if cfg.broadcast_only then codes "channel" else codes "group";
      invite_only = cfg.invite_only;
      broadcast_only = cfg.broadcast_only;
      members_total = total;
      members_online = online;
    });
  })

module _ (x : GroupExtern) where
  unfoldable pub resolve_member : Request → Action (Text × Text)
  resolve_member rq = do
    raw ← lift (extract_bearer rq.authorization)
    row ← query (select (member_by_hash (hash_token x.base raw)))
    ok_or row unauthorized

  -- The key of the group, made at the first use and kept, in base64, in the database.
  unfoldable pub get_or_create_group_key : List ℕ → Action (List ℕ)
  get_or_create_group_key fresh = do
    row ← query (select (setting (codes "group_key")))
    elim row as (λ _. Action (List ℕ)) [
      | some b64 ↦ ok_or (x.base.b64_decode b64) (internal (x.describe_b64 b64))
      | none ↦ (do query (insert_setting (codes "group_key") (x.base.b64_encode fresh)); pure fresh)
    ]

  -- `ecies_encrypt`, its failure an internal error.
  unfoldable pub seal : Dice → List ℕ → List ℕ → Action (List ℕ)
  seal dice recipient_pub group_key =
      elim (ecies_encrypt x.crypto dice.ephemeral dice.nonce recipient_pub group_key)
        as (λ _. Action (List ℕ)) [ inl e ↦ throw (internal e) | inr sealed ↦ pure sealed ]

  unfoldable pub check_member_key : Text → Action (List ℕ)
  check_member_key pubkey = do
    key_bytes ← ok_or (x.base.b64_decode pubkey) (bad_request (codes "invalid pubkey"))
    throw_if (not (length key_bytes == 32)) (bad_request (codes "pubkey must be 32 bytes"))
    pure key_bytes

  -- The row and its news: the first member is the owner.
  unfoldable pub admit : Request → Dice → JoinReq → List ℕ → Action Response
  unfolding member_count broadcast
  admit rq dice body sealed = do
    let token = generate_token x.base dice.token
    cnt ← member_count
    let role = if cnt == 0 then owner else codes "member"
    query (
        upsert_member (datetime x.base.calendar rq.now) body.username body.pubkey
          (hash_token x.base token) role)
    broadcast (Frame.join body.username role)
    pure (record {
      status = StatusCode.ok;
      body = Body.joined token (x.base.b64_encode sealed) role;
    })

  unfoldable pub join_current : Request → Dice → JoinReq → Action Response
  unfolding or_internal
  join_current rq dice body = do
    recipient_pub ← check_member_key body.pubkey
    group_key ← or_internal x.describe (get_or_create_group_key dice.key)
    sealed ← seal dice recipient_pub group_key
    admit rq dice body sealed

  unfoldable pub group_join : Request → Dice → JoinReq → Action Response
  unfolding group_full
  group_join rq dice body = do
    full ← group_full
    if full
        then pure (refusal StatusCode.forbidden (codes "group_full"))
        else join_current rq dice body

  unfoldable pub group_leave : Request → Action Response
  unfolding broadcast
  group_leave rq = do
    member ← resolve_member rq
    query (delete_member member.0)
    broadcast (Frame.leave member.0)
    pure (record { status = StatusCode.no_content; body = Body.nothing })

  unfoldable pub group_members : Request → Action Response
  group_members rq = do
    resolve_member rq
    rows ← query (select (λ t. sort_members t.group.members))
    online ← gets (λ s. s.group_conns)
    pure (record { status = StatusCode.ok; body = Body.members (map (member_info online) rows) })

  unfoldable pub group_history : Request → Action Response
  unfolding recent_posts
  group_history rq = do
    resolve_member rq
    limit ← gets (λ s. s.config.group.history_limit)
    rows ← query (select (recent_posts limit))
    pure (record { status = StatusCode.ok; body = Body.messages rows })
