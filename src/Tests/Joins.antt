-- ===== src/Tests/Joins.antt =====
-- Two joins of src/group.rs in the sample world.
use naleystogramm_server.Base.{ℕ, ◌≡◌, refl, List, [], ◌++◌, some, Text, codes, text_eq}
use naleystogramm_server.Error.{Body, StatusCode}
use naleystogramm_server.Tables.{insert_setting, setting, upsert_member}
use naleystogramm_server.State.{AppState}
use naleystogramm_server.Action.{ok, query, ◌>>=◌}
use naleystogramm_server.Action.Rules.{calm}
use naleystogramm_server.Auth.{generate_token, hash_token}
use naleystogramm_server.Group.{
  group_join, resolve_member, owner, join_current, get_or_create_group_key, seal, admit,
  check_member_key, JoinReq,
}
use naleystogramm_server.Group.Sealing.{ecies_encrypt}
use naleystogramm_server.Group.Keys.{opened_key}
use naleystogramm_server.Group.Sharing.{joins-share_key}
use naleystogramm_server.Group.Runs.{start, run}
use naleystogramm_server.Group.Takeover.{resolve_member-group_join}
use naleystogramm_server.Tests.Samples.{state, request}
use naleystogramm_server.Tests.GroupSamples.{
  group_world, sums, ann_key, bob_key, ann_dice, bob_dice, ann_joins, bob_joins,
}

abbrev sealed_for : List ℕ → List ℕ → List ℕ → Text
sealed_for ephemeral nonce secret = ephemeral ++ (nonce ++ (sums ephemeral secret ++ ann_dice.key))

abbrev after_ann : AppState
after_ann = (group_join group_world (request []) ann_dice ann_joins state).1

joins-share_key_example :
    (key : List ℕ) × (opened_key group_world ann_key
        (sealed_for ann_dice.ephemeral ann_dice.nonce ann_key)
      ≡ some key)
    × (opened_key group_world bob_key (sealed_for bob_dice.ephemeral bob_dice.nonce bob_key)
        ≡ some key)
unfolding group_join join_current get_or_create_group_key seal admit ecies_encrypt insert_setting
    setting upsert_member text_eq query ◌>>=◌ run check_member_key generate_token hash_token
joins-share_key_example =
    joins-share_key group_world (λ bs. refl) ann_key bob_key ann_dice bob_dice (request [])
      (request []) ann_joins bob_joins [] (start state) after_ann
      (group_join group_world (request []) bob_dice bob_joins after_ann).1 (codes "naleys_01")
      (codes "naleys_02") (sealed_for ann_dice.ephemeral ann_dice.nonce ann_key)
      (sealed_for bob_dice.ephemeral bob_dice.nonce bob_key) owner (codes "member") refl refl refl
      refl refl refl refl refl

-- Somebody else joins as ann.
abbrev false_ann : JoinReq
false_ann = record { username = codes "ann"; pubkey = bob_key }

-- The token of the false ann is the owner's.
resolve_member-group_join_example :
    let r = group_join group_world (request []) bob_dice false_ann (calm after_ann) in
    (r.0
      ≡ ok (record {
        status = StatusCode.ok;
        body =
            Body.joined
              (codes "naleys_02")
              (sealed_for bob_dice.ephemeral bob_dice.nonce bob_key)
              (codes "member");
      }))
    × ((resolve_member group_world (request (codes "naleys_02")) r.1).0 ≡ ok (codes "ann", owner))
unfolding group_join join_current get_or_create_group_key seal admit ecies_encrypt insert_setting
    setting upsert_member text_eq query ◌>>=◌ check_member_key generate_token hash_token
resolve_member-group_join_example =
    resolve_member-group_join group_world (request []) (request (codes "naleys_02")) bob_dice
      false_ann after_ann bob_key ann_dice.key
      (sealed_for bob_dice.ephemeral bob_dice.nonce bob_key) after_ann.pool.group.settings refl refl
      refl refl refl refl refl
