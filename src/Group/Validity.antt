-- ===== src/Group/Validity.antt =====
-- Runs of src/group.rs keep the tables of the group well-formed.
use naleystogramm_server.Config.{Config}
use naleystogramm_server.Base.{ℕ, Bool, List, Text, arith}
use naleystogramm_server.Tables.{Tables, migrate, Statement}
use naleystogramm_server.Tables.Valid.{migrate-group}
use naleystogramm_server.Tables.Kept.{Leaves}
use naleystogramm_server.State.{new}
use naleystogramm_server.Action.{query}
use naleystogramm_server.Action.Preserves.{Preserves, Preserves-query, preserves_rules}
use naleystogramm_server.Discovery.Requests.{Request}
use naleystogramm_server.Group.{GroupExtern, JoinReq, Dice, group_join}
use naleystogramm_server.Group.Sockets.{Socket, post}
use naleystogramm_server.Group.Runs.{Event, start, run}
use naleystogramm_server.Group.Kept.{run-OnTables}
use naleystogramm_server.Group.Joins.{group_join-Preserves, broadcast-Preserves}
use naleystogramm_server.Group.Valid.{
  IsGroupValid, upsert_member-IsGroupValid, delete_member-IsGroupValid, insert_message-IsGroupValid,
  trim_messages-IsGroupValid, insert_setting-IsGroupValid,
}

abbrev Valid : List Bool → Config → Tables → Type 0
Valid fs c t = IsGroupValid t.group

keeps :
    {A : Type 0} (q : Statement A)
    → ((t : Tables) → IsGroupValid t.group → Leaves (λ t'. IsGroupValid t'.group) (q t))
    → Preserves Valid (query q)
keeps q h = Preserves-query q (λ fs c t v. (v, h t v))

abbrev reading :
    (fs : List Bool) (c : Config) (t : Tables) → IsGroupValid t.group → IsGroupValid t.group
reading fs c t v = v

module _ (x : GroupExtern) where
  join-Valid :
      (rq : Request) (dice : Dice) (body : JoinReq) → Preserves Valid (group_join x rq dice body)
  join-Valid =
      group_join-Preserves Valid x reading
        (λ now username pubkey hash role.
          keeps _ (upsert_member-IsGroupValid now username pubkey hash role))
        (λ key value. keeps _ (insert_setting-IsGroupValid key value))

  post-Valid : (ts : ℕ) (k : Socket) (content : Text) → Preserves Valid (post ts k content)
  unfolding post
  post-Valid ts k content =
      search
        (
          preserves_rules, keeps, insert_message-IsGroupValid, trim_messages-IsGroupValid,
          broadcast-Preserves,
        )
        depth 12

  -- From a new database, whatever the requests and the frames of the sockets, one turn after the
  -- other, and whichever statements the database fails: no two members share a name, a token hash
  -- or an id, no id is above its table's counter, each message has a larger id than those before
  -- it, and no key is set twice.
  pub run-IsGroupValid :
      (es : List Event) (faults : List Bool) (config : Config) (mode : Text)
      → IsGroupValid (run x es (start (new migrate faults config mode))).state.pool.group
  unfolding new
  run-IsGroupValid es faults config mode =
      run-OnTables Valid x
        (record {
          later = reading;
          join = join-Valid;
          delete = λ username. keeps _ (delete_member-IsGroupValid username);
        })
        post-Valid es _ (rw migrate-group (omega arith))
