-- ===== src/Group/Unchanged.antt =====
-- No event of src/group.rs changes the configuration.
use naleystogramm_server.Config.{Config}
use naleystogramm_server.Base.{ℕ, ◌≡◌, inl, inr, ◌⊎◌, Bool, List, Text}
use naleystogramm_server.Error.{DbError}
use naleystogramm_server.Tables.{Tables, Statement, upsert_member, delete_member, insert_setting}
use naleystogramm_server.Tables.Kept.{Leaves}
use naleystogramm_server.Action.{query}
use naleystogramm_server.Action.Preserves.{Preserves, Preserves-query, preserves_rules}
use naleystogramm_server.Group.{GroupExtern}
use naleystogramm_server.Group.Joins.{group_join-Preserves, broadcast-Preserves}
use naleystogramm_server.Group.Kept.{run-OnTables}
use naleystogramm_server.Group.Sockets.{Socket, post}
use naleystogramm_server.Group.Runs.{Event, World, run}

module _ (C : Config) where
  abbrev Same : List Bool → Config → Tables → Type 0
  Same fs c t = c ≡ C

  query-Same : {A : Type 0} (q : Statement A) → Preserves Same (query q)
  query-Same {A} q = Preserves-query q (λ fs c t h. (h, go c (q t) h))
    where
      go : (c : Config) (r : DbError ⊎ (A × Tables)) → c ≡ C → Leaves (λ t. c ≡ C) r
      go c (inl e) h = tt
      go c (inr (a, t)) h = h

  post-Same : (ts : ℕ) (k : Socket) (content : Text) → Preserves Same (post ts k content)
  unfolding post
  post-Same ts k content = search (preserves_rules, query-Same, broadcast-Preserves) depth 12

  pub run-config :
      (x : GroupExtern) (es : List Event) (w : World)
      → w.state.config ≡ C
      → (run x es w).state.config ≡ C
  run-config x es w h =
      run-OnTables Same x
        (record {
          later = λ fs c t e. e;
          join =
              group_join-Preserves Same x (λ fs c t e. e)
                (λ now username pubkey hash role.
                  query-Same (upsert_member now username pubkey hash role))
                (λ key value. query-Same (insert_setting key value));
          delete = λ username. query-Same (delete_member username);
        })
        post-Same es w h
