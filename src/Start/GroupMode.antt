-- ===== src/Start/GroupMode.antt =====
-- The relay of src/relay.rs beside the group of src/group.rs, which `build_router` of src/main.rs
-- puts together.
use naleystogramm_server.Config.{Config}
use naleystogramm_server.Base.{
  ℕ, ◌≡◌, ◌≢◌, refl, sym, ◌∙◌, ap, inl, inr, ◌⊎◌, Bool, List, [], Option, none, Text, Sum-cases,
}
use naleystogramm_server.Extern.{Extern}
use naleystogramm_server.Error.{Response, DbError}
use naleystogramm_server.Tables.{
  Tables, Token, GroupTables, on_group, select, upsert_member, delete_member, insert_message,
  trim_messages, insert_setting,
}
use naleystogramm_server.Tables.Kept.{Leaves}
use naleystogramm_server.Tables.Valid.{migrate-tokens}
use naleystogramm_server.State.{AppState, new}
use naleystogramm_server.Action.{Result, ok, err, panicked, query, lift, gets}
use naleystogramm_server.Action.Rules.{
  Post, Post-bind, Post-query, Post-ok_or, Post-throw_if, Post-weaken,
}
use naleystogramm_server.Action.Preserves.{Preserves, Preserves-query, preserves_rules}
use naleystogramm_server.Auth.{extract_bearer}
use naleystogramm_server.Discovery.Requests.{Request, resolve_token, find_token}
use naleystogramm_server.Group.{GroupExtern}
use naleystogramm_server.Group.Joins.{group_join-Preserves, broadcast-Preserves}
use naleystogramm_server.Group.Kept.{IsKept, run-OnTables}
use naleystogramm_server.Group.Sockets.{Socket, post}
use naleystogramm_server.Group.Runs
use naleystogramm_server.Relay.{relay_create}
use naleystogramm_server.Start.{start}
use mathlib.Core.Sum.{inr-injective}

-- Nobody has a token of the discovery mode.
abbrev Untokened : List Bool → Config → Tables → Type 0
Untokened fs c t = t.tokens ≡ []

on_group-tokens :
    {A : Type 0} (f : GroupTables → DbError ⊎ (A × GroupTables)) (t : Tables)
    → t.tokens ≡ []
    → Leaves (λ t'. t'.tokens ≡ []) (on_group f t)
on_group-tokens f t h = elim (Sum-cases (f t.group)) [
  | inl (e, failed) ↦ rw (failed, Leaves) tt
  | inr ((a, g), done) ↦ rw (done, Leaves) h
]

on_group-Untokened :
    {A : Type 0} (f : GroupTables → DbError ⊎ (A × GroupTables))
    → Preserves Untokened (query (on_group f))
on_group-Untokened f = Preserves-query (on_group f) (λ fs c t h. (h, on_group-tokens f t h))

module _ (x : GroupExtern) where
  post-Untokened : (ts : ℕ) (k : Socket) (content : Text) → Preserves Untokened (post ts k content)
  unfolding post insert_message trim_messages
  post-Untokened ts k content =
      search (preserves_rules, on_group-Untokened, broadcast-Preserves) depth 12

  kept : IsKept Untokened x
  unfolding upsert_member delete_member insert_setting
  kept = record {
    later = λ fs c t h. h;
    join =
        group_join-Preserves Untokened x (λ fs c t h. h)
          (λ now username pubkey hash role. on_group-Untokened _)
          (λ key value. on_group-Untokened _);
    delete = λ username. Preserves-query (delete_member username) (λ fs c t h. (h, h));
  }

-- Nothing is answered, and the sessions of the relay are as before.
abbrev NoSession : {A : Type 0} → AppState → Result A × AppState → Type 0
NoSession s r = Post (λ a s'. ⊥) (λ e s'. s'.relay_init ≡ s.relay_init) r

find_none :
    (x : Extern) (now : ℕ) (hash : Text) (t : Tables)
    → t.tokens ≡ []
    → find_token x now hash t ≡ none
unfolding find_token
find_none x now hash t h = rw h refl

module _ (x : Extern) where
  resolve_token-NoSession :
      (rq : Request) (s : AppState) → s.pool.tokens ≡ [] → NoSession s (resolve_token x rq s)
  unfolding resolve_token lift
  resolve_token-NoSession rq s h =
      Post-bind Still (λ e s'. Same s') (λ a s'. ⊥) _ _ s (bearer (extract_bearer rq.authorization))
        λ raw s1 h1.
          Post-bind (λ row s'. (row ≡ none) × Same s') (λ e s'. Same s') (λ a s'. ⊥) _ _ s1
            (Post-query (λ row s'. (row ≡ none) × Same s') (λ e s'. Same s')
              (select (find_token x rq.now _)) s1 (λ e fs. h1.1)
              (λ fs row t e. (
                ap (λ (r : Option Token × Tables). r.0) (sym (inr-injective _ _ e))
                    ∙ find_none x rq.now _ s1.pool h1.0,
                h1.1,
              )))
            λ row s2 h2.
              Post-bind (λ a s'. ⊥) (λ e s'. Same s') (λ a s'. ⊥) _ _ s2
                (Post-ok_or (λ a s'. ⊥) (λ e s'. Same s') row _ s2 h2.1 (λ a e. cc (e, h2.0)))
                λ a s3 bad. absurd bad
    where
      Same : AppState → Type 0
      Same s' = s'.relay_init ≡ s.relay_init

      Still : {A : Type 0} → A → AppState → Type 0
      Still a s' = (s'.pool.tokens ≡ []) × Same s'

      bearer : (r : Result Text) → Post Still (λ e s'. Same s') (lift r s)
      bearer (ok raw) = (h, refl)
      bearer (err e) = refl
      bearer panicked = refl

  relay_create-NoSession :
      (rq : Request) (id : Text) (random_a random_b : List ℕ) (s : AppState)
      → s.pool.tokens ≡ []
      → NoSession s (relay_create x rq id random_a random_b s)
  unfolding relay_create gets
  relay_create-NoSession rq id random_a random_b s h =
      Post-bind Still (λ e s'. Same s') (λ a s'. ⊥) _ _ s (h, refl)
        λ cfg s1 h1.
          Post-bind Still (λ e s'. Same s') (λ a s'. ⊥) _ _ s1
            (Post-throw_if Still (λ e s'. Same s') _ _ s1 h1.1 (λ e. h1))
            λ u s2 h2.
              Post-bind (λ a s'. ⊥) (λ e s'. Same s') (λ a s'. ⊥) _ _ s2
                (Post-weaken (λ a s'. ⊥) (λ e s'. s'.relay_init ≡ s2.relay_init) (λ a s'. ⊥)
                  (λ e s'. Same s') (resolve_token x rq s2) (resolve_token-NoSession rq s2 h2.0)
                  (λ a s' bad. bad) (λ e s' same. same ∙ h2.1))
                λ a s3 bad. absurd bad
    where
      Same : AppState → Type 0
      Same s' = s'.relay_init ≡ s.relay_init

      Still : {A : Type 0} → A → AppState → Type 0
      Still a s' = (s'.pool.tokens ≡ []) × Same s'

never :
    {A : Type 0} (s : AppState) (r : Result A × AppState)
    → NoSession s r
    → ((a : A) → r.0 ≢ ok a) × (r.1.relay_init ≡ s.relay_init)
never s (ok a, s') bad = absurd bad
never s (err e, s') same = (λ a e. cc e, same)
never s (panicked, s') same = (λ a e. cc e, same)

-- A server that starts on a new database has no use for its relay as long as it serves the group:
-- after any requests and any turns of the group's sockets, and whichever statements fail, a request
-- to create a relay session ends in an error, whatever token it has, and makes no session.
pub relay_create-start :
    (x : GroupExtern) (es : List Runs.Event) (faults : List Bool) (config : Config) (mode : Text)
    (rq : Request) (id : Text) (random_a random_b : List ℕ)
    → let s = (Runs.run x es (Runs.start (start faults config mode).state)).state in
      let r = relay_create x.base rq id random_a random_b s in
      ((answer : Response) → r.0 ≢ ok answer) × (r.1.relay_init ≡ s.relay_init)
unfolding start new
relay_create-start x es faults config mode rq id random_a random_b =
    let s = (Runs.run x es (Runs.start (start faults config mode).state)).state in
    never s _ (
      relay_create-NoSession x.base rq id random_a random_b s (
        run-OnTables Untokened x (kept x) (post-Untokened x) es
          (Runs.start (start faults config mode).state) (rw migrate-tokens refl)))
