-- ===== src/Tests/Parts.antt =====
-- Headers, invite codes, searches and versions in the sample world (src/auth.rs, src/version.rs,
-- src/discovery.rs).
use naleystogramm_server.Base.{
  ℕ, trim_start_matches, ◌≡◌, ◌↔◌, refl, ◌++◌, [], ◌∷◌, some, none, codes, arith, contains_char,
}
use naleystogramm_server.Error.{StatusCode, Body}
use naleystogramm_server.Action.{ok}
use naleystogramm_server.Action.Rules.{calm}
use naleystogramm_server.Auth.{extract_bearer}
use naleystogramm_server.Auth.Bearer.{extract_bearer_iff}
use naleystogramm_server.Version.{refresh_loop}
use naleystogramm_server.Version.Refresh.{refresh_loop_lem}
use naleystogramm_server.Discovery.Directory
use naleystogramm_server.Discovery.Directory.{like}
use naleystogramm_server.Discovery.Search.{
  begins_with, underscores, search_prefix, search-underscores,
}
use naleystogramm_server.Discovery.Invites.Codes.{invite_code-injective}
use naleystogramm_server.Tests.Samples.{world, state}

extract_bearer_iff_example :
    (extract_bearer (some (codes "Bearer abc")) ≡ ok (codes "abc"))
    ↔ (some (codes "Bearer abc") ≡ some (codes "Bearer " ++ codes "abc"))
extract_bearer_iff_example = extract_bearer_iff (some (codes "Bearer abc")) (codes "abc")

refresh_loop_lem_example :
    refresh_loop (none ∷ some (codes "v1.2.0") ∷ none ∷ []) state
    ≡ record state { min_version = codes "1.2.0" }
unfolding trim_start_matches
refresh_loop_lem_example = refresh_loop_lem (none ∷ some (codes "v1.2.0") ∷ none ∷ []) state

search_prefix_example :
    Directory.search world (some (codes "An")) (calm state)
    ≡ (ok (record { status = StatusCode.ok; body = Body.users (codes "Ann" ∷ []) }), calm state)
unfolding begins_with contains_char
search_prefix_example = search_prefix world state b'A' (codes "n") refl refl

search-underscores_example : Directory.search world (some (underscores 3)) (calm state) ≡ (
  ok (record { status = StatusCode.ok; body = Body.users (codes "Ann" ∷ codes "bob" ∷ []) }),
  calm state,
)
unfolding underscores
search-underscores_example = search-underscores world state 2 refl

invite_code-injective_example : ◌≡◌ {A = ℕ} 77 77
invite_code-injective_example = invite_code-injective 77 77 (omega arith) (omega arith) refl
