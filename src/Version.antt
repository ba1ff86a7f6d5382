-- ===== src/Version.antt =====
-- src/version.rs: the minimal client version.
pub mod Refresh
use naleystogramm_server.Base.{
  Bool, true, List, [], ◌∷◌, Option, none, some, Text, trim_start_matches,
}
use naleystogramm_server.Extern.{Semver}
use naleystogramm_server.State.{AppState}

-- A version that does not parse is let through.
unfoldable pub satisfies : Semver → Text → Text → Bool
satisfies v client_version min_version = elim (v.parse client_version) [
  | none ↦ true
  | some c ↦ elim (v.parse min_version) [ none ↦ true | some m ↦ v.ge c m ]
]

-- `fetch_latest`, given the `tag_name` of GitHub's answer: `none` where the request failed, or
-- where the answer has no such text.
unfoldable pub fetch_latest : Option Text → Option Text
fetch_latest none = none
fetch_latest (some tag) = some (trim_start_matches b'v' tag)

-- One round of `refresh_loop`.
unfoldable pub refresh : Option Text → AppState → AppState
unfolding fetch_latest
refresh tag_name s = elim (fetch_latest tag_name) [
  | none ↦ s
  | some ver ↦ record s { min_version = ver }
]

-- The rounds of `refresh_loop`, one for each answer of GitHub, oldest first.
unfoldable pub refresh_loop : List (Option Text) → AppState → AppState
refresh_loop [] s = s
refresh_loop (tag_name ∷ later) s = refresh_loop later (refresh tag_name s)
