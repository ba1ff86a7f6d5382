-- ===== src/Version/Refresh.antt =====
-- What the rounds of `refresh_loop` (src/version.rs) leave in force.
use naleystogramm_server.Base.{
  ◌≡◌, refl, List, [], ◌∷◌, Option, none, some, Text, trim_start_matches,
}
use naleystogramm_server.State.{AppState}
use naleystogramm_server.Version.{refresh, refresh_loop}

-- The last answer that had a tag, or `old` where none had.
abbrev pub last_tag : Text → List (Option Text) → Text
last_tag old [] = old
last_tag old (none ∷ later) = last_tag old later
last_tag old (some tag ∷ later) = last_tag (trim_start_matches b'v' tag) later

-- After any rounds the minimal version is that of the last answer that had a tag, without its
-- leading `v`s, and the old one if none had; nothing else of the state changes.
pub refresh_loop_lem :
    (answers : List (Option Text)) (s : AppState)
    → refresh_loop answers s ≡ record s { min_version = last_tag s.min_version answers }
unfolding refresh_loop refresh
refresh_loop_lem [] s = refl
refresh_loop_lem (none ∷ later) s = refresh_loop_lem later s
refresh_loop_lem (some tag ∷ later) s =
    refresh_loop_lem later (record s { min_version = trim_start_matches b'v' tag })
