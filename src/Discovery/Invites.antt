-- ===== src/Discovery/Invites.antt =====
-- `invite_create` of src/discovery.rs.
pub mod Codes
use naleystogramm_server.Base.{ℕ, zero, suc, ◌*◌, ◌/◌, ◌%◌, ◌^◌, [], ◌∷◌, ◌++◌, Text, codes, length}
use naleystogramm_server.Extern.{Extern, datetime}
use naleystogramm_server.Error.{StatusCode, Body, Response}
use naleystogramm_server.Tables.{insert_invite}
use naleystogramm_server.Action.{Action, ◌>>=◌, ◌>>◌, pure, query}
use naleystogramm_server.Discovery.Requests.{Request, resolve_token}

abbrev pub chars : Text
chars = codes "ABCDEFGHJKLMNPQRSTUVWXYZ23456789"

-- `chars[i]`; `part` keeps `i` in range.
abbrev pub char_at : Text → ℕ → ℕ
char_at [] i = 0
char_at (c ∷ s) zero = c
char_at (c ∷ s) (suc i) = char_at s i

-- `chars[((n >> (i * 5)) & 0x1F) as usize % chars.len()]`
unfoldable pub char_of : ℕ → ℕ → ℕ
char_of n i = char_at chars (n / 2 ^ (i * 5) % 32 % length chars)

unfoldable pub part : ℕ → Text
unfolding char_of
part n = char_of n 0 ∷ char_of n 1 ∷ char_of n 2 ∷ char_of n 3 ∷ []

-- The code of a random `u32`.
unfoldable pub invite_code : ℕ → Text
unfolding part
invite_code r = part r ++ codes "-" ++ part (r / 2 ^ 16)

module _ (x : Extern) where
  unfoldable pub invite_create : Request → ℕ → Action Response
  unfolding invite_code
  invite_create rq random = do
    user_id ← resolve_token x rq
    let code = invite_code random
    query (insert_invite (datetime x.calendar rq.now) code user_id)
    pure (record { status = StatusCode.created; body = Body.code code })
