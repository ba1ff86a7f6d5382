-- ===== src/Auth.antt =====
-- src/auth.rs: bearer tokens.
pub mod Bearer
use naleystogramm_server.Base.{List, ◌++◌, ℕ, Option, none, some, Text, codes, strip_prefix}
use naleystogramm_server.Extern.{Extern}
use naleystogramm_server.Error.{unauthorized}
use naleystogramm_server.Action.{Result, ok, err}

-- `random` are the 32 bytes that `fill_bytes` writes.
unfoldable pub generate_token : Extern → List ℕ → Text
generate_token x random = codes "naleys_" ++ x.hex_encode random

unfoldable pub hash_token : Extern → Text → Text
hash_token x token = x.hex_encode (x.sha256 token)

-- The argument is the text of the `Authorization` header, if it is there and is a text.
unfoldable pub extract_bearer : Option Text → Result Text
extract_bearer none = err unauthorized
extract_bearer (some auth) = elim (strip_prefix (codes "Bearer ") auth) [
  | none ↦ err unauthorized
  | some token ↦ ok token
]
