-- ===== src/Auth/Bearer.antt =====
-- What `extract_bearer` of src/auth.rs accepts.
use naleystogramm_server.Base.{
  ◌≡◌, ◌↔◌, ◌++◌, Option, none, some, Text, codes, strip_prefix_iff, arith,
}
use naleystogramm_server.Action.{ok}
use naleystogramm_server.Auth.{extract_bearer}

-- The token of a header is what follows `Bearer `, and no other header has one.
pub extract_bearer_iff :
    (header : Option Text) (token : Text)
    → (extract_bearer header ≡ ok token) ↔ (header ≡ some (codes "Bearer " ++ token))
unfolding extract_bearer
extract_bearer_iff none token = ground arith
extract_bearer_iff (some auth) token = ground (arith, strip_prefix_iff (codes "Bearer ") auth token)
