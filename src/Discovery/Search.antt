-- ===== src/Discovery/Search.antt =====
-- What `search` of src/discovery.rs finds.
use naleystogramm_server.Base.{
  leb, ℕ, zero, suc, ◌≡◌, refl, ◌∙◌, ap, ◌++◌, Bool, true, false, ◌&&◌, List, [], ◌∷◌, map, some,
  Text, codes, arith, ◌==◌, length, take, retain, contains_char,
}
use naleystogramm_server.Extern.{Extern}
use naleystogramm_server.Error.{StatusCode, Body}
use naleystogramm_server.Tables.{User}
use naleystogramm_server.State.{AppState}
use naleystogramm_server.Action.{ok, pure}
use naleystogramm_server.Action.Rules.{calm, bind-ok, query-ok}
use naleystogramm_server.Discovery.Directory
use naleystogramm_server.Discovery.Directory.{fold_case, one_char, any_suffix, like, users_like}

-- A text that begins with another one, but for the case of ASCII letters.
unfoldable pub begins_with : Text → Text → Bool
begins_with [] s = true
begins_with (c ∷ q) [] = false
begins_with (c ∷ q) (d ∷ s) = (fold_case c == fold_case d) && begins_with q s

any_suffix-all : (s : Text) → any_suffix (like []) s ≡ true
unfolding like
any_suffix-all [] = refl
any_suffix-all (c ∷ s) = ground (arith, any_suffix-all s)

-- A query without `%` and `_` is matched by the texts that begin with it.
like-begins_with :
    (q s : Text)
    → contains_char b'%' q ≡ false
    → contains_char b'_' q ≡ false
    → like (q ++ codes "%") s ≡ begins_with q s
unfolding like begins_with contains_char
like-begins_with [] s percent underscore = any_suffix-all s
like-begins_with (c ∷ q) [] percent underscore = ground arith
like-begins_with (c ∷ q) (d ∷ s) percent underscore = ground (arith, like-begins_with q s)

retain-same :
    (p r : User → Bool) (us : List User) → ((u : User) → p u ≡ r u) → retain p us ≡ retain r us
retain-same p r [] h = refl
retain-same p r (u ∷ us) h = ground (arith, h u, retain-same p r us h)

nonempty : (c : ℕ) (q : Text) → (length (c ∷ q) == 0) ≡ false
nonempty c q = ground arith

module _ (x : Extern) (s : AppState) where
  -- Where the database fails no statement, a search for a text of at least one character whose
  -- lower-case form has no `%` and no `_` answers 200 and changes nothing: it gives the usernames of the
  -- first 20 users, in the order of the table, whose lower-case names begin with it up to the case
  -- of ASCII letters.
  pub search_prefix :
      (c : ℕ) (q : Text)
      → contains_char b'%' (x.to_lowercase (c ∷ q)) ≡ false
      → contains_char b'_' (x.to_lowercase (c ∷ q)) ≡ false
      → Directory.search x (some (c ∷ q)) (calm s) ≡ (
        ok (record {
          status = StatusCode.ok;
          body = Body.users (
              take 20 (
                map
                  (λ (u : User). u.username)
                  (retain (λ u. begins_with (x.to_lowercase (c ∷ q)) u.username_lc) s.pool.users)));
        }),
        calm s,
      )
  unfolding Directory.search pure users_like
  search_prefix c q percent underscore = rw (nonempty c q) (
      bind-ok _ _ (query-ok _ s refl)
      ∙ ap
          (λ us. (
            ok (record {
              status = StatusCode.ok;
              body = Body.users (take 20 (map (λ (u : User). u.username) us));
            }),
            calm s,
          ))
          (retain-same _ _ s.pool.users
            (λ u. like-begins_with (x.to_lowercase (c ∷ q)) u.username_lc percent underscore)))

-- A text of `n` underscores.
unfoldable pub underscores : ℕ → Text
underscores zero = []
underscores (suc n) = b'_' ∷ underscores n

any_suffix-any : (s : Text) → any_suffix (like []) s ≡ leb 0 (length s)
any_suffix-any s = any_suffix-all s ∙ ground arith

like-underscores : (n : ℕ) (s : Text) → like (underscores n ++ codes "%") s ≡ leb n (length s)
unfolding like underscores
like-underscores zero s = any_suffix-any s
like-underscores (suc n) [] = ground arith
like-underscores (suc n) (c ∷ s) = ground (arith, like-underscores n s)

module _ (x : Extern) (s : AppState) where
  -- A search for one or more underscores is no search for a prefix: where the database fails no
  -- statement and the lower-case form of the underscores is they themselves, it answers 200 with the
  -- usernames of the first 20 users, in the order of the table, whose lower-case names have at least
  -- as many characters, whichever they are, and changes nothing.
  pub search-underscores :
      (n : ℕ)
      → x.to_lowercase (underscores (suc n)) ≡ underscores (suc n)
      → Directory.search x (some (underscores (suc n))) (calm s) ≡ (
        ok (record {
          status = StatusCode.ok;
          body = Body.users (
              take 20 (
                map
                  (λ (u : User). u.username)
                  (retain (λ u. leb (suc n) (length u.username_lc)) s.pool.users)));
        }),
        calm s,
      )
  unfolding Directory.search pure users_like underscores
  search-underscores n same =
      rw (nonempty b'_' (underscores n), same)
        (bind-ok _ _ (query-ok _ s refl)
          ∙ ap
              (λ us. (
                ok (record {
                  status = StatusCode.ok;
                  body = Body.users (take 20 (map (λ (u : User). u.username) us));
                }),
                calm s,
              ))
              (retain-same _ _ s.pool.users (λ u. like-underscores (suc n) u.username_lc)))
