-- ===== src/Relay/Spares.antt =====
-- Which parts of a handler's body leave the relay's maps alone (src/relay.rs).
use naleystogramm_server.Base.{◌≡◌, refl, ◌∙◌, Bool, true, false, Option, none, some}
use naleystogramm_server.Error.{AppError}
use naleystogramm_server.Tables.{Statement}
use naleystogramm_server.State.{AppState}
use naleystogramm_server.Action.{
  Action, Result, ok, err, panicked, ◌>>=◌, pure, lift, gets, ok_or, throw_if, query,
}
use naleystogramm_server.Action.Rules.{Post, Post-bind, Post-query, Post-weaken}
use naleystogramm_server.Extern.{Extern}
use naleystogramm_server.Discovery.Requests.{Request, resolve_token}

-- The configuration and the sessions are those of before.
abbrev pub Untouched : AppState → AppState → Type 0
Untouched s s' =
    (s'.config ≡ s.config)
    × (s'.relay_init ≡ s.relay_init)
    × (s'.relay_pending ≡ s.relay_pending)
    × (s'.next_channel ≡ s.next_channel)

pub record Spares {A : Type 0} (m : Action A) : Type 0 where
  pub at : (s : AppState) → Post (λ _ s'. Untouched s s') (λ _ s'. Untouched s s') (m s)

module _ {A : Type 0} where
  pub Spares-pure : (a : A) → Spares (pure a)
  unfolding pure
  Spares-pure a = record { at = λ s. (refl, refl, refl, refl) }

  pub Spares-lift : (r : Result A) → Spares (lift r)
  unfolding lift
  Spares-lift (ok a) = record { at = λ s. (refl, refl, refl, refl) }
  Spares-lift (err e) = record { at = λ s. (refl, refl, refl, refl) }
  Spares-lift panicked = record { at = λ s. (refl, refl, refl, refl) }

  pub Spares-gets : (f : AppState → A) → Spares (gets f)
  unfolding gets
  Spares-gets f = record { at = λ s. (refl, refl, refl, refl) }

  pub Spares-ok_or : (o : Option A) (e : AppError) → Spares (ok_or o e)
  unfolding ok_or
  Spares-ok_or none e = record { at = λ s. (refl, refl, refl, refl) }
  Spares-ok_or (some a) e = record { at = λ s. (refl, refl, refl, refl) }

  pub Spares-query : (q : Statement A) → Spares (query q)
  Spares-query q = record {
    at = λ s.
        Post-query (λ _ s'. Untouched s s') (λ _ s'. Untouched s s') q s
          (λ e fs. (refl, refl, refl, refl)) (λ fs a t e. (refl, refl, refl, refl));
  }

  pub Spares-bind :
      {B : Type 0} (m : Action A) (f : A → Action B)
      → Spares m
      → ((a : A) → Spares (f a))
      → Spares (m >>= f)
  Spares-bind m f sm sf = record {
    at = λ s.
        Post-bind (λ _ s'. Untouched s s') (λ _ s'. Untouched s s') (λ _ s'. Untouched s s') m f s
          (sm.at s)
          λ a s' h.
            Post-weaken (λ _ t. Untouched s' t) (λ _ t. Untouched s' t) (λ _ t. Untouched s t)
              (λ _ t. Untouched s t) (f a s') ((sf a).at s') (λ b t k. further s s' t h k)
              (λ e t k. further s s' t h k);
  }
    where
      further : (s s' t : AppState) → Untouched s s' → Untouched s' t → Untouched s t
      further s s' t h k = (k.0 ∙ h.0, k.1 ∙ h.1, k.2 ∙ h.2, k.3 ∙ h.3)

pub Spares-throw_if : (c : Bool) (e : AppError) → Spares (throw_if c e)
unfolding throw_if
Spares-throw_if true e = record { at = λ s. (refl, refl, refl, refl) }
Spares-throw_if false e = record { at = λ s. (refl, refl, refl, refl) }

pub ruleset spares_rules = (
  Spares-pure, Spares-lift, Spares-gets, Spares-ok_or, Spares-throw_if, Spares-query, Spares-bind,
)

pub resolve_token-Spares : (x : Extern) (rq : Request) → Spares (resolve_token x rq)
unfolding resolve_token
resolve_token-Spares x rq = search spares_rules depth 12
