-- ===== src/TokenFor/Served.antt =====
-- TokenFor over its cache: whose token a call is served.
use auth_sdk_go.Base.{ℕ, ◌+◌, ◌<◌, ◌≡◌, ◌⊎◌, inl, inr, sym, ap, ◌∙◌, List, Option, arith}
use auth_sdk_go.Base.Text.{Bytes}
use auth_sdk_go.Errors.{Err}
use auth_sdk_go.TokenCache.{Token, FetchedToken, got, enter, hit, token_refresh_margin}
use auth_sdk_go.TokenCache.Calls.{Event, run, new_system}
use auth_sdk_go.TokenCache.Flights.{hit-fresh}
use auth_sdk_go.TokenFor.Answers.{App}
use auth_sdk_go.TokenFor.{Fetch, ask, token_for}
use auth_sdk_go.TokenFor.Keys.{token_for-key}

module _ (digest : Bytes → Bytes) (expiry : Bytes → ℕ)
    (collision_free : (x y : Bytes) → digest x ≡ digest y → x ≡ y) (c : App)
    (answer : ℕ → Fetch → FetchedToken) (fetch : Bytes → ℕ → FetchedToken)
    (cap_at : Bytes → ℕ) where
  -- A call of TokenFor that is cached under the key.
  abbrev pub CallFor : Bytes → ℕ → Fetch → Type 0
  CallFor k u f =
      (resource : Bytes) × (scope : Bytes) × (session : Option (Bytes ⊎ Err)) × (token_for digest
          expiry c resource scope session
        ≡ ask k u f)

  -- The n-th request for the key of a call was made by some call of TokenFor under that key, for that
  -- call's fetch.
  abbrev pub MadeByCalls : Type 0
  MadeByCalls =
      (k : Bytes) (n u : ℕ) (f : Fetch)
      → CallFor k u f
      → (u' : ℕ) × (f' : Fetch) × CallFor k u' f' × (fetch k n ≡ answer n f')

  -- Every call hands its own cap to the cache.
  abbrev pub CappedByCalls : Type 0
  CappedByCalls = (k : Bytes) (u : ℕ) (f : Fetch) → CallFor k u f → cap_at k ≡ u

  -- Under a digest without collisions, whatever calls of TokenFor share the cache, in any schedule: a
  -- call that is served a token from it gets the answer to a request that is its own fetch, for its own
  -- person, resource, audience and scope; the token has more than 30 seconds left; and it is served
  -- before the call's own cap, the expiry of the person's token, if that is set.
  pub served_own_token :
      (made : MadeByCalls) (capped : CappedByCalls) (max : ℕ) (es : List Event) (now : ℕ)
      (k : Bytes) (u : ℕ) (f : Fetch) (tok : Token)
      → CallFor k u f
      → (enter now k (run fetch cap_at es (new_system max)).cache).1 ≡ hit tok
      → ((n : ℕ) × (answer n f ≡ got tok))
        × (now + token_refresh_margin < tok.expires_at)
        × ((u ≡ 0) ⊎ (now < u))
  served_own_token made capped max es now k u f tok call served =
      let ((n, came), margin, cap_kept) = hit-fresh fetch cap_at max es now k tok served in
      let (u', f', call', by) = made k n u f call in
      let same =
        token_for-key digest expiry collision_free c call.0 call'.0 call.1 call'.1 call.2 call'.2 k
          u u' f f' call.3 call'.3 in
      let cap_is = capped k u f call in
      (
        (n, ap (answer n) same.0 ∙ sym by ∙ came),
        margin,
        elim cap_kept [
          | inl none_set ↦ inl (sym cap_is ∙ none_set)
          | inr below ↦ inr (omega (arith, cap_is))
        ],
      )
