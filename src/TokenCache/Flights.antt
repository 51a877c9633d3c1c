-- ===== src/TokenCache/Flights.antt =====
-- Goroutines that share the token cache, over any schedule of their moves: each key has one request
-- out at most, and what a call for a key is given was fetched for that key.
use auth_sdk_go.Base.{ℕ, ◌+◌, ◌<◌, ◌≡◌, ◌⊎◌, List, [], ◌∷◌, inl, inr, arith, subst, sym, ap, ◌∙◌}
use auth_sdk_go.Base.Text.{Bytes}
use auth_sdk_go.TokenCache.{Token, Element, FetchedToken, got, hit, enter, token_refresh_margin}
use auth_sdk_go.TokenCache.Calls.{
  leading, returned, System, Event, start, go_in, come_back, wake, give_up, step, run, new_system,
}
use auth_sdk_go.TokenCache.Sound.{
  Entering, enter_lem, Came, Delivered, Stored, Fine, IsSound, new_system-IsSound,
}
use auth_sdk_go.TokenCache.Moves.{
  start_call-IsSound, enter_call-IsSound, wake_call-IsSound, give_up_call-IsSound,
}
use auth_sdk_go.TokenCache.Finish.{finish_call-IsSound}

module _ (fetch : Bytes → ℕ → FetchedToken) (cap_at : Bytes → ℕ) where
  pub step-IsSound :
      (e : Event) (s : System)
      → IsSound fetch cap_at s
      → IsSound fetch cap_at (step fetch cap_at e s)
  unfolding step
  step-IsSound (start t k) s v = start_call-IsSound fetch cap_at t k (s.threads t) s v
  step-IsSound (go_in t now) s v = enter_call-IsSound fetch cap_at t now (s.threads t) s v
  step-IsSound (come_back t n now ended) s v =
      finish_call-IsSound fetch cap_at t n now ended (s.threads t) s v (v.threads t)
  step-IsSound (wake t) s v = wake_call-IsSound fetch cap_at t (s.threads t) s v (v.threads t)
  step-IsSound (give_up t) s v = give_up_call-IsSound fetch cap_at t (s.threads t) s v

  run-IsSound :
      (es : List Event) (s : System)
      → IsSound fetch cap_at s
      → IsSound fetch cap_at (run fetch cap_at es s)
  unfolding run
  run-IsSound [] s v = v
  run-IsSound (e ∷ es) s v = run-IsSound es (step fetch cap_at e s) (step-IsSound e s v)

  pub reached :
      (max : ℕ) (es : List Event) → IsSound fetch cap_at (run fetch cap_at es (new_system max))
  reached max es = run-IsSound es (new_system max) (new_system-IsSound fetch cap_at max)

  -- Two goroutines that are out to fetch for the same key, at any point of any schedule that starts
  -- with an empty cache, are the same one.
  pub single_flight :
      (max : ℕ) (es : List Event) (t u f g : ℕ) (k : Bytes)
      → (run fetch cap_at es (new_system max)).threads t ≡ leading k f
      → (run fetch cap_at es (new_system max)).threads u ≡ leading k g
      → t ≡ u
  single_flight max es t u f g k a b =
      let v = reached max es in
      let s = run fetch cap_at es (new_system max) in
      let (here, mine) = subst (Fine fetch cap_at s.cache v.key_of v.leader_of t) a (v.threads t) in
      let (there, yours) =
        subst (Fine fetch cap_at s.cache v.key_of v.leader_of u) b (v.threads u) in
      let same : f ≡ g = ground (arith, here, there) in sym mine ∙ ap v.leader_of same ∙ yours

  -- Whatever a call returns, at any point of any schedule that starts with an empty cache, is the
  -- answer to a request that was made for that call's key, or says that the call's own context ended
  -- while it waited.
  pub returned_came :
      (max : ℕ) (es : List Event) (t : ℕ) (k : Bytes) (o : FetchedToken)
      → (run fetch cap_at es (new_system max)).threads t ≡ returned k o
      → Delivered fetch cap_at k o
  returned_came max es t k o a =
      let v = reached max es in
      let s = run fetch cap_at es (new_system max) in
      subst (Fine fetch cap_at s.cache v.key_of v.leader_of t) a (v.threads t)

  served-fresh :
      (now : ℕ) (k : Bytes) (tok : Token) (x : Element)
      → Stored fetch cap_at x
      → x.key ≡ k
      → x.tok ≡ tok
      → now < x.fresh_until
      → Came fetch cap_at k (got tok)
        × (now + token_refresh_margin < tok.expires_at)
        × ((cap_at k ≡ 0) ⊎ (now < cap_at k))
  served-fresh now k tok x (came, margin, capped) its_key its_tok fresh =
      let expiry = ap (λ (y : Token). y.expires_at) its_tok in
      let cap = ap cap_at its_key in
      (
        (came.0, cc (came.1, its_key, its_tok)),
        omega (arith, expiry),
        elim capped [
          | inl none_set ↦ inl (sym cap ∙ none_set)
          | inr below ↦ inr (omega (arith, cap))
        ],
      )

  -- A token that the cache serves for a key, after any schedule that starts with an empty cache, came
  -- with a request for that key, has more than 30 seconds left, and is served before the key's cap,
  -- if that is set.
  pub hit-fresh :
      (max : ℕ) (es : List Event) (now : ℕ) (k : Bytes) (tok : Token)
      → (enter now k (run fetch cap_at es (new_system max)).cache).1 ≡ hit tok
      → Came fetch cap_at k (got tok)
        × (now + token_refresh_margin < tok.expires_at)
        × ((cap_at k ≡ 0) ⊎ (now < cap_at k))
  hit-fresh max es now k tok a =
      let c = (run fetch cap_at es (new_system max)).cache in
      let found =
        subst (Entering (Stored fetch cap_at) now k c (enter now k c).0) a
          (enter_lem (Stored fetch cap_at) now k c (reached max es).linked) in
      let (x, stored, its_key, its_tok, fresh) = found.1 in
      served-fresh now k tok x stored its_key its_tok fresh
