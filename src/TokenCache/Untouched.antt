-- ===== src/TokenCache/Untouched.antt =====
-- Storing a token in the cache touches nothing that concerns requests.
use auth_sdk_go.Base.{
  ℕ, zero, suc, ◌≡◌, refl, not, ◌&&◌, List, [], ◌∷◌, ◌==◌, length, ltb, inl, inr, Bool-cases, ◌∙◌,
}
use auth_sdk_go.Base.Text.{Bytes}
use auth_sdk_go.Base.Time.{before}
use auth_sdk_go.TokenCache.{
  TokenCache, FetchedToken, got, failed, forget, drop_back, trim, push_front, fresh_until, store,
}

-- Nothing that concerns requests, nor the bound, is touched.
abbrev pub SameFlights : TokenCache → TokenCache → Type 0
SameFlights c d =
    (c.inflight ≡ d.inflight)
    × (c.flights ≡ d.flights)
    × (c.next_flight ≡ d.next_flight)
    × (c.max ≡ d.max)

pub drop_back-SameFlights : (l : List ℕ) (c : TokenCache) → SameFlights (drop_back l c) c
unfolding drop_back forget
drop_back-SameFlights [] c = (refl, refl, refl, refl)
drop_back-SameFlights (p ∷ l) c = (refl, refl, refl, refl)

SameFlights-trans : (b c d : TokenCache) → SameFlights b c → SameFlights c d → SameFlights b d
SameFlights-trans b c d h k = (h.0 ∙ k.0, h.1 ∙ k.1, h.2 ∙ k.2, h.3 ∙ k.3)

pub trim-SameFlights : (fuel : ℕ) (c : TokenCache) → SameFlights (trim fuel c) c
unfolding trim
trim-SameFlights zero c = (refl, refl, refl, refl)
trim-SameFlights (suc fuel) c = elim (Bool-cases (ltb c.max (length c.ll))) [
  | inl b ↦ rw b (
      SameFlights-trans (trim fuel (drop_back c.ll c)) (drop_back c.ll c) c
        (trim-SameFlights fuel (drop_back c.ll c)) (drop_back-SameFlights c.ll c))
  | inr b ↦ rw b (refl, refl, refl, refl)
]

pub store-SameFlights :
    (now : ℕ) (key : Bytes) (upto : ℕ) (fetched : FetchedToken) (c : TokenCache)
    → SameFlights (store now key upto fetched c) c
unfolding store push_front
store-SameFlights now key upto (failed x) c = (refl, refl, refl, refl)
store-SameFlights now key upto (got tok) c =
    elim (Bool-cases (not (tok.expires_at == 0) && before now (fresh_until upto tok))) [
      | inl b ↦
          rw b (trim-SameFlights (suc (length c.ll)) (push_front key tok (fresh_until upto tok) c))
      | inr b ↦ rw b (refl, refl, refl, refl)
    ]
