-- ===== src/ValidationCache/Latency.antt =====
-- How long a positive answer can outlive the moment when the service stops giving it, and that it
-- never outlives the credential.
use auth_sdk_go.Base.{
  ℕ, ◌+◌, ◌≤◌, ◌≡◌, refl, sym, ap, subst, Bool, false, List, [], ◌∷◌, ◌++◌, Option, arith, All, inl,
  inr, ◌⊎◌, Option-cases,
}
use auth_sdk_go.Base.Text.{Bytes}
use auth_sdk_go.ValidationCache.{
  CacheClass, TtlPolicy, Cache, entry_for, serve, get_locked, get_with, new_cache,
}
use auth_sdk_go.ValidationCache.Invalidation.{reset}
use auth_sdk_go.ValidationCache.Events.{Ask, Event, ask, invalidate, reset_all, perform, step, run}
use auth_sdk_go.ValidationCache.Answers.{is_positive, ExpiresBy, serve-some, after_fetch-ExpiresBy}
use auth_sdk_go.ValidationCache.Histories.{
  Every, entry_for-SameSettings, step-SameSettings, get_locked-Every, entry_for-Every,
}

-- An event that stores no positive answer past `limit`, under TTLs up to `latency`.
abbrev StoresBy : (limit latency : ℕ) → Event → Type 0
StoresBy limit latency (ask a) = (is_positive a.fetched ≡ false) ⊎ (a.now + latency ≤ limit)
StoresBy limit latency (invalidate prefix) = Unit {0}
StoresBy limit latency reset_all = Unit {0}

abbrev TtlsWithin : ℕ → Cache → Type 0
TtlsWithin latency c = (k : CacheClass) → (c.policy k).pos ≤ latency

-- An event that happens by the time `t`.
abbrev HappensBy : ℕ → Event → Type 0
HappensBy t (ask a) = a.now ≤ t
HappensBy t (invalidate prefix) = Unit {0}
HappensBy t reset_all = Unit {0}

-- An event in which the service gives no positive answer.
abbrev NoYes : Event → Type 0
NoYes (ask a) = is_positive a.fetched ≡ false
NoYes (invalidate prefix) = Unit {0}
NoYes reset_all = Unit {0}

HappensBy-StoresBy : (t latency : ℕ) (e : Event) → HappensBy t e → StoresBy (t + latency) latency e
HappensBy-StoresBy t latency (ask a) h = inr (omega arith)
HappensBy-StoresBy t latency (invalidate prefix) h = tt
HappensBy-StoresBy t latency reset_all h = tt

NoYes-StoresBy : (limit latency : ℕ) (e : Event) → NoYes e → StoresBy limit latency e
NoYes-StoresBy limit latency (ask a) h = inl h
NoYes-StoresBy limit latency (invalidate prefix) h = tt
NoYes-StoresBy limit latency reset_all h = tt

All-append {ℓ κ} :
    {A : Type ℓ} {P Q R : A → Type κ} (xs ys : List A)
    → ((a : A) → P a → R a)
    → ((a : A) → Q a → R a)
    → All P xs
    → All Q ys
    → All R (xs ++ ys)
All-append [] [] f g h k = tt
All-append [] (y ∷ ys) f g h k = (g y k.0, All-append [] ys f g tt k.1)
All-append (x ∷ xs) ys f g h k = (f x h.0, All-append xs ys f g h.1 k)

module _ (parse_time : Bytes → Bytes → Option ℕ) where
  step-ExpiresBy :
      (limit latency : ℕ) (e : Event) (c : Cache)
      → TtlsWithin latency c
      → StoresBy limit latency e
      → Every (ExpiresBy limit) c
      → Every (ExpiresBy limit) (step parse_time e c)
  unfolding step perform get_with reset
  step-ExpiresBy limit latency (ask a) c t s q =
      let (p, d) = entry_for a.now a.key c in
      let q' = entry_for-Every (ExpiresBy limit) a.now a.key c (inl refl) q in
      let same = (entry_for-SameSettings a.now a.key c).0 in
      get_locked-Every parse_time (ExpiresBy limit) a p d q' (
        after_fetch-ExpiresBy parse_time (d.policy a.cls) a.negative_err a.not_after a.now a.fetched
          (d.heap p) limit (q' p)
          (ground (arith, s, t a.cls, ap (λ (f : CacheClass → TtlPolicy). (f a.cls).pos) same)))
  step-ExpiresBy limit latency (invalidate prefix) c t s q = q
  step-ExpiresBy limit latency reset_all c t s q = q

  run-ExpiresBy :
      (limit latency : ℕ) (es : List Event) (c : Cache)
      → TtlsWithin latency c
      → All (StoresBy limit latency) es
      → Every (ExpiresBy limit) c
      → Every (ExpiresBy limit) (run parse_time es c)
  unfolding run
  run-ExpiresBy limit latency [] c t s q = q
  run-ExpiresBy limit latency (e ∷ es) c t s q =
      run-ExpiresBy limit latency es (step parse_time e c)
        (λ k. subst (λ f. (f k).pos ≤ latency) (sym (step-SameSettings parse_time e c).0) (t k)) s.1
        (step-ExpiresBy limit latency e c t s.0 q)

  -- A call past the limit gives no positive answer of its own.
  get_locked_quiet :
      (limit : ℕ) (a : Ask) (p : ℕ) (c : Cache)
      → limit ≤ a.now
      → ExpiresBy limit (c.heap p)
      → is_positive a.fetched ≡ false
      → is_positive
          (get_locked parse_time a.cls a.negative_err a.not_after a.now a.fresh a.fetched p c).1
        ≡ false
  unfolding get_locked
  get_locked_quiet limit a p c h q f = elim (Option-cases (serve a.now a.fresh (c.heap p))) [
    | inl e ↦ rw (e, get_locked) f
    | inr (o, e) ↦ rw (e, get_locked) (ground (arith, serve-some a.now a.fresh (c.heap p) o e))
  ]

  -- The positive TTL is the revocation latency. Take any history from an empty cache whose TTLs are
  -- at most `latency`: first events up to the time `revoked`, then events in which the service gives
  -- no positive answer any more. A call at `revoked + latency` or later, to which the service would
  -- not answer positively either, does not return a positive answer, whatever its key, its class and
  -- the invalidations in between.
  pub revocation_latency :
      (policy : CacheClass → TtlPolicy) (max_entries : ℕ) (explicit : Bool) (revoked latency : ℕ)
      (before after : List Event) (a : Ask)
      → ((k : CacheClass) → (policy k).pos ≤ latency)
      → All (HappensBy revoked) before
      → All NoYes after
      → revoked + latency ≤ a.now
      → is_positive a.fetched ≡ false
      → is_positive
          (perform parse_time a
            (run parse_time (before ++ after) (new_cache policy max_entries explicit))).1
        ≡ false
  unfolding perform get_with
  revocation_latency policy max_entries explicit revoked latency before after a t b n h f =
      let limit = revoked + latency in
      let start = new_cache policy max_entries explicit in
      let c = run parse_time (before ++ after) start in
      let q =
        run-ExpiresBy limit latency (before ++ after) start t
          (All-append before after (HappensBy-StoresBy revoked latency)
            (NoYes-StoresBy limit latency) b n)
          (λ p. inl refl) in
      let (p, d) = entry_for a.now a.key c in
      get_locked_quiet limit a p d h
        (entry_for-Every (ExpiresBy limit) a.now a.key c (inl refl) q p) f
