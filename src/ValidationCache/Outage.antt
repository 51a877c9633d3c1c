-- ===== src/ValidationCache/Outage.antt =====
-- One call against the entry of its key: what it returns, what it leaves behind, and that a failing
-- service is never answered from an expired entry.
use auth_sdk_go.Base.{
  ℕ, suc, ◌≤◌, ◌<◌, ◌≡◌, refl, sym, ap, ◌∙◌, Bool, true, false, List, [], ◌∷◌, Option, none, some,
  arith, if◌then◌else◌, inl, inr, ◌⊎◌, Option-cases, is_some, ==_iff,
}
use auth_sdk_go.Base.Text.{Bytes}
use auth_sdk_go.Base.Assoc.{lookup, lookup-insert_self}
use auth_sdk_go.Actor.{Actor}
use auth_sdk_go.Errors.{Err}
use auth_sdk_go.ValidationCache.{
  CacheClass, TtlPolicy, Entry, Cache, Outcome, answer, failure, update, new_entry, entry_for,
  count, serve, copy_actor, after_fetch, get_locked, get_with, new_cache,
}
use auth_sdk_go.ValidationCache.Invalidation.{reset}
use auth_sdk_go.ValidationCache.ActorExpiry.{parse_actor_expiry}
use auth_sdk_go.ValidationCache.Events.{Ask, Event, ask, invalidate, reset_all, perform, step, run}
use auth_sdk_go.ValidationCache.Answers.{
  is_positive, RespectsExpiry, NotPast, serve-none, serve-some, after_fetch-RespectsExpiry,
  after_fetch_failure,
}
use auth_sdk_go.ValidationCache.Histories.{Every, entry_for-Every, get_locked-Every}

-- The entry that the map holds for a key; a missing one is as a new one.
unfoldable pub entry_at : Bytes → Cache → Entry
entry_at key c = elim (lookup key c.entries) [ some p ↦ c.heap p | none ↦ new_entry ]

yes_or_no :
    (o : Outcome) (x : Actor) → is_positive o ≡ false → o ≡ answer (some x) → x.valid ≡ true → ⊥
yes_or_no o x f e v = ground arith

-- The cache as its users see it: a function of the entry before the call.
abbrev pub returned : Option Outcome → Outcome → Outcome
returned (some o) fetched = o
returned none fetched = fetched

entry_for-entry_at :
    (now : ℕ) (key : Bytes) (c : Cache)
    → let (p, d) = entry_for now key c in
      (d.heap p ≡ entry_at key c)
      × (lookup key d.entries ≡ some p)
      × (d.policy ≡ c.policy)
      × (d.misses ≡ c.misses)
      × (d.hits ≡ c.hits)
unfolding entry_for entry_at
entry_for-entry_at now key c = elim (Option-cases (lookup key c.entries)) [
  | inl e ↦ rw (e, entry_for) (ground arith, lookup-insert_self _ _ _, refl, refl, refl)
  | inr (p, e) ↦ rw (e, entry_for) (rw (e, entry_at) refl, e, refl, refl, refl)
]

update_self : (h : ℕ → Entry) (p : ℕ) (e : Entry) → update h p e p ≡ e
update_self h p e = rw ((==_iff p p).1 refl)

module _ (parse_time : Bytes → Bytes → Option ℕ) where
  -- What a call does, in terms of the entry of its key and the counters before it.
  abbrev pub Performs :
      Ask → Entry → (CacheClass → TtlPolicy) → (misses hits : ℕ) → Cache × Outcome → Type 0
  Performs a e policy misses hits (d, result) =
      (result ≡ returned (serve a.now a.fresh e) a.fetched)
      × (d.misses ≡ (if is_some (serve a.now a.fresh e) then misses else suc misses))
      × (d.hits ≡ (if is_some (serve a.now a.fresh e) then suc hits else hits))
      × (entry_at a.key d ≡ (
          if is_some (serve a.now a.fresh e)
          then e
          else after_fetch parse_time (policy a.cls) a.negative_err a.not_after a.now a.fetched e))

  get_locked-Performs :
      (a : Ask) (p : ℕ) (c : Cache)
      → lookup a.key c.entries ≡ some p
      → Performs a
          (c.heap p)
          c.policy
          c.misses
          c.hits
          (get_locked parse_time a.cls a.negative_err a.not_after a.now a.fresh a.fetched p c)
  unfolding get_locked count entry_at
  get_locked-Performs a p c k = elim (Option-cases (serve a.now a.fresh (c.heap p))) [
    | inl e ↦ rw (e, get_locked) (refl, refl, refl, rw (k, entry_at) (update_self c.heap p _))
    | inr (o, e) ↦ rw (e, get_locked) (refl, refl, refl, rw (k, entry_at) refl)
  ]

  Performs-cast :
      (a : Ask) (r : Cache × Outcome) {e f : Entry} {p q : CacheClass → TtlPolicy} {m n h k : ℕ}
      → e ≡ f
      → p ≡ q
      → m ≡ n
      → h ≡ k
      → Performs a e p m h r
      → Performs a f q n k r
  Performs-cast a r e p m h t = rw (← e, ← p, ← m, ← h) t

  perform_lem :
      (a : Ask) (c : Cache)
      → perform parse_time a c
        ≡ get_locked parse_time a.cls a.negative_err a.not_after a.now a.fresh a.fetched
            (entry_for a.now a.key c).0
            (entry_for a.now a.key c).1
  unfolding perform get_with
  perform_lem a c = refl

  -- A call is served by the entry of its key, or else returns what the service answers, makes one
  -- request more and leaves the entry as `after_fetch` says.
  pub perform-Performs :
      (a : Ask) (c : Cache)
      → Performs a (entry_at a.key c) c.policy c.misses c.hits (perform parse_time a c)
  perform-Performs a c =
      let (p, d) = entry_for a.now a.key c in
      let (same, found, policy, misses, hits) = entry_for-entry_at a.now a.key c in
      Performs-cast a (perform parse_time a c) same policy misses hits
        (rw (perform_lem a c) (get_locked-Performs a p d found))

  -- During an outage the cache stops answering: a call to which the service gives an error that is
  -- no definite answer returns that very error, makes a request and leaves the entry as it was,
  -- whenever it asks for a fresh answer or the entry of its key has expired.
  pub outage_fails_closed :
      (a : Ask) (c : Cache) (x : Err)
      → a.fetched ≡ failure x
      → a.negative_err x ≡ false
      → (a.fresh ≡ true) ⊎ ((entry_at a.key c).expires ≤ a.now)
      → ((perform parse_time a c).1 ≡ failure x)
        × ((perform parse_time a c).0.misses ≡ suc c.misses)
        × (entry_at a.key (perform parse_time a c).0 ≡ entry_at a.key c)
  outage_fails_closed a c x f n h =
      let e = entry_at a.key c in
      let r = rw (serve-none a.now a.fresh e h) at (perform-Performs a c) in
      let store = λ (o : Outcome).
        after_fetch parse_time (c.policy a.cls) a.negative_err a.not_after a.now o e in
      (
        r.0 ∙ f,
        r.1,
        r.3
            ∙ ap store f
            ∙ after_fetch_failure parse_time (c.policy a.cls) a.negative_err a.not_after a.now x e
                n,
      )

  -- A call is answered without a request only from an entry that has not expired, and never if it
  -- asks for a fresh answer.
  pub hit-unexpired :
      (a : Ask) (c : Cache)
      → (perform parse_time a c).0.misses ≡ c.misses
      → (a.fresh ≡ false) × (a.now < (entry_at a.key c).expires)
  hit-unexpired a c h = elim (Option-cases (serve a.now a.fresh (entry_at a.key c))) [
    | inl e ↦ absurd (
        omega (
          arith,
          h,
          ap (λ (o : Option Outcome). if is_some o then c.misses else suc c.misses) e,
          (perform-Performs a c).1,
        ))
    | inr (o, e) ↦ let s = serve-some a.now a.fresh (entry_at a.key c) o e in (s.0, s.1)
  ]

  step-RespectsExpiry :
      (e : Event) (c : Cache)
      → Every (RespectsExpiry parse_time) c
      → Every (RespectsExpiry parse_time) (step parse_time e c)
  unfolding step perform get_with reset
  step-RespectsExpiry (ask a) c q =
      let (p, d) = entry_for a.now a.key c in
      let q' = entry_for-Every (RespectsExpiry parse_time) a.now a.key c tt q in
      get_locked-Every parse_time (RespectsExpiry parse_time) a p d q' (
        after_fetch-RespectsExpiry parse_time (d.policy a.cls) a.negative_err a.not_after a.now
          a.fetched (d.heap p) (q' p))
  step-RespectsExpiry (invalidate prefix) c q = q
  step-RespectsExpiry reset_all c q = q

  run-RespectsExpiry :
      (es : List Event) (c : Cache)
      → Every (RespectsExpiry parse_time) c
      → Every (RespectsExpiry parse_time) (run parse_time es c)
  unfolding run
  run-RespectsExpiry [] c q = q
  run-RespectsExpiry (e ∷ es) c q =
      run-RespectsExpiry es (step parse_time e c) (step-RespectsExpiry e c q)

  entry_at-Every :
      (P : Entry → Type 0) (key : Bytes) (c : Cache) → P new_entry → Every P c → P (entry_at key c)
  unfolding entry_at
  entry_at-Every P key c n q = elim (Option-cases (lookup key c.entries)) [
    | inl e ↦ rw (e, entry_at) n
    | inr (p, e) ↦ rw (e, entry_at) (q p)
  ]

  serve-NotPast :
      (now : ℕ) (fresh : Bool) (e : Entry) (x : Actor)
      → serve now fresh e ≡ some (answer (some x))
      → x.valid ≡ true
      → RespectsExpiry parse_time e
      → NotPast (parse_actor_expiry parse_time x.expires_at) (suc now)
  unfolding serve copy_actor
  serve-NotPast now fresh e x h v r = ground arith

  -- After any history, a positive answer that the service did not give in this call names a
  -- credential that has not expired: the expiry that the answer itself reports lies after `now`.
  pub cached_answer_not_expired :
      (policy : CacheClass → TtlPolicy) (max_entries : ℕ) (explicit : Bool) (es : List Event)
      (a : Ask) (x : Actor)
      → is_positive a.fetched ≡ false
      → (perform parse_time a (run parse_time es (new_cache policy max_entries explicit))).1
        ≡ answer (some x)
      → x.valid ≡ true
      → NotPast (parse_actor_expiry parse_time x.expires_at) (suc a.now)
  cached_answer_not_expired policy max_entries explicit es a x f h v =
      let c = run parse_time es (new_cache policy max_entries explicit) in
      let e = entry_at a.key c in
      let kept =
        entry_at-Every (RespectsExpiry parse_time) a.key c tt
          (run-RespectsExpiry es (new_cache policy max_entries explicit) (λ p. tt)) in
      let result = (perform-Performs a c).0 in
      elim (Option-cases (serve a.now a.fresh e)) [
        | inl s ↦
            absurd
              (yes_or_no a.fetched x f (sym (ap (λ o. returned o a.fetched) s) ∙ sym result ∙ h) v)
        | inr (o, s) ↦
            serve-NotPast a.now a.fresh e x
              (s ∙ ap some (sym (ap (λ o. returned o a.fetched) s) ∙ sym result ∙ h)) v kept
      ]
