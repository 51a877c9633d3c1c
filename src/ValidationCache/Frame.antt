-- ===== src/ValidationCache/Frame.antt =====
-- What one call does to the cache after any history: to the entry of its own key, to those of the
-- other keys, and what it returns.
use auth_sdk_go.Base.{
  ℕ, suc, ◌-◌, ◌≤◌, ◌<◌, ◌≡◌, ◌≢◌, refl, sym, subst, ap, ◌∙◌, Bool, true, false, List, Option, none,
  some, arith, leb, length, inl, inr, ◌⊎◌, Option-cases, Bool-cases,
}
use auth_sdk_go.Base.Text.{Bytes, same, same→eq}
use auth_sdk_go.Base.Assoc.{lookup, insert, lookup-insert}
use auth_sdk_go.Errors.{copy_error_lem}
use auth_sdk_go.ValidationCache.{
  CacheClass, TtlPolicy, Entry, Cache, Outcome, answer, failure, new_entry, evict_if_full,
  entry_for, get_with, serve, update, copy_actor, after_fetch, new_cache,
}
use auth_sdk_go.ValidationCache.Events.{Ask, Event, perform, run}
use auth_sdk_go.ValidationCache.Outage.{entry_at, perform-Performs}
use auth_sdk_go.ValidationCache.Candidates.{Distinct}
use auth_sdk_go.ValidationCache.Separate.{
  IsSeparate, evict_if_full-Within, get_locked_heap, nothing_in, run-IsSeparate,
}

-- The key keeps its place and its entry.
abbrev pub Kept : Bytes → Cache → Cache → Type 0
Kept j c d = (lookup j d.entries ≡ lookup j c.entries) × (entry_at j d ≡ entry_at j c)

-- The key is given up by a full map, for a key that the map does not have.
abbrev pub Evicted : Bytes → (key : Bytes) → Cache → Cache → Type 0
Evicted j key c d =
    (lookup j d.entries ≡ none) × (lookup key c.entries ≡ none) × (c.max_entries ≤ length c.entries)

entry_at-Kept :
    (j : Bytes) (c d : Cache)
    → lookup j d.entries ≡ lookup j c.entries
    → ((q : ℕ) → lookup j c.entries ≡ some q → d.heap q ≡ c.heap q)
    → Kept j c d
unfolding entry_at
entry_at-Kept j c d e f = elim (Option-cases (lookup j c.entries)) [
  | inl n ↦ (e, rw (e ∙ n, n, entry_at) refl)
  | inr (q, n) ↦ (e, rw (e ∙ n, n, entry_at) (f q n))
]

update_other : (h : ℕ → Entry) (p q : ℕ) (e : Entry) → q ≢ p → update h p e q ≡ h q
update_other h p q e n = ground (arith, n)

inserted_other :
    (j key : Bytes) (p : ℕ) (m : List (Bytes × ℕ))
    → j ≢ key
    → lookup j (insert key p m) ≡ lookup j m
inserted_other j key p m n = elim (Bool-cases (same key j)) [
  | inl b ↦ absurd (n (sym (same→eq key j b)))
  | inr b ↦ lookup-insert key j p m ∙ rw b refl
]

evicted_or_kept :
    (now : ℕ) (j : Bytes) (c : Cache)
    → Distinct c.entries
    → (lookup j (evict_if_full now c) ≡ lookup j c.entries)
      ⊎ ((lookup j (evict_if_full now c) ≡ none) × (c.max_entries ≤ length c.entries))
unfolding evict_if_full
evicted_or_kept now j c d = elim (Bool-cases (leb (length c.entries) (c.max_entries - 1))) [
  | inl e ↦ inl (rw e refl)
  | inr e ↦ elim (Option-cases (lookup j (evict_if_full now c))) [
    | inl n ↦ inr (n, ground (arith, e))
    | inr (q, h) ↦ inl (h ∙ sym (evict_if_full-Within now c d j q h))
  ]
]

-- What is added to the map for `key` leaves the other keys.
entry_for-others :
    (now : ℕ) (key j : Bytes) (c : Cache)
    → IsSeparate c
    → j ≢ key
    → let (p, d) = entry_for now key c in
      (Kept j c d × ((q : ℕ) → lookup j c.entries ≡ some q → q ≢ p)) ⊎ Evicted j key c d
unfolding entry_for
entry_for-others now key j c (distinct, (used, apart)) n =
    elim (Option-cases (lookup key c.entries)) [
      | inr (p, e) ↦
          inl (rw (e, entry_for) ((refl, refl), λ q h k. n (apart j key q h (e ∙ ap some (sym k)))))
      | inl e ↦
          let d = (entry_for now key c).1 in
          let found : lookup j d.entries ≡ lookup j (evict_if_full now c) =
            rw (e, entry_for) (inserted_other j key c.next (evict_if_full now c) n) in
          let apart_from : (q : ℕ) → lookup j c.entries ≡ some q → q ≢ (entry_for now key c).0 =
            λ q h. rw (e, entry_for) (λ k. absurd (omega (arith, used j q h, k))) in
          elim (evicted_or_kept now j c distinct) [
            | inl k ↦ inl (
              entry_at-Kept j c d (found ∙ k) (λ q h.
                  rw (e, entry_for)
                    (update_other c.heap c.next q new_entry (λ k. omega (arith, used j q h, k)))),
              apart_from,
            )
            | inr (gone, full) ↦ inr (found ∙ gone, e, full)
          ]
    ]

-- The answer that the entry holds.
abbrev pub Holds : Entry → Outcome → Type 0
Holds e (answer none) = ⊥
Holds e (answer (some x)) = e.actor ≡ some x
Holds e (failure x) = (e.actor ≡ none) × (e.err ≡ some x)

serve-Holds :
    (now : ℕ) (fresh : Bool) (e : Entry) (o : Outcome)
    → serve now fresh e ≡ some o
    → (fresh ≡ false) × (now < e.expires) × Holds e o
unfolding serve copy_actor
serve-Holds now fresh e (answer none) h = absurd (ground arith)
serve-Holds now fresh e (answer (some x)) h = ground arith
serve-Holds now fresh e (failure x) h = elim (Option-cases e.err) [
  | inl k ↦ absurd (ground (arith, h, k))
  | inr (y, k) ↦ ground (arith, h, k, copy_error_lem y)
]

-- Why an entry does not answer a call.
abbrev pub Unservable : ℕ → Bool → Entry → Type 0
Unservable now fresh e = (fresh ≡ true) ⊎ ((e.expires ≤ now) ⊎ ((e.actor ≡ none) × (e.err ≡ none)))

serve-Unservable :
    (now : ℕ) (fresh : Bool) (e : Entry) → serve now fresh e ≡ none → Unservable now fresh e
unfolding serve
serve-Unservable now fresh e h = ground arith

module _ (parse_time : Bytes → Bytes → Option ℕ) where
  -- The call is answered by the entry of its key, with no request.
  abbrev pub Hits : Ask → Cache → Cache × Outcome → Type 0
  Hits a c (d, result) =
      (d.misses ≡ c.misses)
      × ((a.fresh ≡ false) × (a.now < (entry_at a.key c).expires) × Holds (entry_at a.key c) result)
      × (entry_at a.key d ≡ entry_at a.key c)

  -- The call makes a request, whose answer it returns and keeps.
  abbrev pub Misses : Ask → Cache → Cache × Outcome → Type 0
  Misses a c (d, result) =
      (d.misses ≡ suc c.misses)
      × Unservable a.now a.fresh (entry_at a.key c)
      × (result ≡ a.fetched)
      × (entry_at a.key d
          ≡ after_fetch parse_time (c.policy a.cls) a.negative_err a.not_after a.now a.fetched
              (entry_at a.key c))

  perform-HitsOrMisses :
      (a : Ask) (c : Cache)
      → Hits a c (perform parse_time a c) ⊎ Misses a c (perform parse_time a c)
  perform-HitsOrMisses a c =
      let e = entry_at a.key c in
      elim (Option-cases (serve a.now a.fresh e)) [
        | inl s ↦
            let (result, misses, _, kept) = rw s at (perform-Performs parse_time a c) in
            inr (misses, serve-Unservable a.now a.fresh e s, result, kept)
        | inr (o, s) ↦
            let (result, misses, _, kept) = rw s at (perform-Performs parse_time a c) in
            let (fresh, lt, held) = serve-Holds a.now a.fresh e o s in
            inl (misses, (fresh, lt, subst (Holds e) (sym result) held), kept)
      ]

  perform_others :
      (a : Ask) (j : Bytes) (c : Cache)
      → IsSeparate c
      → j ≢ a.key
      → let d = (perform parse_time a c).0 in Kept j c d ⊎ Evicted j a.key c d
  unfolding perform get_with
  perform_others a j c s n =
      let (p, m) = entry_for a.now a.key c in
      let (_, entries, heap) = get_locked_heap parse_time a p m in
      let d = (perform parse_time a c).0 in
      elim (entry_for-others a.now a.key j c s n) [
        | inl ((place, unchanged), far) ↦
            let at_last =
              entry_at-Kept j m d (ap (lookup j) entries) (λ q h. heap q (far q (sym place ∙ h))) in
            inl (at_last.0 ∙ place, at_last.1 ∙ unchanged)
        | inr (gone, missing, full) ↦ inr (ap (lookup j) entries ∙ gone, missing, full)
      ]

  abbrev pub Isolated : Ask → Cache → Cache × Outcome → Type 0
  Isolated a c r =
      (Hits a c r ⊎ Misses a c r) × ((j : Bytes) → j ≢ a.key → Kept j c r.0 ⊎ Evicted j a.key c r.0)

  -- After any history from an empty cache, a call does one of two things. It returns what the entry
  -- of its key holds, makes no request and leaves the entry as it was: then it does not ask for a
  -- fresh answer and the entry expires after now. Or it makes one request, returns its answer and
  -- leaves the entry as `after_fetch` makes it: then it asks for a fresh answer, or the entry has
  -- expired or is empty. The entry of every other key stays in the map as it was, but for keys that
  -- are given up where the map is full and does not have the key of the call.
  pub perform-Isolated :
      (policy : CacheClass → TtlPolicy) (max_entries : ℕ) (explicit : Bool) (es : List Event)
      (a : Ask)
      → let c = run parse_time es (new_cache policy max_entries explicit) in
        Isolated a c (perform parse_time a c)
  perform-Isolated policy max_entries explicit es a =
      let c = run parse_time es (new_cache policy max_entries explicit) in
      let separate =
        run-IsSeparate parse_time es (new_cache policy max_entries explicit) (tt, nothing_in 0) in
      (perform-HitsOrMisses a c, λ j n. perform_others a j c separate n)
