-- ===== src/TokenCache/Sound.antt =====
-- The invariant of goroutines that share the token cache, and what the cache answers to one that
-- enters it.
use auth_sdk_go.Base.{
  ℕ, suc, ◌+◌, ◌≤◌, ◌<◌, ◌≡◌, ◌⊎◌, refl, [], none, some, ◌==◌, inl, inr, Bool-cases, Option-cases,
  ==_iff, ltb→lt, ◌∙◌,
}
use auth_sdk_go.Base.Text.{Bytes, same}
use auth_sdk_go.Base.Time.{before}
use auth_sdk_go.Base.Assoc.{lookup, insert}
use auth_sdk_go.Errors.{wrapped, unavailable, cancelled}
use auth_sdk_go.TokenCache.{
  TokenCache, Element, FetchedToken, got, failed, Entered, hit, wait, lead, put, forget, use_again,
  join, enter, new_flight, token_refresh_margin,
}
use auth_sdk_go.TokenCache.Calls.{
  Thread, idle, calling, leading, waiting, returned, System, set_thread, new_system,
}
use auth_sdk_go.TokenCache.Links.{IsLinked, empty_cache-IsLinked}
use auth_sdk_go.TokenCache.Untouched.{SameFlights}

module _ (P : Element → Type 0) (now : ℕ) (key : Bytes) where
  -- What entering the cache has found and done.
  abbrev pub Entering : TokenCache → TokenCache → Entered → Type 0
  Entering c d (hit tok) =
      SameFlights d c
      × ((x : Element) × P x × (x.key ≡ key) × (x.tok ≡ tok) × (now < x.fresh_until))
  Entering c d (wait f) = SameFlights d c × (lookup key c.inflight ≡ some f)
  Entering c d (lead f) =
      (f ≡ c.next_flight)
      × (lookup key c.inflight ≡ none)
      × (d.inflight ≡ insert key f c.inflight)
      × (d.flights ≡ put c.flights f new_flight)
      × (d.next_flight ≡ suc f)

  join_lem : (c : TokenCache) → Entering c (join key c).0 (join key c).1
  unfolding join
  join_lem c = elim (Option-cases (lookup key c.inflight)) [
    | inl a ↦ rw (a, join) (refl, a, refl, refl, refl)
    | inr (f, a) ↦ rw (a, join) ((refl, refl, refl, refl), a)
  ]

  pub enter_lem :
      (c : TokenCache) → IsLinked P c → Entering c (enter now key c).0 (enter now key c).1
  unfolding enter use_again forget
  enter_lem c v = elim (Option-cases (lookup key c.items)) [
    | inl a ↦ rw (a, enter) (join_lem c)
    | inr (p, a) ↦ elim (Bool-cases (before now (c.elements p).fresh_until)) [
      | inl b ↦
          let (here, same) = v.mapped key p a in
          rw (a, enter, b)
            (
              (refl, refl, refl, refl),
              (c.elements p, (v.linked p here).2, same, refl, ltb→lt now _ b),
            )
      | inr b ↦ rw (a, enter, b) (join_lem (forget p key c))
    ]
  ]

module _ (fetch : Bytes → ℕ → FetchedToken) (cap_at : Bytes → ℕ) where
  -- A request for the key gave this answer.
  abbrev pub Came : Bytes → FetchedToken → Type 0
  Came k o = (n : ℕ) × (fetch k n ≡ o)

  -- What a call may return: such an answer, or that its own context ended while it waited.
  abbrev pub Delivered : Bytes → FetchedToken → Type 0
  Delivered k o = Came k o ⊎ (o ≡ failed (wrapped unavailable cancelled))

  -- A cached token came for its key, and is fresh until 30 seconds before it expires at most, and
  -- until its key's cap at most.
  abbrev pub Stored : Element → Type 0
  Stored x =
      Came x.key (got x.tok)
      × (x.fresh_until + token_refresh_margin ≤ x.tok.expires_at)
      × ((cap_at x.key ≡ 0) ⊎ (x.fresh_until ≤ cap_at x.key))

  -- Where goroutine `t` stands agrees with the cache. `key_of` and `leader_of` say for which key and
  -- by whom a flight was made.
  abbrev pub Fine : TokenCache → (ℕ → Bytes) → (ℕ → ℕ) → ℕ → Thread → Type 0
  Fine c key_of leader_of t idle = Unit
  Fine c key_of leader_of t (calling k) = Unit
  Fine c key_of leader_of t (leading k f) = (lookup k c.inflight ≡ some f) × (leader_of f ≡ t)
  Fine c key_of leader_of t (waiting k f) = (f < c.next_flight) × (key_of f ≡ k)
  Fine c key_of leader_of t (returned k o) = Delivered k o

  pub record IsSound (s : System) : Type 0 where
    pub linked : IsLinked Stored s.cache
    pub key_of : ℕ → Bytes
    pub leader_of : ℕ → ℕ
    pub requests :
        (k : Bytes) (f : ℕ)
        → lookup k s.cache.inflight ≡ some f
        → (f < s.cache.next_flight) × (key_of f ≡ k)
    pub outcomes :
        (f : ℕ) (o : FetchedToken)
        → (s.cache.flights f).outcome ≡ some o
        → (f < s.cache.next_flight) × Came (key_of f) o
    pub threads : (t : ℕ) → Fine s.cache key_of leader_of t (s.threads t)

  pub new_system-IsSound : (max : ℕ) → IsSound (new_system max)
  unfolding lookup
  new_system-IsSound max = record {
    linked = empty_cache-IsLinked Stored max;
    key_of = λ _. [];
    leader_of = λ _. 0;
    requests = λ k f h. cc;
    outcomes = λ f o h. cc;
    threads = λ t. tt;
  }

  -- Moving one goroutine, with the cache as it is.
  pub set_thread-IsSound :
      (t : ℕ) (th : Thread) (s : System) (v : IsSound s)
      → Fine s.cache v.key_of v.leader_of t th
      → IsSound (set_thread t th s)
  unfolding set_thread
  set_thread-IsSound t th s v h = record {
    linked = v.linked;
    key_of = v.key_of;
    leader_of = v.leader_of;
    requests = v.requests;
    outcomes = v.outcomes;
    threads = λ q. elim (Bool-cases (q == t)) [
      | inl b ↦ rw (b, (==_iff q t).0 b) h
      | inr b ↦ rw b (v.threads q)
    ];
  }

  -- A goroutine that stands well does so after the cache has changed, if its request is still its
  -- own and the flights that were made stay what they were made for.
  pub Fine-mono :
      (c d : TokenCache) (key_of key_of' : ℕ → Bytes) (leader_of leader_of' : ℕ → ℕ) (t : ℕ)
      → ((k : Bytes) (f : ℕ)
          → lookup k c.inflight ≡ some f
          → leader_of f ≡ t
          → (lookup k d.inflight ≡ some f) × (leader_of' f ≡ t))
      → ((f : ℕ) → f < c.next_flight → (f < d.next_flight) × (key_of' f ≡ key_of f))
      → (th : Thread) → Fine c key_of leader_of t th
      → Fine d key_of' leader_of' t th
  Fine-mono c d key_of key_of' leader_of leader_of' t own made idle h = tt
  Fine-mono c d key_of key_of' leader_of leader_of' t own made (calling k) h = tt
  Fine-mono c d key_of key_of' leader_of leader_of' t own made (leading k f) h = own k f h.0 h.1
  Fine-mono c d key_of key_of' leader_of leader_of' t own made (waiting k f) h =
      let (below, same) = made f h.0 in (below, same ∙ h.1)
  Fine-mono c d key_of key_of' leader_of leader_of' t own made (returned k o) h = h
