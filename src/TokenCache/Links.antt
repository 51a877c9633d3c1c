-- ===== src/TokenCache/Links.antt =====
-- The token cache's list and map point at the same elements, and a key with a request out has none.
use auth_sdk_go.Base.{
  ℕ, zero, suc, ◌<◌, ◌≡◌, refl, Bool, true, false, List, [], ◌∷◌, none, some, arith, ◌==◌,
  if◌then◌else◌, length, ltb, inl, inr, Bool-cases, Option-cases, ==_iff, ap, sym, subst, ◌∙◌,
}
use auth_sdk_go.Base.Text.{Bytes, same_iff, same_refl}
use auth_sdk_go.Base.Time.{before}
use auth_sdk_go.Base.Assoc.{lookup, delete, lookup-insert, lookup-insert_self, lookup-delete}
use auth_sdk_go.TokenCache.{
  TokenCache, Token, Element, FetchedToken, got, failed, remove, back, forget, use_again, join,
  enter, drop_back, trim, push_front, fresh_until, store, finish, empty_cache,
}

-- Does `p` stand in the list?
unfoldable pub listed : ℕ → List ℕ → Bool
listed p [] = false
listed p (q ∷ qs) = if p == q then true else listed p qs

listed-remove :
    (q p : ℕ) (l : List ℕ) → listed q (remove p l) ≡ (if q == p then false else listed q l)
unfolding listed remove
listed-remove q p [] = ground arith
listed-remove q p (r ∷ l) = ground (arith, listed-remove q p l)

pub listed-back : (p : ℕ) (l : List ℕ) → listed (back p l) (p ∷ l) ≡ true
unfolding listed
listed-back p [] = ground arith
listed-back p (q ∷ l) = ground (arith, listed-back q l)

forget-gone : (p : ℕ) (key : Bytes) (c : TokenCache) → lookup key (forget p key c).items ≡ none
unfolding forget
forget-gone p key c = rw (lookup-delete, same_refl) refl

module _ (P : Element → Type 0) where
  -- A listed element is the one that the map has for its key, and satisfies `P`.
  abbrev pub Linked : TokenCache → Type 0
  Linked c =
      (p : ℕ)
      → listed p c.ll ≡ true
      → (p < c.next) × (lookup (c.elements p).key c.items ≡ some p) × P (c.elements p)

  abbrev pub Mapped : TokenCache → Type 0
  Mapped c =
      (k : Bytes) (p : ℕ)
      → lookup k c.items ≡ some p
      → (listed p c.ll ≡ true) × ((c.elements p).key ≡ k)

  -- A key with a request out is not in the map.
  abbrev pub Alone : TokenCache → Type 0
  Alone c = (k : Bytes) (f : ℕ) → lookup k c.inflight ≡ some f → lookup k c.items ≡ none

  pub record IsLinked (c : TokenCache) : Type 0 where
    pub linked : Linked c
    pub mapped : Mapped c
    pub alone : Alone c

  pub empty_cache-IsLinked : (max : ℕ) → IsLinked (empty_cache max)
  unfolding listed lookup
  empty_cache-IsLinked max = record {
    linked = λ p h. cc;
    mapped = λ k p h. cc;
    alone = λ k f h. cc;
  }

  pub forget-IsLinked :
      (p : ℕ) (key : Bytes) (c : TokenCache)
      → lookup key c.items ≡ some p
      → IsLinked c
      → IsLinked (forget p key c)
  unfolding forget
  forget-IsLinked p key c e v = record {
    linked = λ q h. ground (
      arith,
      listed-remove q p c.ll,
      lookup-delete key (c.elements q).key c.items,
      same_iff key (c.elements q).key,
      v.linked q,
    );
    mapped = λ k q h. ground (
      arith,
      listed-remove q p c.ll,
      lookup-delete key k c.items,
      same_iff key k,
      v.mapped k q,
      v.mapped key p,
    );
    alone = λ k f h. ground (arith, lookup-delete key k c.items, v.alone k f);
  }

  pub use_again-IsLinked :
      (p : ℕ) (c : TokenCache) → listed p c.ll ≡ true → IsLinked c → IsLinked (use_again p c)
  unfolding use_again listed
  use_again-IsLinked p c e v = record {
    linked = λ q h. ground (arith, listed-remove q p c.ll, v.linked q);
    mapped = λ k q h. ground (arith, listed-remove q p c.ll, v.mapped k q);
    alone = v.alone;
  }

  -- A new flight is made only for a key that the map does not have.
  pub join-IsLinked :
      (key : Bytes) (c : TokenCache)
      → lookup key c.items ≡ none
      → IsLinked c
      → IsLinked (join key c).0
  unfolding join
  join-IsLinked key c e v = elim (Option-cases (lookup key c.inflight)) [
    | inl a ↦
        rw (a, join)
          (record {
            linked = v.linked;
            mapped = v.mapped;
            alone = λ k f h.
                ground (
                  arith,
                  lookup-insert key k c.next_flight c.inflight,
                  same_iff key k,
                  v.alone k f,
                );
          })
    | inr (f, a) ↦ rw (a, join) v
  ]

  pub enter-IsLinked :
      (now : ℕ) (key : Bytes) (c : TokenCache) → IsLinked c → IsLinked (enter now key c).0
  unfolding enter
  enter-IsLinked now key c v = elim (Option-cases (lookup key c.items)) [
    | inl a ↦ rw (a, enter) (join-IsLinked key c a v)
    | inr (p, a) ↦ elim (Bool-cases (before now (c.elements p).fresh_until)) [
      | inl b ↦ rw (a, enter, b) (use_again-IsLinked p c (v.mapped key p a).0 v)
      | inr b ↦
          rw (a, enter, b)
            (join-IsLinked key (forget p key c) (forget-gone p key c) (forget-IsLinked p key c a v))
    ]
  ]

  push_front-IsLinked :
      (key : Bytes) (tok : Token) (fresh : ℕ) (c : TokenCache)
      → lookup key c.items ≡ none
      → lookup key c.inflight ≡ none
      → P (record { key = key; tok = tok; fresh_until = fresh })
      → IsLinked c
      → IsLinked (push_front key tok fresh c)
  unfolding push_front listed
  push_front-IsLinked key tok fresh c e a k v = record {
    linked = λ q h. elim (Bool-cases (q == c.next)) [
      | inl b ↦
          let same = (==_iff q c.next).0 b in
          rw b (omega (arith, same), lookup-insert_self key c.next c.items ∙ ap some (sym same), k)
      | inr b ↦ rw b (
          ground (
            arith,
            lookup-insert key (c.elements q).key c.next c.items,
            same_iff key (c.elements q).key,
            v.linked q,
          ))
    ];
    mapped = λ j q h.
        ground
          (arith, lookup-insert key j c.next c.items, same_iff key j, v.mapped j q, v.linked q);
    alone =
        λ j f h. ground (arith, lookup-insert key j c.next c.items, same_iff key j, v.alone j f);
  }

  drop_back-IsLinked :
      (l : List ℕ) (c : TokenCache) → l ≡ c.ll → IsLinked c → IsLinked (drop_back l c)
  unfolding drop_back
  drop_back-IsLinked [] c e v = v
  drop_back-IsLinked (p ∷ l) c e v =
      let last = listed-back p l in
      forget-IsLinked (back p l) _ c
        (v.linked (back p l) (subst (λ x. listed (back p l) x ≡ true) e last)).1 v

  trim-IsLinked : (fuel : ℕ) (c : TokenCache) → IsLinked c → IsLinked (trim fuel c)
  unfolding trim
  trim-IsLinked zero c v = v
  trim-IsLinked (suc fuel) c v = elim (Bool-cases (ltb c.max (length c.ll))) [
    | inl b ↦ rw b (trim-IsLinked fuel (drop_back c.ll c) (drop_back-IsLinked c.ll c refl v))
    | inr b ↦ rw b v
  ]

  -- A token is stored only for a key that neither the map nor a flight has.
  store-IsLinked :
      (now : ℕ) (key : Bytes) (upto : ℕ) (fetched : FetchedToken) (c : TokenCache)
      → lookup key c.items ≡ none
      → lookup key c.inflight ≡ none
      → ((tok : Token)
          → fetched ≡ got tok
          → before now (fresh_until upto tok) ≡ true
          → P (record { key = key; tok = tok; fresh_until = fresh_until upto tok }))
      → IsLinked c
      → IsLinked (store now key upto fetched c)
  unfolding store
  store-IsLinked now key upto (failed x) c e a k v = v
  store-IsLinked now key upto (got tok) c e a k v = elim (Bool-cases (tok.expires_at == 0)) [
    | inl b ↦ rw b v
    | inr b ↦ elim (Bool-cases (before now (fresh_until upto tok))) [
      | inl d ↦
          rw (b, d)
            (trim-IsLinked (suc (length c.ll)) (push_front key tok (fresh_until upto tok) c)
              (push_front-IsLinked key tok (fresh_until upto tok) c e a (k tok refl d) v))
      | inr d ↦ rw (b, d) v
    ]
  ]

  delete_flight-IsLinked :
      (key : Bytes) (c : TokenCache)
      → IsLinked c
      → IsLinked (record c { inflight = delete key c.inflight })
  delete_flight-IsLinked key c v = record {
    linked = v.linked;
    mapped = v.mapped;
    alone = λ k f h. ground (arith, lookup-delete key k c.inflight, v.alone k f);
  }

  -- The caller that comes back is the one whose request is out.
  pub finish-IsLinked :
      (now : ℕ) (key : Bytes) (upto f : ℕ) (fetched : FetchedToken) (ended : Bool) (c : TokenCache)
      → lookup key c.inflight ≡ some f
      → ((tok : Token)
          → fetched ≡ got tok
          → before now (fresh_until upto tok) ≡ true
          → P (record { key = key; tok = tok; fresh_until = fresh_until upto tok }))
      → IsLinked c
      → IsLinked (finish now key upto f fetched ended c)
  unfolding finish
  finish-IsLinked now key upto f fetched ended c e k v =
      let w =
        store-IsLinked now key upto fetched (record c { inflight = delete key c.inflight })
          (v.alone key f e) (rw (lookup-delete, same_refl) refl) k
          (delete_flight-IsLinked key c v) in
      record { linked = w.linked; mapped = w.mapped; alone = w.alone }
