-- ===== src/LocalVerify/KeySet.antt =====
-- Where the key that VerifyAccessTokenLocal checks a signature with comes from: the cache of jwks.go
-- or the service's answers to this call.
use mathlib.Core.List.{Mem, not-mem-nil, mem-cons_self, mem-cons_of_mem}
use auth_sdk_go.Base.{
  ℕ, ◌≡◌, refl, sym, ◌∙◌, subst, Bool, true, false, not, ◌&&◌, List, [], ◌∷◌, Option, none, some,
  ◌⊎◌, inl, inr, arith, Bool-cases, Option-cases, if◌then◌else◌,
}
use auth_sdk_go.Base.Text.{Bytes, same, same_iff}
use auth_sdk_go.Base.Assoc.{lookup, insert, lookup-insert_self}
use auth_sdk_go.Jwks.{
  Jwk, Jwks, key, Entry, Cache, Fetched, fetched_keys, fetch_failed, fetch_locked, is_fresh,
  get_entry, refresh_entry, entry, get, refresh_for_unknown_kid,
}
use auth_sdk_go.LocalVerify.Verify.{Surroundings, Keyed, keyed, unavailable, jwks_path, find_key}

-- The key of an id is in the set and has the id.
key-Mem : (kid : Bytes) (set : Jwks) (k : Jwk) → key kid set ≡ some k → (k.kid ≡ kid) × Mem k set
unfolding key
key-Mem kid [] k e = absurd cc
key-Mem kid (j ∷ js) k e = elim (Bool-cases (same j.kid kid)) [
  | inl b ↦
      let is : j ≡ k = cc (rw b at e) in
      subst (λ (i : Jwk). (i.kid ≡ kid) × Mem i (j ∷ js)) is
        ((same_iff j.kid kid).0 b, mem-cons_self)
  | inr b ↦ let (a, m) = key-Mem kid js k (rw b at e) in (a, mem-cons_of_mem j m)
]

module _ (P : Jwks → Type 0) where
  abbrev InAnswer : Fetched → Type 0
  InAnswer (fetched_keys set) = P set
  InAnswer (fetch_failed err) = Unit {0}

  abbrev InCache : Bytes → Cache → Type 0
  InCache path c = (e : Entry) → lookup path c.entries ≡ some e → P e.keys

  entry-keys : (path : Bytes) (c : Cache) → P [] → InCache path c → P (entry path c).0.keys
  unfolding entry
  entry-keys path c p h = elim (Option-cases (lookup path c.entries)) [
    | inl k ↦ rw (k, entry) p
    | inr (e, k) ↦ rw (k, entry) (h e k)
  ]

  fetch_locked-keys :
      (later : ℕ) (answer : Fetched) (e : Entry)
      → InAnswer answer
      → P e.keys
      → P (fetch_locked later answer e).0.keys × InAnswer (fetch_locked later answer e).1
  unfolding fetch_locked
  fetch_locked-keys later (fetched_keys set) e a p = (a, a)
  fetch_locked-keys later (fetch_failed err) e a p = ground arith

  get_entry-keys :
      (ttl now later : ℕ) (force : Bool) (answer : Fetched) (e : Entry)
      → InAnswer answer
      → P e.keys
      → P (get_entry ttl now later force answer e).0.keys
        × InAnswer (get_entry ttl now later force answer e).1
  unfolding get_entry
  get_entry-keys ttl now later force answer e a p =
      elim (Bool-cases (not force && is_fresh ttl now e)) [
        | inl b ↦ rw b (p, p)
        | inr b ↦ rw b (fetch_locked-keys later answer e a p)
      ]

  refresh_entry-keys :
      (cooldown now later : ℕ) (answer : Fetched) (e : Entry)
      → InAnswer answer
      → P e.keys
      → P (refresh_entry cooldown now later answer e).0.keys
        × InAnswer (refresh_entry cooldown now later answer e).1
  unfolding refresh_entry
  refresh_entry-keys cooldown now later answer e a p =
      ground (arith, fetch_locked-keys later answer (record e { forced_at = now }) a p)

  inserted-keys :
      (path : Bytes) (e : Entry) (m : List (Bytes × Entry))
      → P e.keys
      → (x : Entry) → lookup path (insert path e m) ≡ some x
      → P x.keys
  inserted-keys path e m p x q =
      let is : e ≡ x = cc (sym (lookup-insert_self path e m) ∙ q) in
      subst (λ (y : Entry). P y.keys) is p

  get-keys :
      (path : Bytes) (now later : ℕ) (force : Bool) (answer : Fetched) (c : Cache)
      → P []
      → InAnswer answer
      → InCache path c
      → InCache path (get path now later force answer c).0
        × InAnswer (get path now later force answer c).1
  unfolding get
  get-keys path now later force answer c p a h =
      let (kept, given) =
        get_entry-keys c.ttl now later force answer (entry path c).0 a (entry-keys path c p h) in
      (inserted-keys path _ (entry path c).1.entries kept, given)

  refresh-keys :
      (path : Bytes) (now later : ℕ) (answer : Fetched) (c : Cache)
      → P []
      → InAnswer answer
      → InCache path c
      → InAnswer (refresh_for_unknown_kid path now later answer c).1
  unfolding refresh_for_unknown_kid
  refresh-keys path now later answer c p a h =
      (refresh_entry-keys _ now later answer (entry path c).0 a (entry-keys path c p h)).1

  -- A key that is found is that of a set.
  abbrev Found : Bytes → Keyed → Type 0
  Found kid (keyed (some k)) = (set : Jwks) × P set × (key kid set ≡ some k)
  Found kid _ = Unit {0}

  abbrev FoundIn : Bytes → Cache × Keyed → Type 0
  FoundIn kid r = Found kid r.1

  keyed-Found :
      (kid : Bytes) (set : Jwks) (o : Option Jwk) → P set → key kid set ≡ o → Found kid (keyed o)
  keyed-Found kid set none p e = tt
  keyed-Found kid set (some k) p e = (set, p, e)

  refreshed-Found :
      (kid : Bytes) (c : Cache) (again : Fetched) (did : Bool)
      → InAnswer again
      → FoundIn kid (elim again [
        | fetch_failed err ↦ (c, unavailable err)
        | fetched_keys set ↦ (c, keyed (if did then key kid set else none))
      ])
  refreshed-Found kid c (fetch_failed err) did a = tt
  refreshed-Found kid c (fetched_keys set) true a = keyed-Found kid set (key kid set) a refl
  refreshed-Found kid c (fetched_keys set) false a = tt

  abbrev Refreshed : Type 0
  Refreshed = Cache × Fetched × Bool

  looked_up-Found :
      (kid : Bytes) (set : Jwks) (c : Cache) (o : Option Jwk) (r : Refreshed)
      → P set
      → key kid set ≡ o
      → InAnswer r.1
      → FoundIn kid (elim o [
        | some k ↦ (c, keyed (some k))
        | none ↦ elim r.1 [
          | fetch_failed err ↦ (r.0, unavailable err)
          | fetched_keys again ↦ (r.0, keyed (if r.2 then key kid again else none))
        ]
      ])
  looked_up-Found kid set c (some k) r p e a = (set, p, e)
  looked_up-Found kid set c none r p e a = refreshed-Found kid r.0 r.1 r.2 a

  find_key-Found :
      (w : Surroundings) (kid : Bytes) (c : Cache)
      → P []
      → InAnswer w.get_answer
      → InAnswer w.refresh_answer
      → InCache jwks_path c
      → Found kid (find_key w kid c).1
  unfolding find_key
  find_key-Found w kid c p a b h =
      let (held, given) = get-keys jwks_path w.get_now w.get_later false w.get_answer c p a h in
      got-Found (get jwks_path w.get_now w.get_later false w.get_answer c).1 given (
        refresh-keys jwks_path w.refresh_now w.refresh_later w.refresh_answer
          (get jwks_path w.get_now w.get_later false w.get_answer c).0 p b held)
    where
      got-Found :
          (found : Fetched)
          → InAnswer found
          → InAnswer
              (refresh_for_unknown_kid jwks_path w.refresh_now w.refresh_later w.refresh_answer
                (get jwks_path w.get_now w.get_later false w.get_answer c).0).1
          → FoundIn kid (elim found [
            | fetch_failed err ↦
                ((get jwks_path w.get_now w.get_later false w.get_answer c).0, unavailable err)
            | fetched_keys set ↦ elim (key kid set) [
              | some k ↦
                  ((get jwks_path w.get_now w.get_later false w.get_answer c).0, keyed (some k))
              | none ↦
                  (let (c'', again, did) =
                      refresh_for_unknown_kid jwks_path w.refresh_now w.refresh_later
                        w.refresh_answer
                        (get jwks_path w.get_now w.get_later false w.get_answer c).0 in
                    elim again [
                      | fetch_failed err ↦ (c'', unavailable err)
                      | fetched_keys refreshed ↦
                          (c'', keyed (if did then key kid refreshed else none))
                    ])
            ]
          ])
      got-Found (fetch_failed err) g r = tt
      got-Found (fetched_keys set) g r = looked_up-Found kid set _ (key kid set) _ g refl r

-- The sets that the call may take a key from: the one cached before, and the service's two answers.
abbrev pub Offered : Surroundings → Cache → Jwks → Type 0
Offered w c set =
    ((e : Entry) × (lookup jwks_path c.entries ≡ some e) × (e.keys ≡ set))
    ⊎ ((w.get_answer ≡ fetched_keys set) ⊎ (w.refresh_answer ≡ fetched_keys set))

abbrev OfferedOrEmpty : Surroundings → Cache → Jwks → Type 0
OfferedOrEmpty w c set = Offered w c set ⊎ (set ≡ [])

answered :
    (P : Jwks → Type 0) (a : Fetched) → ((set : Jwks) → a ≡ fetched_keys set → P set) → InAnswer P a
answered P (fetched_keys set) f = f set refl
answered P (fetch_failed err) f = tt

not_in_empty : (k : Jwk) (set : Jwks) → set ≡ [] → ¬ Mem k set
not_in_empty k set e m = not-mem-nil (subst (λ (s : Jwks). Mem k s) e m)

-- A key that is found has the id that was looked for, and is in a set that was cached or served.
pub find_key-Offered :
    (w : Surroundings) (kid : Bytes) (c : Cache) (k : Jwk)
    → (find_key w kid c).1 ≡ keyed (some k)
    → (k.kid ≡ kid) × ((set : Jwks) × Mem k set × Offered w c set)
find_key-Offered w kid c k e =
    let P = OfferedOrEmpty w c in
    let (set, offered, at) : Found P kid (keyed (some k)) = subst (Found P kid) e (
      find_key-Found P w kid c (inr refl) (answered P w.get_answer λ s q. inl (inr (inl q)))
        (answered P w.refresh_answer λ s q. inl (inr (inr q))) λ x q. inl (inl (x, q, refl))) in
    let (same_kid, member) = key-Mem kid set k at in
    (
      same_kid,
      (
        set,
        member,
        elim offered [ inl o ↦ o | inr empty ↦ absurd (not_in_empty k set empty member) ],
      ),
    )
