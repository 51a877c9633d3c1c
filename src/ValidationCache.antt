-- ===== src/ValidationCache.antt =====
-- validationcache.go: the cache of validation answers. Entries are objects that goroutines hold by
-- pointer while a fetch is out, so the map goes from keys to addresses and the entries live in a
-- heap: an entry dropped from the map may still be written. `flight` says that the entry's mutex is
-- held. The section's parameter is time.Parse, by layout and text.
pub mod ActorExpiry
pub mod Events
pub mod Invalidation
pub mod Key
pub mod Options
pub mod Eviction
pub mod Answers
pub mod Histories
pub mod Latency
pub mod Outage
pub mod Candidates
pub mod Order
pub mod Deletions
pub mod Maps
pub mod Survivors
pub mod Separate
pub mod Frame
pub mod Tests
use auth_sdk_go.Base.{
  ℕ, zero, suc, ◌+◌, ◌-◌, ◌*◌, ◌≤◌, ◌<◌, ◌≡◌, refl, Bool, true, false, not, ◌&&◌, ◌||◌, List, [],
  ◌∷◌, ◌++◌, map, Option, none, some, arith, ltb, leb, ◌==◌, if◌then◌else◌, length, keep, is_some,
}
use auth_sdk_go.Base.Text.{Bytes, bytes, has_prefix}
use auth_sdk_go.Base.Assoc.{lookup, insert, delete}
use auth_sdk_go.Base.Time.{before, second, unix}
use auth_sdk_go.Actor.{Actor}
use auth_sdk_go.Errors.{Err, copy_error}
use auth_sdk_go.ValidationCache.ActorExpiry.{parse_actor_expiry}

pub data CacheClass : Type 0 where
  class_token class_api_key class_decision : CacheClass

pub record TtlPolicy : Type 0 where
  pub pos : ℕ
  pub neg : ℕ

pub record Entry : Type 0 where
  pub flight : Bool
  pub actor : Option Actor
  pub err : Option Err
  pub expires : ℕ

-- `&validationEntry{}`
abbrev pub new_entry : Entry
new_entry = record { flight = false; actor = none; err = none; expires = 0 }

pub record Cache : Type 0 where
  pub policy : CacheClass → TtlPolicy
  pub max_entries : ℕ
  pub explicit : Bool
  pub entries : List (Bytes × ℕ)
  pub heap : ℕ → Entry
  pub next : ℕ
  pub hits : ℕ
  pub misses : ℕ

-- What a fetch, and the cache, answer: `(*Actor, error)`.
pub data Outcome : Type 0 where
  answer : Option Actor → Outcome
  failure : Err → Outcome

abbrev pub update : (ℕ → Entry) → ℕ → Entry → ℕ → Entry
update h p e q = if q == p then e else h q

-- `(e.actor == nil && e.err == nil) || !now.Before(e.expires)`
unfoldable pub is_expired : ℕ → Entry → Bool
is_expired now e = (not (is_some e.actor) && not (is_some e.err)) || not (before now e.expires)

-- What eviction does with an entry of the map.
abbrev pub is_stale : ℕ → Entry → Bool
is_stale now e = not e.flight && is_expired now e

abbrev is_live : ℕ → Entry → Bool
is_live now e = not e.flight && not (is_expired now e)

-- A candidate of eviction: its key and when it expires.
abbrev pub Candidate : Type 0
Candidate = Bytes × ℕ

-- `sort.Slice(live, by expires)`
unfoldable pub insert_by_expiry : Candidate → List Candidate → List Candidate
insert_by_expiry x [] = x ∷ []
insert_by_expiry x (y ∷ ys) = if leb x.1 y.1 then x ∷ y ∷ ys else y ∷ insert_by_expiry x ys

unfoldable pub sort_by_expiry : List Candidate → List Candidate
unfolding insert_by_expiry
sort_by_expiry [] = []
sort_by_expiry (x ∷ xs) = insert_by_expiry x (sort_by_expiry xs)

module _ (now : ℕ) (heap : ℕ → Entry) where
  unfoldable pub live : List (Bytes × ℕ) → List Candidate
  live [] = []
  live ((k, p) ∷ m) = if is_live now (heap p) then (k, (heap p).expires) ∷ live m else live m

  unfoldable pub in_flight : List (Bytes × ℕ) → List Bytes
  in_flight [] = []
  in_flight ((k, p) ∷ m) = if (heap p).flight then k ∷ in_flight m else in_flight m

  unfoldable pub drop_stale : List (Bytes × ℕ) → List (Bytes × ℕ)
  drop_stale [] = []
  drop_stale ((k, p) ∷ m) = if is_stale now (heap p) then drop_stale m else (k, p) ∷ drop_stale m

-- The loop over the candidates: delete until the map is down to the target.
unfoldable pub drop_until : ℕ → List Bytes → List (Bytes × ℕ) → List (Bytes × ℕ)
drop_until target [] m = m
drop_until target (k ∷ ks) m =
    let rest = drop_until target ks (delete k m) in if leb (length m) target then m else rest

abbrev pub keys : List Candidate → List Bytes
keys = map (λ x. x.0)

unfoldable pub evict_if_full : ℕ → Cache → List (Bytes × ℕ)
unfolding live in_flight drop_stale drop_until sort_by_expiry
evict_if_full now c =
    let target = c.max_entries - 1 in
    if leb (length c.entries) target
    then c.entries
    else drop_until target
        (keys (sort_by_expiry (live now c.heap c.entries)) ++ in_flight now c.heap c.entries)
        (drop_stale now c.heap c.entries)

-- The address of the entry for `key`, which is made if it is missing.
unfoldable pub entry_for : ℕ → Bytes → Cache → ℕ × Cache
unfolding evict_if_full lookup insert
entry_for now key c = elim (lookup key c.entries) [
  | some p ↦ (p, c)
  | none ↦ (
    c.next,
    record c {
      entries = insert key c.next (evict_if_full now c);
      heap = update c.heap c.next new_entry;
      next = suc c.next;
    },
  )
]

unfoldable pub count : Bool → Cache → Cache
count true c = record c { hits = suc c.hits }
count false c = record c { misses = suc c.misses }

unfoldable pub copy_actor : Actor → Actor
copy_actor a = record a { permissions = a.permissions }

-- The answer that the entry gives with no request, if it gives one.
unfoldable pub serve : ℕ → Bool → Entry → Option Outcome
unfolding copy_actor copy_error
serve now fresh e =
    if not fresh && before now e.expires
    then elim e.actor [
      | some a ↦ some (answer (some (copy_actor a)))
      | none ↦ elim e.err [ some x ↦ some (failure (copy_error x)) | none ↦ none ]
    ]
    else none

-- `e.actor, e.err, e.expires = nil, nil, time.Time{}`
abbrev clear : Entry → Entry
clear e = record e { actor = none; err = none; expires = 0 }

-- `if exp, ok := …; ok && exp.Before(expires)`
abbrev pub cap_at : Option ℕ → ℕ → ℕ
cap_at none expires = expires
cap_at (some t) expires = if before t expires then t else expires

-- A time that is absent when it is the zero time.
abbrev pub when_set : ℕ → Option ℕ
when_set t = if t == 0 then none else some t

module _ (parse_time : Bytes → Bytes → Option ℕ) where
  -- What a positive answer's entry expires at: never past the credential itself.
  unfoldable pub expiry_of : TtlPolicy → (not_after now : ℕ) → Actor → ℕ
  expiry_of policy not_after now a =
      if a.valid
      then cap_at (when_set not_after)
          (cap_at (parse_actor_expiry parse_time a.expires_at) (now + policy.pos))
      else now + policy.neg

  -- The entry after the fetch has answered.
  unfoldable pub after_fetch :
      TtlPolicy → (Err → Bool) → (not_after now : ℕ) → Outcome → Entry → Entry
  unfolding expiry_of copy_actor copy_error
  after_fetch policy negative_err not_after now (failure x) e =
      if negative_err x
      then if ltb 0 policy.neg
        then record e { actor = none; err = some (copy_error x); expires = now + policy.neg }
        else clear e
      else e
  after_fetch policy negative_err not_after now (answer none) e = e
  after_fetch policy negative_err not_after now (answer (some a)) e =
      if (if a.valid then policy.pos else policy.neg) == 0
      then clear e
      else if ltb now (expiry_of policy not_after now a)
      then record e {
        actor = some (copy_actor a);
        err = none;
        expires = expiry_of policy not_after now a;
      }
      else clear e

  -- The part of getWith under the entry's mutex: serve what is there, or fetch and remember.
  unfoldable pub get_locked :
      CacheClass
      → (Err → Bool)
      → (not_after now : ℕ) (fresh : Bool) → Outcome
      → ℕ
      → Cache
      → Cache × Outcome
  unfolding serve after_fetch count
  get_locked cls negative_err not_after now fresh fetched p c = elim (serve now fresh (c.heap p)) [
    | some o ↦ (count true c, o)
    | none ↦ (
      record (count false c) {
        heap =
            update c.heap p
              (after_fetch (c.policy cls) negative_err not_after now fetched (c.heap p));
      },
      fetched,
    )
  ]

  -- getWith as one step: `fetched` is what the service answers if it is asked.
  unfoldable pub get_with :
      Bytes
      → CacheClass
      → (Err → Bool)
      → (not_after now : ℕ) (fresh : Bool) → Outcome
      → Cache
      → Cache × Outcome
  unfolding entry_for get_locked
  get_with key cls negative_err not_after now fresh fetched c =
      let (p, c') = entry_for now key c in
      get_locked cls negative_err not_after now fresh fetched p c'

  -- `get`: no error is a negative answer.
  unfoldable pub get :
      Bytes → CacheClass → (not_after now : ℕ) (fresh : Bool) → Outcome → Cache → Cache × Outcome
  unfolding get_with
  get key cls = get_with key cls (λ _. false)

-- A cache with no entry yet.
abbrev pub new_cache : (CacheClass → TtlPolicy) → ℕ → Bool → Cache
new_cache policy max_entries explicit = record {
  policy = policy;
  max_entries = max_entries;
  explicit = explicit;
  entries = [];
  heap = λ _. new_entry;
  next = 0;
  hits = 0;
  misses = 0;
}
