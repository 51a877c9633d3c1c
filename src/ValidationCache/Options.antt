-- ===== src/ValidationCache/Options.antt =====
-- validationcache.go: the options that configure the cache, and the default configuration. A
-- duration that a caller gives may be negative.
use auth_sdk_go.Base.{
  ℕ, ◌*◌, ◌≤◌, ◌<◌, ◌≡◌, refl, Bool, true, false, Option, none, some, arith, ltb, ◌==◌,
  if◌then◌else◌, ℤ, pos, negsuc, inl, inr, Bool-cases, is_some,
}
use auth_sdk_go.Base.Time.{second}
use auth_sdk_go.ValidationCache.{
  CacheClass, class_token, class_api_key, class_decision, TtlPolicy, Cache, new_cache,
}

pub record CacheOptions : Type 0 where
  pub ttl : ℤ
  pub negative_ttl : ℤ
  pub max_entries : ℤ

abbrev default_negative_ttl : ℕ
default_negative_ttl = 5 * second

abbrev default_max_entries : ℕ
default_max_entries = 4096

-- The negative TTL that an explicit configuration ends up with, under the positive one.
unfoldable clamp_negative : ℤ → ℕ → ℕ
clamp_negative (pos n) ttl =
    let neg = if n == 0 then default_negative_ttl else n in if ltb ttl neg then ttl else neg
clamp_negative (negsuc n) ttl = 0

unfoldable clamp_entries : ℤ → ℕ
clamp_entries (pos n) = if n == 0 then default_max_entries else n
clamp_entries (negsuc n) = default_max_entries

-- WithValidationCacheOptions: the cache that the client gets, `none` when caching is off.
unfoldable cache_of_ttl : ℤ → CacheOptions → Option Cache
unfolding clamp_negative clamp_entries
cache_of_ttl (negsuc n) o = none
cache_of_ttl (pos ttl) o =
    if ttl == 0
    then none
    else some (
        new_cache (λ _. record { pos = ttl; neg = clamp_negative o.negative_ttl ttl })
          (clamp_entries o.max_entries) true)

unfoldable pub with_validation_cache_options : CacheOptions → Option Cache
unfolding cache_of_ttl
with_validation_cache_options o = cache_of_ttl o.ttl o

unfoldable pub with_validation_cache : ℤ → Option Cache
unfolding with_validation_cache_options
with_validation_cache ttl =
    with_validation_cache_options (record { ttl = ttl; negative_ttl = pos 0; max_entries = pos 0 })

-- The TTLs of a client that configures nothing.
unfoldable pub default_policy : CacheClass → TtlPolicy
default_policy class_token = record { pos = 15 * second; neg = 5 * second }
default_policy class_api_key = record { pos = 60 * second; neg = 10 * second }
default_policy class_decision = record { pos = 15 * second; neg = 5 * second }

unfoldable pub new_default_cache : Cache
unfolding default_policy
new_default_cache = new_cache default_policy default_max_entries false

-- A usable configuration: there is room for an entry, a positive TTL is set, and no class trusts a
-- negative answer for longer than a positive one.
pub record IsUsable (c : Cache) : Type 0 where
  pub has_room : 0 < c.max_entries
  pub caches : (k : CacheClass) → 0 < (c.policy k).pos
  pub negative_le : (k : CacheClass) → (c.policy k).neg ≤ (c.policy k).pos

clamp_negative-le : (z : ℤ) (ttl : ℕ) → clamp_negative z ttl ≤ ttl
unfolding clamp_negative
clamp_negative-le (pos n) ttl = ground arith
clamp_negative-le (negsuc n) ttl = omega arith

clamp_entries_pos : (z : ℤ) → 0 < clamp_entries z
unfolding clamp_entries
clamp_entries_pos (pos n) = ground arith
clamp_entries_pos (negsuc n) = omega arith

abbrev ForSome : (Cache → Type 0) → Option Cache → Type 0
ForSome P none = Unit {0}
ForSome P (some c) = P c

cache_of_ttl-IsUsable : (ttl : ℤ) (o : CacheOptions) → ForSome IsUsable (cache_of_ttl ttl o)
unfolding cache_of_ttl
cache_of_ttl-IsUsable (negsuc n) o = tt
cache_of_ttl-IsUsable (pos ttl) o = elim (Bool-cases (ttl == 0)) [
  | inl e ↦ rw e tt
  | inr e ↦ rw e (record {
    has_room = clamp_entries_pos o.max_entries;
    caches = λ k. ground arith;
    negative_le = λ k. clamp_negative-le o.negative_ttl ttl;
  })
]

-- A duration above zero.
abbrev pub is_above_zero : ℤ → Bool
is_above_zero (pos n) = ltb 0 n
is_above_zero (negsuc n) = false

cache_of_ttl_some : (ttl : ℤ) (o : CacheOptions) → is_some (cache_of_ttl ttl o) ≡ is_above_zero ttl
unfolding cache_of_ttl
cache_of_ttl_some (negsuc n) o = refl
cache_of_ttl_some (pos n) o = ground arith

-- Whatever the options, caching is on exactly for a positive TTL, and a cache that is on is usable:
-- a negative answer is never trusted for longer than a positive one, every positive TTL is above
-- zero, and the bound on the entries is at least one.
with_validation_cache_options-IsUsable :
    (o : CacheOptions)
    → (is_some (with_validation_cache_options o) ≡ is_above_zero o.ttl)
      × ForSome IsUsable (with_validation_cache_options o)
unfolding with_validation_cache_options
with_validation_cache_options-IsUsable o =
    (cache_of_ttl_some o.ttl o, cache_of_ttl-IsUsable o.ttl o)

default_caches : (k : CacheClass) → 0 < (default_policy k).pos
unfolding default_policy
default_caches class_token = omega arith
default_caches class_api_key = omega arith
default_caches class_decision = omega arith

default_negative-le : (k : CacheClass) → (default_policy k).neg ≤ (default_policy k).pos
unfolding default_policy
default_negative-le class_token = omega arith
default_negative-le class_api_key = omega arith
default_negative-le class_decision = omega arith

-- No TTL of the default configuration is above a minute.
default_policy-le : (k : CacheClass) → (default_policy k).pos ≤ 60 * second
unfolding default_policy
default_policy-le class_token = omega arith
default_policy-le class_api_key = omega arith
default_policy-le class_decision = omega arith

-- The default configuration is usable.
new_default_cache-IsUsable : IsUsable new_default_cache
unfolding new_default_cache
new_default_cache-IsUsable = record {
  has_room = omega arith;
  caches = default_caches;
  negative_le = default_negative-le;
}
