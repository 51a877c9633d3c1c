-- ===== src/ValidationCache/Tests.antt =====
-- The validation cache on concrete histories.
use auth_sdk_go.Base.{
  ℕ, suc, ◌+◌, ◌<◌, ◌≡◌, refl, Bool, true, false, List, [], ◌∷◌, ◌++◌, map, Option, none, some,
  arith, inl, pos, negsuc, length,
}
use auth_sdk_go.Base.Text.{Bytes, bytes, same, has_prefix, has_byte}
use auth_sdk_go.Base.Assoc.{lookup, insert, delete}
use auth_sdk_go.Actor.{Actor, verdict}
use auth_sdk_go.Errors.{Err, other}
use auth_sdk_go.Base.Space.{trim_space}
use auth_sdk_go.ValidationCache.{
  CacheClass, class_token, TtlPolicy, Cache, Outcome, answer, failure, new_cache, get_with,
  get_locked, entry_for, evict_if_full, serve, after_fetch, count, expiry_of, copy_actor, is_stale,
  is_expired,
}
use auth_sdk_go.ValidationCache.Order.{GoesFirst}
use auth_sdk_go.ValidationCache.Maps.{run-Distinct}
use auth_sdk_go.ValidationCache.Survivors.{evict_if_full-GoesFirst}
use auth_sdk_go.ValidationCache.Invalidation.{drop_prefix, stats}
use auth_sdk_go.ValidationCache.ActorExpiry.{parse_actor_expiry, first_layout}
use auth_sdk_go.ValidationCache.Events.{Ask, Event, ask, invalidate, perform, step, run}
use auth_sdk_go.ValidationCache.Key.{IsDigest, separator, validation_key-injective}
use auth_sdk_go.ValidationCache.Options.{CacheOptions}
use auth_sdk_go.ValidationCache.Answers.{is_positive, NotPast}
use auth_sdk_go.ValidationCache.Latency.{revocation_latency}
use auth_sdk_go.ValidationCache.Frame.{Isolated, perform-Isolated}
use auth_sdk_go.ValidationCache.Outage.{entry_at, outage_fails_closed, cached_answer_not_expired}

abbrev yes : Actor
yes = record (verdict true) { user_id = bytes "u"; expires_at = bytes "2030" }

-- A parser that reads every text as the same time.
abbrev parse_year : Bytes → Bytes → Option ℕ
parse_year layout text = some 1000

abbrev policy : CacheClass → TtlPolicy
policy k = record { pos = 60; neg = 5 }

abbrev never : Err → Bool
never x = false

abbrev call : Bytes → ℕ → Bool → Outcome → Ask
call key now fresh fetched = record {
  key = key;
  cls = class_token;
  negative_err = never;
  not_after = 0;
  now = now;
  fresh = fresh;
  fetched = fetched;
}

abbrev cold : Cache
cold = new_cache policy 2 true

abbrev yes_at : Bytes → ℕ → Event
yes_at key now = ask (call key now false (answer (some yes)))

abbrev lost_at : Bytes → ℕ → Ask
lost_at key now = call key now false (failure (other 1))

-- Two answers are cached, one is invalidated, and the service stops answering.
abbrev history : List Event
history = yes_at (bytes "a1") 10 ∷ yes_at (bytes "b1") 20 ∷ invalidate (bytes "b") ∷ []

abbrev warm : Cache
warm = run parse_year history cold

counters : stats (some warm) ≡ record { enabled = true; hits = 0; misses = 2; entries = 1 }
unfolding stats run step perform get_with get_locked entry_for evict_if_full serve after_fetch count
    expiry_of copy_actor parse_actor_expiry first_layout trim_space drop_prefix has_prefix lookup
    insert same
counters = refl

hit_misses : (perform parse_year (lost_at (bytes "a1") 30) warm).0.misses ≡ warm.misses
unfolding run step perform get_with get_locked entry_for evict_if_full serve after_fetch count
    expiry_of copy_actor parse_actor_expiry first_layout trim_space drop_prefix has_prefix lookup
    insert same
hit_misses = refl

hit_answer : (perform parse_year (lost_at (bytes "a1") 30) warm).1 ≡ answer (some yes)
unfolding run step perform get_with get_locked entry_for evict_if_full serve after_fetch count
    expiry_of copy_actor parse_actor_expiry first_layout trim_space drop_prefix has_prefix lookup
    insert same
hit_answer = refl

cached_answer_not_expired_example : NotPast (parse_actor_expiry parse_year (bytes "2030")) 31
cached_answer_not_expired_example =
    cached_answer_not_expired parse_year policy 2 true history (lost_at (bytes "a1") 30) yes refl
      hit_answer refl

revocation_latency_example :
    is_positive
      (perform parse_year
        (lost_at (bytes "a1") 80)
        (run parse_year (history ++ ask (lost_at (bytes "c") 30) ∷ []) cold)).1
    ≡ false
revocation_latency_example =
    revocation_latency parse_year policy 2 true 20 60 history (ask (lost_at (bytes "c") 30) ∷ [])
      (lost_at (bytes "a1") 80) (λ k. omega arith) (omega arith, (omega arith, (tt, tt))) (refl, tt)
      (omega arith) refl

outage_fails_closed_example :
    let a = call (bytes "a1") 30 true (failure (other 1)) in
    ((perform parse_year a warm).1 ≡ failure (other 1))
    × ((perform parse_year a warm).0.misses ≡ suc warm.misses)
    × (entry_at (bytes "a1") (perform parse_year a warm).0 ≡ entry_at (bytes "a1") warm)
outage_fails_closed_example =
    outage_fails_closed parse_year (call (bytes "a1") 30 true (failure (other 1))) warm (other 1)
      refl refl (inl refl)

perform-Isolated_example :
    Isolated parse_year
      (lost_at (bytes "a1") 30)
      (run parse_year history (new_cache policy 2 true))
      (perform parse_year
        (lost_at (bytes "a1") 30)
        (run parse_year history (new_cache policy 2 true)))
perform-Isolated_example =
    perform-Isolated parse_year policy 2 true history (lost_at (bytes "a1") 30)

warm_room : 0 < warm.max_entries
unfolding run step perform get_with get_locked entry_for evict_if_full serve after_fetch count
    expiry_of copy_actor parse_actor_expiry first_layout trim_space drop_prefix has_prefix lookup
    insert same
warm_room = omega arith

full_misses_c : lookup (bytes "c") warm.entries ≡ none
unfolding run step perform get_with get_locked entry_for evict_if_full serve after_fetch count
    expiry_of copy_actor parse_actor_expiry first_layout trim_space drop_prefix has_prefix lookup
    insert same
full_misses_c = refl

abbrev odd_options : CacheOptions
odd_options = record { ttl = pos 3; negative_ttl = pos 0; max_entries = negsuc 6 }

-- Not a digest to be used, but one with no collision and no separator in it.
abbrev pub shifted : Bytes → Bytes
shifted = map (λ b. b + 200)

shifted_plain : (s : Bytes) → has_byte separator (shifted s) ≡ false
unfolding has_byte
shifted_plain [] = refl
shifted_plain (x ∷ s) = ground (arith, shifted_plain s)

shifted_collision_free : (s t : Bytes) → shifted s ≡ shifted t → s ≡ t
shifted_collision_free [] [] e = refl
shifted_collision_free [] (y ∷ t) e = absurd (cc)
shifted_collision_free (x ∷ s) [] e = absurd (cc)
shifted_collision_free (x ∷ s) (y ∷ t) e = ground (arith, shifted_collision_free s t)

pub shifted-IsDigest : IsDigest shifted
shifted-IsDigest = record { plain = shifted_plain; collision_free = shifted_collision_free }

validation_key-injective_example :
    (bytes "token" ≡ bytes "token")
    × (bytes "t1" ≡ bytes "t1")
    × (bytes "aud" ≡ bytes "aud")
    × (bytes "p" ∷ [] ≡ bytes "p" ∷ [])
    × (true ≡ true)
validation_key-injective_example =
    validation_key-injective shifted shifted-IsDigest (bytes "token") (bytes "token") (bytes "t1")
      (bytes "t1") (bytes "aud") (bytes "aud") (bytes "p" ∷ []) (bytes "p" ∷ []) true true refl

-- A full cache, one entry of which expires at 60 and the other at 63.
abbrev filling : List Event
filling = yes_at (bytes "a") 0 ∷ yes_at (bytes "b") 3 ∷ []

abbrev full_cache : Cache
full_cache = run parse_year filling cold

evict_if_full-GoesFirst_example :
    (length (evict_if_full 5 full_cache) ≡ 1)
    × (lookup (bytes "b") full_cache.entries ≡ some 1)
    × (is_stale 5 (full_cache.heap 1) ≡ false)
    × GoesFirst (full_cache.heap 0) (full_cache.heap 1)
unfolding is_expired delete run get_with entry_for evict_if_full serve after_fetch count expiry_of
    copy_actor lookup insert same parse_actor_expiry
evict_if_full-GoesFirst_example =
    evict_if_full-GoesFirst 5 full_cache (bytes "a") (bytes "b") 0 1
      (run-Distinct parse_year filling cold tt) refl refl refl refl
