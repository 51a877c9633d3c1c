-- ===== src/Operations/Laws.antt =====
-- What Authorize may answer, on a warm cache as on none: it fails closed, and it never panics.
use auth_sdk_go.Base.{
  ℕ, ◌≡◌, refl, ap, ◌∙◌, Bool, true, false, Option, none, some, is_some, inl, arith,
}
use auth_sdk_go.Base.Text.{Bytes}
use auth_sdk_go.Actor.{Actor}
use auth_sdk_go.ValidationCache.{Entry, Cache, Outcome, answer, failure, serve, get_with}
use auth_sdk_go.ValidationCache.Events.{Ask, perform}
use auth_sdk_go.ValidationCache.Answers.{serve-none}
use auth_sdk_go.ValidationCache.Outage.{returned, entry_at, perform-Performs}
use auth_sdk_go.Operations.{Client}
use auth_sdk_go.Operations.Answers.{
  Reply, got, failed, ApiKeyValidation, stamped, adapted, uncached, key_outcome, key_actor,
  valid_of, checked, allowed_of, validation_of, actor_of,
}

-- An answer that names nobody: `(nil, nil)`.
abbrev pub is_nil : Outcome → Bool
is_nil (answer none) = true
is_nil _ = false

pub valid_of-not_nil : (o : Outcome) → is_nil o ≡ false → is_some (valid_of o) ≡ true
unfolding valid_of
valid_of-not_nil (answer none) h = absurd cc
valid_of-not_nil (answer (some a)) h = refl
valid_of-not_nil (failure x) h = refl

pub checked-allowed : (r : Reply Bool) → allowed_of (checked r) ≡ valid_of (checked r)
unfolding valid_of
checked-allowed (got b) = refl
checked-allowed (failed x) = refl

returned-not_nil :
    (now : ℕ) (fresh : Bool) (e : Entry) (fetched : Outcome)
    → is_nil fetched ≡ false
    → is_nil (returned (serve now fresh e) fetched) ≡ false
unfolding serve
returned-not_nil now fresh e fetched h = ground arith

pub stamped-not_nil : (now : ℕ) (r : Reply Actor) → is_nil (stamped now r) ≡ false
stamped-not_nil now (got a) = refl
stamped-not_nil now (failed x) = refl

pub adapted-not_nil : (now : ℕ) (r : Reply ApiKeyValidation) → is_nil (adapted now r) ≡ false
adapted-not_nil now (got a) = refl
adapted-not_nil now (failed x) = refl

pub key_actor-adapted :
    (now : ℕ) (r : Reply ApiKeyValidation)
    → key_actor now (key_outcome (adapted now r)) ≡ key_actor now (uncached r)
unfolding key_actor validation_of actor_of
key_actor-adapted now (got v) = refl
key_actor-adapted now (failed x) = refl

-- An outcome that is there and is not nil.
abbrev pub IsThere : Option Outcome → Type 0
IsThere r = (o : Outcome) × (r ≡ some o) × (is_nil o ≡ false)

pub key_actor-IsThere :
    (now : ℕ) (o : Outcome) → is_nil o ≡ false → IsThere (key_actor now (key_outcome o))
unfolding key_actor
key_actor-IsThere now (answer none) h = absurd cc
key_actor-IsThere now (answer (some a)) h = (_, refl, refl)
key_actor-IsThere now (failure x) h = (_, refl, refl)

pub uncached-IsThere : (now : ℕ) (r : Reply ApiKeyValidation) → IsThere (key_actor now (uncached r))
unfolding key_actor
uncached-IsThere now (got v) = (_, refl, refl)
uncached-IsThere now (failed x) = (_, refl, refl)

-- The client with its cache off.
abbrev pub without_cache : Client → Client
without_cache c = record c { vcache = none }

module _ (parse_time : Bytes → Bytes → Option ℕ) where
  get_with-returned :
      (a : Ask) (v : Cache)
      → (get_with parse_time a.key a.cls a.negative_err a.not_after a.now a.fresh a.fetched v).1
        ≡ returned (serve a.now a.fresh (entry_at a.key v)) a.fetched
  unfolding perform
  get_with-returned a v = (perform-Performs parse_time a v).0

  pub get_with-not_nil :
      (a : Ask) (v : Cache)
      → is_nil a.fetched ≡ false
      → is_nil
          (get_with parse_time a.key a.cls a.negative_err a.not_after a.now a.fresh a.fetched v).1
        ≡ false
  get_with-not_nil a v h =
      ap is_nil (get_with-returned a v)
      ∙ returned-not_nil a.now a.fresh (entry_at a.key v) a.fetched h

  pub get_with-fresh :
      (a : Ask) (v : Cache)
      → a.fresh ≡ true
      → (get_with parse_time a.key a.cls a.negative_err a.not_after a.now a.fresh a.fetched v).1
        ≡ a.fetched
  get_with-fresh a v h =
      get_with-returned a v
      ∙ ap (λ o. returned o a.fetched) (serve-none a.now a.fresh (entry_at a.key v) (inl h))
