-- ===== src/ValidationCache/Events.antt =====
-- validationcache.go over time: the calls of getWith, InvalidateValidation and ResetValidationCache
-- as events, and what a list of them does to a cache. The section's parameter is time.Parse.
use auth_sdk_go.Base.{ℕ, Bool, List, [], ◌∷◌, Option}
use auth_sdk_go.Base.Text.{Bytes}
use auth_sdk_go.Errors.{Err}
use auth_sdk_go.ValidationCache.{CacheClass, Outcome, Cache, get_with}
use auth_sdk_go.ValidationCache.Invalidation.{drop_prefix, reset}

-- One call of getWith, with what the service would answer.
pub record Ask : Type 0 where
  pub key : Bytes
  pub cls : CacheClass
  pub negative_err : Err → Bool
  pub not_after : ℕ
  pub now : ℕ
  pub fresh : Bool
  pub fetched : Outcome

-- What is done to a cache over time. `invalidate` carries the credential's fingerprint.
pub data Event : Type 0 where
  ask : Ask → Event
  invalidate : Bytes → Event
  reset_all : Event

module _ (parse_time : Bytes → Bytes → Option ℕ) where
  unfoldable pub perform : Ask → Cache → Cache × Outcome
  unfolding get_with
  perform a c = get_with parse_time a.key a.cls a.negative_err a.not_after a.now a.fresh a.fetched c

  unfoldable pub step : Event → Cache → Cache
  unfolding perform drop_prefix reset
  step (ask a) c = (perform a c).0
  step (invalidate prefix) c = record c { entries = drop_prefix prefix c.entries }
  step reset_all c = reset c

  unfoldable pub run : List Event → Cache → Cache
  unfolding step
  run [] c = c
  run (e ∷ es) c = run es (step e c)
