-- ===== src/ValidationCache/Invalidation.antt =====
-- validationcache.go: InvalidateValidation, ResetValidationCache and ValidationCacheStats.
use auth_sdk_go.Base.{
  ℕ, Bool, true, false, List, [], ◌∷◌, Option, none, some, if◌then◌else◌, length,
}
use auth_sdk_go.Base.Text.{Bytes, has_prefix}
use auth_sdk_go.ValidationCache.{Cache}

-- The loop of `InvalidateValidation`, given the credential's fingerprint.
unfoldable pub drop_prefix : Bytes → List (Bytes × ℕ) → List (Bytes × ℕ)
unfolding has_prefix
drop_prefix prefix [] = []
drop_prefix prefix ((k, p) ∷ m) =
    if has_prefix k prefix then drop_prefix prefix m else (k, p) ∷ drop_prefix prefix m

unfoldable pub reset : Cache → Cache
reset c = record c { entries = [] }

pub record Stats : Type 0 where
  pub enabled : Bool
  pub hits : ℕ
  pub misses : ℕ
  pub entries : ℕ

unfoldable pub stats : Option Cache → Stats
stats none = record { enabled = false; hits = 0; misses = 0; entries = 0 }
stats (some c) = record {
  enabled = true;
  hits = c.hits;
  misses = c.misses;
  entries = length c.entries;
}
