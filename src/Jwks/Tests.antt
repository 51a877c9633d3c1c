-- ===== src/Jwks/Tests.antt =====
-- The key set cache on concrete histories.
use auth_sdk_go.Base.{
  ℕ, ◌+◌, ◌*◌, ◌≤◌, ◌<◌, ◌≡◌, refl, Bool, true, false, none, List, [], ◌∷◌, arith, length,
}
use auth_sdk_go.Base.Text.{bytes, same}
use auth_sdk_go.Base.Assoc.{lookup}
use auth_sdk_go.Base.Time.{second}
use auth_sdk_go.Errors.{other}
use auth_sdk_go.Jwks.{
  Entry, Cache, new_entry, fetched_keys, fetch_failed, get_entry, refresh_entry, entry,
  jwks_unknown_kid_cooldown,
}
use auth_sdk_go.Jwks.Cooldown.{Use, unknown_kid, ordinary, forced_requests, forced_requests-le}
use auth_sdk_go.Jwks.Bound.{entry_over_bound}
use auth_sdk_go.Jwks.Stale.{use_all, get_entry-use_all, IsKeys}

abbrev at : ℕ → ℕ
at s = s * second

abbrev held : Entry
held = record new_entry { fetched = at 1 }

-- Three tokens with unknown key ids within a minute and a half, the service failing.
abbrev storm : List Use
storm =
    unknown_kid (at 10) (at 11) (fetch_failed (other 1))
    ∷ unknown_kid (at 30) (at 31) (fetch_failed (other 1))
    ∷ ordinary (at 600) (at 40) (at 41) false (fetch_failed (other 1))
    ∷ unknown_kid (at 90) (at 91) (fetched_keys [])
    ∷ []

storm_test : forced_requests jwks_unknown_kid_cooldown storm held ≡ 2
unfolding forced_requests refresh_entry get_entry
storm_test = refl

forced_requests-le_example :
    forced_requests jwks_unknown_kid_cooldown storm held * jwks_unknown_kid_cooldown + at 10
    ≤ at 90 + jwks_unknown_kid_cooldown
forced_requests-le_example =
    forced_requests-le jwks_unknown_kid_cooldown (at 10) (at 90) storm held (omega arith)
      (omega arith) (omega arith)

get_entry-use_all_example :
    IsKeys
      (get_entry
        (at 600)
        (at 900)
        (at 901)
        false
        (fetch_failed (other 2))
        (use_all jwks_unknown_kid_cooldown storm held)).1
get_entry-use_all_example =
    get_entry-use_all jwks_unknown_kid_cooldown (at 600) (at 900) (at 901) false
      (fetch_failed (other 2)) storm held (omega arith) (omega arith, refl)

abbrev small : Bool → Cache
small busy = record {
  ttl = at 600;
  kid_cooldown = at 60;
  max_entries = 1;
  entries = (bytes "/a", record held { once = busy }) ∷ [];
}

missing : lookup (bytes "/b") (small true).entries ≡ none
unfolding lookup same
missing = refl

entry_over_bound_example : 1 < length (entry (bytes "/b") (small true)).1.entries
entry_over_bound_example = entry_over_bound (bytes "/b") (small true) missing refl (omega arith)
