-- ===== src/Configuration/Tests.antt =====
-- Clients with some options, and the theorem on all of them at one.
use auth_sdk_go.Base.{◌≡◌, ◌<◌, refl, false, List, [], ◌∷◌, some, pos, negsuc}
use auth_sdk_go.Base.Text.{bytes, is_empty}
use auth_sdk_go.ValidationCache.Options.{new_default_cache}
use auth_sdk_go.Configuration.{
  HttpClient, ClientOption, with_timeout, with_http_client, with_max_retries, new,
}
use auth_sdk_go.Configuration.Usable.{ends_in_slash, TimesOut, new-IsUsable}

abbrev opts : List ClientOption
opts =
    with_http_client (some (record { supplied = some 1; timeout = pos 0 }))
    ∷ with_max_retries (negsuc 0)
    ∷ with_timeout (pos 7)
    ∷ []

last_slashes : (new (bytes "https://a//") opts).base_url ≡ bytes "https://a"
unfolding new
last_slashes = refl

given_timeout : (new [] opts).http ≡ some (record { supplied = some 1; timeout = pos 7 })
unfolding new
given_timeout = refl

no_retries : (new [] opts).max_retries ≡ 0
unfolding new
no_retries = refl

new-IsUsable_example :
    (ends_in_slash (new (bytes "https://a//") opts).base_url ≡ false)
    × (is_empty (new (bytes "https://a//") opts).user_agent ≡ false)
    × (0 < (new (bytes "https://a//") opts).backoff_base)
    × (0 < (new (bytes "https://a//") opts).backoff_max)
    × ((h : HttpClient) × ((new (bytes "https://a//") opts).http ≡ some h)
        × TimesOut (some (record { supplied = some 1; timeout = pos 0 })) (pos 7) h)
    × ((new (bytes "https://a//") opts).vcache ≡ some new_default_cache)
new-IsUsable_example = new-IsUsable (bytes "https://a//") opts
