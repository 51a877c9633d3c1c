-- ===== src/Configuration/Usable.antt =====
-- What every configuration of a client has.
use auth_sdk_go.Base.{
  ℕ, ◌≡◌, ◌≢◌, ◌<◌, ◌⊎◌, refl, subst, ap, ◌∙◌, Bool, true, false, List, [], ◌∷◌, Option, none, some,
  arith, if◌then◌else◌, ℤ, pos, negsuc, ◌==◌,
}
use auth_sdk_go.Base.Text.{Bytes, is_empty}
use auth_sdk_go.ValidationCache.{Cache}
use auth_sdk_go.ValidationCache.Options.{with_validation_cache_options, new_default_cache}
use auth_sdk_go.Configuration.{
  HttpClient, Config, trim_slashes, is_above, if_above, ClientOption, with_base_url, with_api_key,
  with_user_agent, with_expected_audience, with_expected_jwt_audience, with_http_client,
  with_timeout, with_max_retries, with_backoff, with_validation_cache, configure, configure_all,
  http_of, initial, complete, new, default_base_url,
}

abbrev pub ends_in_slash : Bytes → Bool
ends_in_slash [] = false
ends_in_slash (c ∷ []) = c == b'/'
ends_in_slash (c ∷ d ∷ u) = ends_in_slash (d ∷ u)

trim_slashes-end : (u : Bytes) → ends_in_slash (trim_slashes u) ≡ false
unfolding trim_slashes
trim_slashes-end [] = refl
trim_slashes-end (c ∷ u) = ground (arith, trim_slashes-end u)

-- What holds of a configuration after any options.
record IsSound (c : Config) : Type 0 where
  base_url : ends_in_slash c.base_url ≡ false
  user_agent : is_empty c.user_agent ≡ false
  backoff_base : 0 < c.backoff_base
  backoff_max : 0 < c.backoff_max

initial-IsSound : (url : Bytes) → IsSound (initial url)
unfolding initial
initial-IsSound url = record {
  base_url = trim_slashes-end (if is_empty url then default_base_url else url);
  user_agent = refl;
  backoff_base = omega arith;
  backoff_max = omega arith;
}

if_above_pos : (z : ℤ) (d : ℕ) → 0 < d → 0 < if_above z d
if_above_pos (pos n) d h = ground arith
if_above_pos (negsuc n) d h = h

configure-IsSound : (o : ClientOption) (c : Config) → IsSound c → IsSound (configure o c)
unfolding configure
configure-IsSound (with_base_url u) c h = ground (arith, trim_slashes-end u)
configure-IsSound (with_api_key key) c h = ground arith
configure-IsSound (with_user_agent ua) c h = ground arith
configure-IsSound (with_expected_audience aud) c h = ground arith
configure-IsSound (with_expected_jwt_audience aud) c h = ground arith
configure-IsSound (with_http_client none) c h = h
configure-IsSound (with_http_client (some client)) c h = ground arith
configure-IsSound (with_timeout d) c h = ground arith
configure-IsSound (with_max_retries n) c h = ground arith
configure-IsSound (with_backoff base max) c h =
    ground (arith, if_above_pos base c.backoff_base, if_above_pos max c.backoff_max)
configure-IsSound (with_validation_cache o) c h = ground arith

configure_all-IsSound :
    (opts : List ClientOption) (c : Config) → IsSound c → IsSound (configure_all opts c)
unfolding configure_all
configure_all-IsSound [] c h = h
configure_all-IsSound (o ∷ opts) c h =
    configure_all-IsSound opts (configure o c) (configure-IsSound o c h)

-- What the options say last of the cache of answers, if they say anything: the cache, or none.
abbrev caching : ClientOption → Option (Option Cache) → Option (Option Cache)
caching (with_validation_cache o) said = some (with_validation_cache_options o)
caching _ said = said

abbrev pub last_caching : List ClientOption → Option (Option Cache) → Option (Option Cache)
last_caching [] said = said
last_caching (o ∷ opts) said = last_caching opts (caching o said)

abbrev pub or_default_cache : Option (Option Cache) → Option Cache
or_default_cache none = some new_default_cache
or_default_cache (some v) = v

-- The last timeout that the options set.
abbrev timeout_by : ClientOption → ℤ → ℤ
timeout_by (with_timeout d) timeout = d
timeout_by _ timeout = timeout

abbrev pub last_timeout : List ClientOption → ℤ → ℤ
last_timeout [] timeout = timeout
last_timeout (o ∷ opts) timeout = last_timeout opts (timeout_by o timeout)

-- The last HTTP client that the options supply.
abbrev client_by : ClientOption → Option HttpClient → Option HttpClient
client_by (with_http_client (some h)) client = some h
client_by _ client = client

abbrev pub last_client : List ClientOption → Option HttpClient → Option HttpClient
last_client [] client = client
last_client (o ∷ opts) client = last_client opts (client_by o client)

abbrev said_by : Config → Option (Option Cache)
said_by c = if c.vcache_configured then some c.vcache else none

configure_lem :
    (o : ClientOption) (c : Config)
    → (said_by (configure o c) ≡ caching o (said_by c))
      × ((configure o c).timeout ≡ timeout_by o c.timeout)
      × ((configure o c).http ≡ client_by o c.http)
unfolding configure
configure_lem (with_base_url u) c = ground arith
configure_lem (with_api_key key) c = (refl, refl, refl)
configure_lem (with_user_agent ua) c = ground arith
configure_lem (with_expected_audience aud) c = (refl, refl, refl)
configure_lem (with_expected_jwt_audience aud) c = (refl, refl, refl)
configure_lem (with_http_client none) c = (refl, refl, refl)
configure_lem (with_http_client (some client)) c = (refl, refl, refl)
configure_lem (with_timeout d) c = (refl, refl, refl)
configure_lem (with_max_retries n) c = (refl, refl, refl)
configure_lem (with_backoff base max) c = (refl, refl, refl)
configure_lem (with_validation_cache o) c = (refl, refl, refl)

configure_all_lem :
    (opts : List ClientOption) (c : Config)
    → (said_by (configure_all opts c) ≡ last_caching opts (said_by c))
      × ((configure_all opts c).timeout ≡ last_timeout opts c.timeout)
      × ((configure_all opts c).http ≡ last_client opts c.http)
unfolding configure_all
configure_all_lem [] c = (refl, refl, refl)
configure_all_lem (o ∷ opts) c =
    let (said, timeout, client) = configure_lem o c in
    let (p, q, r) = configure_all_lem opts (configure o c) in
    (
      p ∙ ap (last_caching opts) said,
      q ∙ ap (last_timeout opts) timeout,
      r ∙ ap (last_client opts) client,
    )

-- The HTTP client that `h` is for what was supplied: the default one times out as configured, and so
-- does a supplied one that has no timeout, if the configured one is above zero; any other keeps its
-- own.
abbrev pub TimesOut : Option HttpClient → ℤ → HttpClient → Type 0
TimesOut none timeout h = (h.supplied ≡ none) × (h.timeout ≡ timeout)
TimesOut (some g) timeout h =
    (h.supplied ≡ g.supplied)
    × (((g.timeout ≡ pos 0) × (is_above timeout ≡ true) × (h.timeout ≡ timeout))
        ⊎ (((g.timeout ≢ pos 0) ⊎ (is_above timeout ≡ false)) × (h.timeout ≡ g.timeout)))

http_of-TimesOut : (h : Option HttpClient) (timeout : ℤ) → TimesOut h timeout (http_of h timeout)
unfolding http_of
http_of-TimesOut none timeout = (refl, refl)
http_of-TimesOut (some g) timeout = ground arith

cache_by :
    (configured : Bool) (v : Option Cache)
    → (if configured then v else some new_default_cache)
      ≡ or_default_cache (if configured then some v else none)
cache_by true v = refl
cache_by false v = refl

-- Whatever the base URL and the options: the base URL of the client does not end in a slash, its user
-- agent is not empty, its delays between attempts start and end above zero. Its HTTP client is the
-- last one supplied, with its own timeout, but for one of zero, which gives way to the configured
-- timeout if that is above zero; if none is supplied, it is the default one with the configured
-- timeout. The configured timeout is the last that an option sets, else 15 seconds. Its cache of
-- answers is what the last option about it makes, none where that turns it off, and the default one
-- if there is no such option.
pub new-IsUsable :
    (base_url : Bytes) (opts : List ClientOption)
    → (ends_in_slash (new base_url opts).base_url ≡ false)
      × (is_empty (new base_url opts).user_agent ≡ false)
      × (0 < (new base_url opts).backoff_base)
      × (0 < (new base_url opts).backoff_max)
      × ((h : HttpClient) × ((new base_url opts).http ≡ some h)
          × TimesOut (last_client opts none) (last_timeout opts (pos 15_000_000_000)) h)
      × ((new base_url opts).vcache ≡ or_default_cache (last_caching opts none))
unfolding new complete initial
new-IsUsable base_url opts =
    let c = configure_all opts (initial base_url) in
    let sound = configure_all-IsSound opts (initial base_url) (initial-IsSound base_url) in
    let (said, timeout, client) = configure_all_lem opts (initial base_url) in
    (
      sound.base_url,
      sound.user_agent,
      sound.backoff_base,
      sound.backoff_max,
      (
        http_of c.http c.timeout,
        refl,
        subst (λ t. TimesOut (last_client opts none) t (http_of c.http c.timeout)) timeout
            (subst (λ g. TimesOut g c.timeout (http_of c.http c.timeout)) client
              (http_of-TimesOut c.http c.timeout)),
      ),
      cache_by c.vcache_configured c.vcache ∙ ap or_default_cache said,
    )
