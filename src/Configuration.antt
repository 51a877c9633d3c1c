-- ===== src/Configuration.antt =====
-- authclient.go: New and the options that configure a client, but for those of tokenfor.go and
-- observe.go. A duration that a caller gives may be negative. An *http.Client is what the caller
-- supplies, told apart by a number, or the default one, with its timeout.
pub mod Usable
pub mod Tests
use auth_sdk_go.Base.{
  ℕ, ◌*◌, Bool, true, false, List, [], ◌∷◌, ◌++◌, Option, none, some, ltb, ◌==◌, if◌then◌else◌, ℤ,
  pos, negsuc,
}
use auth_sdk_go.Base.Text.{Bytes, bytes, is_empty}
use auth_sdk_go.Base.Time.{second}
use auth_sdk_go.ValidationCache.{Cache}
use auth_sdk_go.ValidationCache.Options.{
  CacheOptions, with_validation_cache_options, new_default_cache,
}

pub record HttpClient : Type 0 where
  pub supplied : Option ℕ
  pub timeout : ℤ

-- The fields of Client that New and these options set.
pub record Config : Type 0 where
  pub base_url : Bytes
  pub api_key : Bytes
  pub expected_audience : Bytes
  pub expected_jwt_audience : Bytes
  pub user_agent : Bytes
  pub http : Option HttpClient
  pub timeout : ℤ
  pub max_retries : ℕ
  pub backoff_base : ℕ
  pub backoff_max : ℕ
  pub vcache : Option Cache
  pub vcache_configured : Bool

-- `strings.TrimRight(u, "/")`
unfoldable pub trim_slashes : Bytes → Bytes
trim_slashes [] = []
trim_slashes (c ∷ u) = elim (trim_slashes u) [
  | [] ↦ if c == b'/' then [] else c ∷ []
  | d ∷ r ↦ c ∷ d ∷ r
]

abbrev pub is_above : ℤ → Bool
is_above (pos n) = ltb 0 n
is_above (negsuc n) = false

-- A duration above zero in place of another one.
abbrev pub if_above : ℤ → ℕ → ℕ
if_above (pos n) d = if ltb 0 n then n else d
if_above (negsuc n) d = d

abbrev at_least_zero : ℤ → ℕ
at_least_zero (pos n) = n
at_least_zero (negsuc n) = 0

pub data ClientOption : Type 0 where
  with_base_url with_api_key with_user_agent : Bytes → ClientOption
  with_expected_audience with_expected_jwt_audience : Bytes → ClientOption
  with_http_client : Option HttpClient → ClientOption
  with_timeout with_max_retries : ℤ → ClientOption
  with_backoff : (base max : ℤ) → ClientOption
  with_validation_cache : CacheOptions → ClientOption

unfoldable pub configure : ClientOption → Config → Config
unfolding trim_slashes with_validation_cache_options
configure (with_base_url u) c = if is_empty u then c else record c { base_url = trim_slashes u }
configure (with_api_key key) c = record c { api_key = key }
configure (with_user_agent ua) c = if is_empty ua then c else record c { user_agent = ua }
configure (with_expected_audience aud) c = record c { expected_audience = aud }
configure (with_expected_jwt_audience aud) c = record c { expected_jwt_audience = aud }
configure (with_http_client none) c = c
configure (with_http_client (some h)) c = record c { http = some h }
configure (with_timeout d) c = record c { timeout = d }
configure (with_max_retries n) c = record c { max_retries = at_least_zero n }
configure (with_backoff base max) c = record c {
  backoff_base = if_above base c.backoff_base;
  backoff_max = if_above max c.backoff_max;
}
configure (with_validation_cache o) c = record c {
  vcache = with_validation_cache_options o;
  vcache_configured = true;
}

unfoldable pub configure_all : List ClientOption → Config → Config
unfolding configure
configure_all [] c = c
configure_all (o ∷ opts) c = configure_all opts (configure o c)

-- The *http.Client that New ends up with: a supplied one with no timeout gets the client's.
unfoldable pub http_of : Option HttpClient → (timeout : ℤ) → HttpClient
http_of none timeout = record { supplied = none; timeout = timeout }
http_of (some h) timeout = elim h.timeout [
  | negsuc n ↦ h
  | pos n ↦ if n == 0 then if is_above timeout then record h { timeout = timeout } else h else h
]

abbrev millisecond : ℕ
millisecond = 1000000

abbrev pub default_base_url : Bytes
default_base_url = bytes "https://auth.service.ab0t.com"

abbrev version : Bytes
version = bytes "0.12.2"

abbrev default_user_agent : Bytes
default_user_agent = bytes "ab0t-auth-sdk-go/" ++ version

abbrev default_timeout : ℤ
default_timeout = pos (15 * second)

abbrev default_max_retries : ℕ
default_max_retries = 2

unfoldable pub initial : (base_url : Bytes) → Config
unfolding trim_slashes
initial base_url = record {
  base_url = trim_slashes (if is_empty base_url then default_base_url else base_url);
  api_key = [];
  expected_audience = [];
  expected_jwt_audience = [];
  user_agent = default_user_agent;
  http = none;
  timeout = default_timeout;
  max_retries = default_max_retries;
  backoff_base = 200 * millisecond;
  backoff_max = 5 * second;
  vcache = none;
  vcache_configured = false;
}

-- The end of New, after the options.
unfoldable pub complete : Config → Config
unfolding http_of new_default_cache
complete c = record c {
  http = some (http_of c.http c.timeout);
  vcache = if c.vcache_configured then c.vcache else some new_default_cache;
}

unfoldable pub new : (base_url : Bytes) → List ClientOption → Config
unfolding initial configure_all complete
new base_url opts = complete (configure_all opts (initial base_url))
