-- ===== src/Operations/Tests.antt =====
-- The client's operations on concrete credentials, with an outage and a warm cache.
use auth_sdk_go.Base.{ℕ, ◌≡◌, refl, Bool, true, false, [], Option, none, some}
use auth_sdk_go.Base.Text.{Bytes, bytes, same, has_prefix}
use auth_sdk_go.Base.Assoc.{lookup, insert, delete}
use auth_sdk_go.Encoding.{itoa, itoa_fuel, write_field, write_fields}
use auth_sdk_go.Base.Space.{trim_space}
use auth_sdk_go.ValidationCache.{
  get_with, get, after_fetch, copy_actor, count, entry_for, evict_if_full, expiry_of, get_locked,
  serve,
}
use auth_sdk_go.ValidationCache.ActorExpiry.{parse_actor_expiry, first_layout}
use auth_sdk_go.ValidationCache.Key.{validation_key, credential_fingerprint, tagged, question_bytes}
use auth_sdk_go.Base.Time.{unix}
use auth_sdk_go.Actor.{Actor, verdict, Resource, is_zero}
use auth_sdk_go.Credential.{is_api_key}
use auth_sdk_go.Errors.{other}
use auth_sdk_go.Gate.{Decision, decided, undecided}
use auth_sdk_go.ValidationCache.Options.{new_default_cache, default_policy}
use auth_sdk_go.ValidationCache.Tests.{shifted, shifted-IsDigest}
use auth_sdk_go.Operations.Invalidated.{cached_at, invalidate_validation-cached_at}
use auth_sdk_go.Operations.{
  invalidate_validation, Moment, Client, authorize, resolve, authorize_on_resource, on_subject,
  validate_token_with, decide_on_resource, jwt_audience,
}
use auth_sdk_go.Operations.Answers.{got, failed}
use auth_sdk_go.Operations.Laws.{without_cache}
use auth_sdk_go.Operations.Authorize.{authorize-without_cache}
use auth_sdk_go.Operations.Allows.{Allows, authorize-Allows}

abbrev client : Client
client = record {
  expected_audience = bytes "api";
  expected_jwt_audience = [];
  vcache = some new_default_cache;
}

abbrev holder : Actor
holder = record (verdict true) { user_id = bytes "u1"; org_id = bytes "o1" }

-- The service knows the token, and allows its holder the resource.
abbrev up : Bool → Moment
up fresh = record {
  now = unix 100;
  later = unix 101;
  fresh = fresh;
  validate_token = λ r. got holder;
  validate_api_key = λ r. failed (other 1);
  check_permission = λ r caller. got (same r.user_id (bytes "u1"));
}

abbrev down : Bool → Moment
down fresh = record (up fresh) {
  now = unix 110;
  later = unix 110;
  validate_token = λ r. failed (other 3);
}

abbrev no_time : Bytes → Bytes → Option ℕ
no_time layout text = none

abbrev no_expiry : Bytes → ℕ
no_expiry token = 0

abbrev document : Resource
document = record { type = bytes "doc"; id = bytes "7" }

abbrev asked : Moment → Client → Client × Option Decision
asked m c = authorize no_time shifted no_expiry m (bytes "t") (bytes "read") document c

abbrev warm : Client
warm = (asked (up false) client).0

authorize-without_cache_example :
    (asked (down true) warm).1 ≡ (asked (down true) (without_cache warm)).1
authorize-without_cache_example =
    authorize-without_cache no_time shifted no_expiry (down true) (bytes "t") (bytes "read")
      document warm refl

allows : (asked (up false) client).1 ≡ some (decided true)
unfolding authorize is_zero authorize_on_resource on_subject resolve is_api_key validate_token_with
    get_with get new_default_cache decide_on_resource same validation_key credential_fingerprint
    tagged question_bytes jwt_audience parse_actor_expiry delete insert lookup has_prefix itoa
    itoa_fuel write_field write_fields trim_space after_fetch copy_actor count entry_for
    evict_if_full expiry_of first_layout get_locked serve default_policy
allows = refl

still_allows : (asked (down false) warm).1 ≡ some (decided true)
unfolding authorize is_zero authorize_on_resource on_subject resolve is_api_key validate_token_with
    get_with get new_default_cache decide_on_resource same validation_key credential_fingerprint
    tagged question_bytes jwt_audience parse_actor_expiry delete insert lookup has_prefix itoa
    itoa_fuel write_field write_fields trim_space after_fetch copy_actor count entry_for
    evict_if_full expiry_of first_layout get_locked serve default_policy
still_allows = refl

reports_outage : (asked (down true) warm).1 ≡ some (undecided (other 3))
unfolding authorize is_zero authorize_on_resource on_subject resolve is_api_key validate_token_with
    get_with get new_default_cache decide_on_resource same validation_key credential_fingerprint
    tagged question_bytes jwt_audience parse_actor_expiry delete insert lookup has_prefix itoa
    itoa_fuel write_field write_fields trim_space after_fetch copy_actor count entry_for
    evict_if_full expiry_of first_layout get_locked serve default_policy
reports_outage = refl

fresh_allows : (asked (up true) warm).1 ≡ some (decided true)
unfolding authorize is_zero authorize_on_resource on_subject resolve is_api_key validate_token_with
    get_with get new_default_cache decide_on_resource same validation_key credential_fingerprint
    tagged question_bytes jwt_audience parse_actor_expiry delete insert lookup has_prefix itoa
    itoa_fuel write_field write_fields trim_space after_fetch copy_actor count entry_for
    evict_if_full expiry_of first_layout get_locked serve default_policy
fresh_allows = refl

authorize-Allows_example : Allows false (up true) warm (bytes "t") (bytes "read") document
unfolding is_zero
authorize-Allows_example =
    authorize-Allows no_time shifted no_expiry (up true) (bytes "t") (bytes "read") document warm
      refl fresh_allows

-- After the token `t` is invalidated, nothing is cached for it under that question.
invalidate_validation-cached_at_example :
    cached_at
      (validation_key shifted (bytes "token") (bytes "t") (bytes "api") [] false)
      (invalidate_validation shifted (bytes "t") warm)
    ≡ none
unfolding same
invalidate_validation-cached_at_example =
    invalidate_validation-cached_at shifted shifted-IsDigest (bytes "token") (bytes "t") (bytes "t")
      (bytes "api") [] false warm
