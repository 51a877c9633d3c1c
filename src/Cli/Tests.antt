-- ===== src/Cli/Tests.antt =====
-- Profile names and credentials at concrete inputs.
use auth_sdk_go.Base.{◌≡◌, refl, false, [], ◌∷◌, ◌++◌, Option, none, if◌then◌else◌}
use auth_sdk_go.Base.Text.{Bytes, bytes, same, is_empty}
use auth_sdk_go.Cli.{Profile, sanitize_profile, profile_file, with_env, resolve_credential}
use auth_sdk_go.Cli.Profiles.{AllSafe, profile_file-with_env}

escaping : sanitize_profile (bytes "../Etc/pass wd") ≡ bytes "etc-pass-wd"
unfolding sanitize_profile
escaping = refl

nothing_left : sanitize_profile (bytes "..") ≡ bytes "default"
unfolding sanitize_profile
nothing_left = refl

-- The profile `acme` in the environment `prod`, and the profile `acme-prod`.
environment : profile_file (with_env (bytes "acme") (bytes "prod")) ≡ bytes "acme-prod.json"
unfolding profile_file with_env
environment = refl

abbrev no_profiles : Bytes → Option Profile
no_profiles name = none

abbrev set_variable : Bytes → Bytes
set_variable name = if same name (bytes "AUTH_SERVICE_KEY") then bytes "ab0t_sk_1" else []

from_environment :
    (resolve_credential set_variable [] no_profiles [] [] []).source ≡ bytes "$AUTH_SERVICE_KEY"
unfolding resolve_credential same
from_environment = refl

flag_wins : (resolve_credential set_variable [] no_profiles (bytes "t") [] []).kind ≡ bytes "token"
unfolding resolve_credential same
flag_wins = refl

profile_file-with_env_example :
    ((stem : Bytes) × (profile_file (bytes "../X") ≡ stem ++ bytes ".json")
      × AllSafe stem
      × (is_empty stem ≡ false))
    × (profile_file (sanitize_profile (bytes "../X")) ≡ profile_file (bytes "../X"))
    × (profile_file (with_env (bytes "acme") (bytes "prod"))
        ≡ profile_file (with_env (bytes "acme" ++ (b'-' ∷ sanitize_profile (bytes "prod"))) []))
profile_file-with_env_example =
    profile_file-with_env (bytes "../X") (bytes "acme") (bytes "prod") refl
