-- ===== src/Cli.antt =====
-- cmd/ab0t-auth/store.go: the names of profiles, the files that they are kept in, and the choice of a
-- credential. A name from outside is the list of its runes, as `range` gives them; what is left of it
-- is ASCII. The environment variables and the files are parameters.
pub mod Arguments
pub mod Commands
pub mod Distance
pub mod Profiles
pub mod RevokeAll
pub mod Tests
use auth_sdk_go.Base.{
  ℕ, ◌+◌, Bool, true, false, not, ◌&&◌, ◌||◌, List, [], ◌∷◌, ◌++◌, Option, none, some, map, leb,
  ◌==◌, if◌then◌else◌,
}
use auth_sdk_go.Base.Text.{Bytes, bytes, has_prefix, is_empty}

-- What a rune of a name becomes.
unfoldable pub safe_rune : ℕ → ℕ
safe_rune r =
    if (leb b'a' r && leb r b'z') || ((leb b'0' r && leb r b'9') || (r == b'-' || r == b'_'))
    then r
    else if leb b'A' r && leb r b'Z'
    then r + 32
    else b'-'

-- `strings.Trim(s, "-")`
unfoldable pub trim_dashes_left : Bytes → Bytes
trim_dashes_left [] = []
trim_dashes_left (c ∷ s) = if c == b'-' then trim_dashes_left s else c ∷ s

abbrev pub keep_unless_dash : ℕ → Bytes → Bytes
keep_unless_dash c [] = if c == b'-' then [] else c ∷ []
keep_unless_dash c (d ∷ s) = c ∷ d ∷ s

unfoldable pub trim_dashes_right : Bytes → Bytes
trim_dashes_right [] = []
trim_dashes_right (c ∷ s) = keep_unless_dash c (trim_dashes_right s)

abbrev default_name : Bytes
default_name = bytes "default"

abbrev pub or_default : Bytes → Bytes
or_default s = if is_empty s then default_name else s

-- The empty name takes the same way here: no rune is left of it.
unfoldable pub sanitize_profile : Bytes → Bytes
unfolding safe_rune trim_dashes_left trim_dashes_right
sanitize_profile n = or_default (trim_dashes_right (trim_dashes_left (map safe_rune n)))

-- The file's name in the directory of profiles.
unfoldable pub profile_file : Bytes → Bytes
unfolding sanitize_profile
profile_file n = sanitize_profile n ++ bytes ".json"

unfoldable pub with_env : (base env : Bytes) → Bytes
unfolding sanitize_profile
with_env base env = if is_empty env then base else base ++ (b'.' ∷ sanitize_profile env)

unfoldable kind_of : Bytes → Bytes
unfolding has_prefix
kind_of cred = if has_prefix cred (bytes "ab0t_sk_") then bytes "api-key" else bytes "token"

pub record ResolvedCredential : Type 0 where
  pub value : Bytes
  pub source : Bytes
  pub kind : Bytes
  pub profile : Bytes

pub record Profile : Type 0 where
  pub name : Bytes
  pub token : Bytes

-- The environment variables, and what the configuration file says is the current profile.
module _ (getenv : Bytes → Bytes) (current_profile : Bytes)
    (load_profile : Bytes → Option Profile) where
  unfoldable pub base_profile_name : (flag : Bytes) → Bytes
  unfolding sanitize_profile
  base_profile_name flag =
      if not (is_empty flag)
      then sanitize_profile flag
      else if not (is_empty (getenv (bytes "AB0T_PROFILE")))
      then sanitize_profile (getenv (bytes "AB0T_PROFILE"))
      else if not (is_empty current_profile)
      then sanitize_profile current_profile
      else default_name

  unfoldable pub current_profile_name_env : (flag env_flag : Bytes) → Bytes
  unfolding base_profile_name with_env
  current_profile_name_env flag env_flag =
      with_env (base_profile_name flag)
        (if is_empty env_flag then getenv (bytes "AB0T_ENV") else env_flag)

  unfoldable pub credential_of_profile : Bytes → Option Profile → ResolvedCredential
  unfolding profile_file kind_of
  credential_of_profile name none = record { value = []; source = []; kind = []; profile = name }
  credential_of_profile name (some p) =
      if is_empty p.token
      then record { value = []; source = []; kind = []; profile = name }
      else record {
        value = p.token;
        source = profile_file name;
        kind = kind_of p.token;
        profile = p.name;
      }

  unfoldable pub credential_of_env : List Bytes → ResolvedCredential → ResolvedCredential
  unfolding kind_of
  credential_of_env [] otherwise = otherwise
  credential_of_env (v ∷ vs) otherwise =
      let rest = credential_of_env vs otherwise in
      if is_empty (getenv v) then rest else record {
        value = getenv v;
        source = b'$' ∷ v;
        kind = kind_of (getenv v);
        profile = bytes "(env)";
      }

  -- The source of a stored credential is given without its directory.
  unfoldable pub resolve_credential : (flag profile_flag env_flag : Bytes) → ResolvedCredential
  unfolding kind_of credential_of_env credential_of_profile current_profile_name_env
  resolve_credential flag profile_flag env_flag =
      let name = current_profile_name_env profile_flag env_flag in
      if is_empty flag
      then credential_of_env (bytes "AB0T_AUTH_TOKEN" ∷ bytes "AUTH_SERVICE_KEY" ∷ [])
          (credential_of_profile name (load_profile name))
      else record {
        value = flag;
        source = bytes "--token";
        kind = kind_of flag;
        profile = bytes "(flag)";
      }
