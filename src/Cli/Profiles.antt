-- ===== src/Cli/Profiles.antt =====
-- Profile names as file names.
use auth_sdk_go.Base.{
  ℕ, ◌≡◌, refl, ap, ◌∙◌, Bool, true, false, ◌&&◌, ◌||◌, [], ◌∷◌, ◌++◌, map, arith, leb, ◌==◌, All,
  Bool-cases, inl, inr,
}
use auth_sdk_go.Base.Text.{Bytes, bytes, is_empty}
use auth_sdk_go.Cli.{
  safe_rune, trim_dashes_left, trim_dashes_right, keep_unless_dash, or_default, sanitize_profile,
  profile_file, with_env,
}

-- A lower-case letter, a digit, a dash or an underscore.
abbrev is_safe : ℕ → Bool
is_safe c = (leb b'a' c && leb c b'z') || ((leb b'0' c && leb c b'9') || (c == b'-' || c == b'_'))

abbrev pub AllSafe : Bytes → Type 0
AllSafe = All λ c. is_safe c ≡ true

safe_rune-safe : (r : ℕ) → is_safe (safe_rune r) ≡ true
unfolding safe_rune
safe_rune-safe r = ground arith

map-AllSafe : (n : Bytes) → AllSafe (map safe_rune n)
map-AllSafe [] = tt
map-AllSafe (r ∷ n) = (safe_rune-safe r, map-AllSafe n)

trim_left-AllSafe : (s : Bytes) → AllSafe s → AllSafe (trim_dashes_left s)
unfolding trim_dashes_left
trim_left-AllSafe [] h = tt
trim_left-AllSafe (c ∷ s) h = elim (Bool-cases (c == b'-')) [
  | inl b ↦ rw b (trim_left-AllSafe s h.1)
  | inr b ↦ rw b h
]

keep-AllSafe : (c : ℕ) (s : Bytes) → is_safe c ≡ true → AllSafe s → AllSafe (keep_unless_dash c s)
keep-AllSafe c [] h k = elim (Bool-cases (c == b'-')) [ inl b ↦ rw b tt | inr b ↦ rw b (h, tt) ]
keep-AllSafe c (d ∷ s) h k = (h, k)

trim_right-AllSafe : (s : Bytes) → AllSafe s → AllSafe (trim_dashes_right s)
unfolding trim_dashes_right
trim_right-AllSafe [] h = tt
trim_right-AllSafe (c ∷ s) h = keep-AllSafe c (trim_dashes_right s) h.0 (trim_right-AllSafe s h.1)

or_default-safe :
    (s : Bytes) → AllSafe s → AllSafe (or_default s) × (is_empty (or_default s) ≡ false)
or_default-safe [] h = ((refl, (refl, (refl, (refl, (refl, (refl, (refl, tt))))))), refl)
or_default-safe (c ∷ s) h = (h, refl)

-- A name that is sanitized is not empty, and has only lower-case letters, digits, dashes and
-- underscores.
sanitize_profile-AllSafe :
    (n : Bytes) → AllSafe (sanitize_profile n) × (is_empty (sanitize_profile n) ≡ false)
unfolding sanitize_profile
sanitize_profile-AllSafe n =
    or_default-safe (trim_dashes_right (trim_dashes_left (map safe_rune n)))
      (trim_right-AllSafe _ (trim_left-AllSafe _ (map-AllSafe n)))

-- Sanitizing twice is sanitizing once: what is safe and has no dash at either end stays as it is.
safe_rune-id : (c : ℕ) → is_safe c ≡ true → safe_rune c ≡ c
unfolding safe_rune
safe_rune-id c h = ground arith

map-id : (s : Bytes) → AllSafe s → map safe_rune s ≡ s
map-id [] h = refl
map-id (c ∷ s) h = cc (safe_rune-id c h.0, map-id s h.1)

abbrev StartsPlain : Bytes → Type 0
StartsPlain [] = Unit
StartsPlain (c ∷ s) = (c == b'-') ≡ false

trim_left-StartsPlain : (s : Bytes) → StartsPlain (trim_dashes_left s)
unfolding trim_dashes_left
trim_left-StartsPlain [] = tt
trim_left-StartsPlain (c ∷ s) = elim (Bool-cases (c == b'-')) [
  | inl b ↦ rw b (trim_left-StartsPlain s)
  | inr b ↦ rw b b
]

keep-StartsPlain : (c : ℕ) (s : Bytes) → (c == b'-') ≡ false → StartsPlain (keep_unless_dash c s)
keep-StartsPlain c [] h = rw h h
keep-StartsPlain c (d ∷ s) h = h

trim_right-StartsPlain : (s : Bytes) → StartsPlain s → StartsPlain (trim_dashes_right s)
unfolding trim_dashes_right
trim_right-StartsPlain [] h = tt
trim_right-StartsPlain (c ∷ s) h = keep-StartsPlain c (trim_dashes_right s) h

trim_left-id : (s : Bytes) → StartsPlain s → trim_dashes_left s ≡ s
unfolding trim_dashes_left
trim_left-id [] h = refl
trim_left-id (c ∷ s) h = rw h refl

trim_right-keep :
    (c : ℕ) (t : Bytes)
    → trim_dashes_right t ≡ t
    → trim_dashes_right (keep_unless_dash c t) ≡ keep_unless_dash c t
unfolding trim_dashes_right
trim_right-keep c [] h = elim (Bool-cases (c == b'-')) [
  | inl b ↦ rw b refl
  | inr b ↦ rw b (rw b refl)
]
trim_right-keep c (d ∷ t) h = ap (keep_unless_dash c) h

trim_right_idem : (s : Bytes) → trim_dashes_right (trim_dashes_right s) ≡ trim_dashes_right s
unfolding trim_dashes_right
trim_right_idem [] = refl
trim_right_idem (c ∷ s) = trim_right-keep c (trim_dashes_right s) (trim_right_idem s)

or_default_idem :
    (s : Bytes)
    → AllSafe s
    → StartsPlain s
    → trim_dashes_right s ≡ s
    → sanitize_profile (or_default s) ≡ or_default s
unfolding sanitize_profile
or_default_idem [] h k e = refl
or_default_idem (c ∷ s) h k e =
    ap (λ t. or_default (trim_dashes_right (trim_dashes_left t))) (map-id (c ∷ s) h)
    ∙ ap (λ t. or_default (trim_dashes_right t)) (trim_left-id (c ∷ s) k)
    ∙ ap or_default e

-- A sanitized name is its own sanitized name.
sanitize_profile_idem : (n : Bytes) → sanitize_profile (sanitize_profile n) ≡ sanitize_profile n
unfolding sanitize_profile
sanitize_profile_idem n =
    let t = trim_dashes_left (map safe_rune n) in
    or_default_idem (trim_dashes_right t)
      (trim_right-AllSafe _ (trim_left-AllSafe _ (map-AllSafe n)))
      (trim_right-StartsPlain t (trim_left-StartsPlain (map safe_rune n))) (trim_right_idem t)

-- A dot and a dash become the same rune.
map-dot : (base s : Bytes) → map safe_rune (base ++ (b'.' ∷ s)) ≡ map safe_rune (base ++ (b'-' ∷ s))
unfolding safe_rune
map-dot [] s = refl
map-dot (c ∷ base) s = ap (λ t. safe_rune c ∷ t) (map-dot base s)

shared_file :
    (base s : Bytes) → profile_file (base ++ (b'.' ∷ s)) ≡ profile_file (base ++ (b'-' ∷ s))
unfolding profile_file sanitize_profile
shared_file base s =
    ap (λ t. or_default (trim_dashes_right (trim_dashes_left t)) ++ bytes ".json") (map-dot base s)

-- Every profile name is kept in a file whose name, up to its suffix, is not empty and has only
-- lower-case letters, digits, dashes and underscores, so that it names no other directory; the file of
-- a sanitized name is the file of the name. But a profile with an environment is kept in the file of
-- the profile that has the environment in its name, after a dash, and no environment.
pub profile_file-with_env :
    (n base env : Bytes)
    → is_empty env ≡ false
    → ((stem : Bytes) × (profile_file n ≡ stem ++ bytes ".json")
        × AllSafe stem
        × (is_empty stem ≡ false))
      × (profile_file (sanitize_profile n) ≡ profile_file n)
      × (profile_file (with_env base env)
          ≡ profile_file (with_env (base ++ (b'-' ∷ sanitize_profile env)) []))
unfolding profile_file with_env
profile_file-with_env n base env h =
    let (safe, some_rune) = sanitize_profile-AllSafe n in
    (
      (sanitize_profile n, refl, safe, some_rune),
      ap (λ s. s ++ bytes ".json") (sanitize_profile_idem n),
      rw h (shared_file base (sanitize_profile env)),
    )
