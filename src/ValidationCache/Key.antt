-- ===== src/ValidationCache/Key.antt =====
-- validationcache.go: credentialFingerprint and validationKey. SHA-256 with its hexadecimal form is
-- the parameter `digest`.
use mathlib.Core.List.{append-nil, append_assoc}
use auth_sdk_go.Base.{
  ℕ, ◌≡◌, refl, sym, ap, ◌∙◌, Bool, true, false, List, [], ◌∷◌, ◌++◌, none, arith, if◌then◌else◌,
  length, Bool-cases, inl, inr,
}
use auth_sdk_go.Base.Text.{Bytes, bytes, same, same_iff, has_prefix, has_byte}
use auth_sdk_go.Base.Assoc.{lookup}
use auth_sdk_go.Encoding.{itoa, write_field, write_fields, format_bool}
use auth_sdk_go.Encoding.Injective.{
  itoa-injective, write_field-injective, write_fields-injective, head_or, tail_of,
}
use auth_sdk_go.ValidationCache.Invalidation.{drop_prefix}

-- What validationKey hashes beside the credential.
unfoldable pub question_bytes : (kind audience : Bytes) (perms : List Bytes) → Bool → Bytes
unfolding write_field write_fields
question_bytes kind audience perms include_perms =
    write_field kind
    ++ (write_field audience
        ++ (write_field (itoa (length perms))
            ++ (write_fields perms ++ write_field (format_bool include_perms))))

abbrev pub separator : ℕ
separator = b'|'

-- The bytes of a credential's fingerprint.
unfoldable pub tagged : Bytes → Bytes
tagged cred = bytes "ab0t-auth-sdk/cred" ++ (0 ∷ cred)

module _ (digest : Bytes → Bytes) where
  unfoldable pub credential_fingerprint : Bytes → Bytes
  credential_fingerprint cred = digest (tagged cred) ++ (separator ∷ [])

  unfoldable pub validation_key : (kind cred audience : Bytes) (perms : List Bytes) → Bool → Bytes
  unfolding credential_fingerprint
  validation_key kind cred audience perms include_perms =
      credential_fingerprint cred ++ digest (question_bytes kind audience perms include_perms)

format_bool-injective : (b c : Bool) → format_bool b ≡ format_bool c → b ≡ c
format_bool-injective true true e = refl
format_bool-injective true false e = cc
format_bool-injective false true e = cc
format_bool-injective false false e = refl

-- The bytes that are hashed determine every part of the question: its kind, the audience, the
-- permissions in their order, and whether permissions are wanted.
question_bytes-injective :
    (kind kind' audience audience' : Bytes) (perms perms' : List Bytes) (inc inc' : Bool)
    → question_bytes kind audience perms inc ≡ question_bytes kind' audience' perms' inc'
    → (kind ≡ kind') × (audience ≡ audience') × (perms ≡ perms') × (inc ≡ inc')
unfolding question_bytes
question_bytes-injective kind kind' audience audience' perms perms' inc inc' e =
    let (k, e1) = write_field-injective kind kind' _ _ e in
    let (a, e2) = write_field-injective audience audience' _ _ e1 in
    let (n, e3) = write_field-injective (itoa (length perms)) (itoa (length perms')) _ _ e2 in
    let (p, e4) = write_fields-injective perms perms' _ _ (itoa-injective _ _ n) e3 in
    let (b, _) =
      write_field-injective (format_bool inc) (format_bool inc') [] []
        (append-nil _ ∙ e4 ∙ sym (append-nil _)) in
    (k, a, p, format_bool-injective inc inc' b)

-- Up to the separator, a prefix is the whole.
has_prefix-separator :
    (x y d : Bytes)
    → has_byte separator x ≡ false
    → has_byte separator y ≡ false
    → has_prefix (x ++ separator ∷ d) (y ++ separator ∷ []) ≡ same x y
unfolding has_prefix has_byte same
has_prefix-separator [] [] d h k = refl
has_prefix-separator [] (b ∷ y) d h k = ground arith
has_prefix-separator (a ∷ x) [] d h k = ground arith
has_prefix-separator (a ∷ x) (b ∷ y) d h k = ground (arith, has_prefix-separator x y d)

split_separator :
    (x y c d : Bytes)
    → has_byte separator x ≡ false
    → has_byte separator y ≡ false
    → x ++ separator ∷ c ≡ y ++ separator ∷ d
    → (x ≡ y) × (c ≡ d)
unfolding has_byte
split_separator [] [] c d h k e = (refl, ap tail_of e)
split_separator [] (b ∷ y) c d h k e = absurd (ground (arith, ap (head_or 0) e))
split_separator (a ∷ x) [] c d h k e = absurd (ground (arith, ap (head_or 0) e))
split_separator (a ∷ x) (b ∷ y) c d h k e =
    let (p, q) = split_separator x y c d (ground arith) (ground arith) (ap tail_of e) in (cc, q)

tagged-injective : (c d : Bytes) → tagged c ≡ tagged d → c ≡ d
unfolding tagged
tagged-injective c d e = cc

same_of_iff : (a b c d : Bytes) → (a ≡ b → c ≡ d) → (c ≡ d → a ≡ b) → same a b ≡ same c d
same_of_iff a b c d f g = elim (Bool-cases (same a b)) [
  | inl e ↦ e ∙ sym ((same_iff c d).1 (f ((same_iff a b).0 e)))
  | inr e ↦ elim (Bool-cases (same c d)) [
    | inl k ↦ (same_iff a b).1 (g ((same_iff c d).0 k)) ∙ sym k
    | inr k ↦ e ∙ sym k
  ]
]

-- A digest as this code relies on it: a text with no separator in it (hexadecimal digits have
-- none), and another text for other bytes (no collision).
pub record IsDigest (digest : Bytes → Bytes) : Type 0 where
  pub plain : (s : Bytes) → has_byte separator (digest s) ≡ false
  pub collision_free : (s t : Bytes) → digest s ≡ digest t → s ≡ t

module _ (digest : Bytes → Bytes) (is_digest : IsDigest digest) where
  open is_digest use {plain, collision_free}

  -- The fingerprint of one credential begins the key of another only if they are the same.
  has_prefix-validation_key :
      (kind cred cred' audience : Bytes) (perms : List Bytes) (inc : Bool)
      → has_prefix
          (validation_key digest kind cred' audience perms inc)
          (credential_fingerprint digest cred)
        ≡ same cred' cred
  unfolding validation_key credential_fingerprint
  has_prefix-validation_key kind cred cred' audience perms inc =
      rw
        (append_assoc (digest (tagged cred')) (separator ∷ [])
          (digest (question_bytes kind audience perms inc)))
        (has_prefix-separator (digest (tagged cred')) (digest (tagged cred)) _ (plain _) (plain _)
          ∙ same_of_iff _ _ cred' cred (λ e. tagged-injective _ _ (collision_free _ _ e))
              (λ e. ap (λ c. digest (tagged c)) e))

  -- Two questions about two credentials share a key only if every part of them is the same.
  pub validation_key-injective :
      (kind kind' cred cred' audience audience' : Bytes) (perms perms' : List Bytes)
      (inc inc' : Bool)
      → validation_key digest kind cred audience perms inc
        ≡ validation_key digest kind' cred' audience' perms' inc'
      → (kind ≡ kind') × (cred ≡ cred') × (audience ≡ audience') × (perms ≡ perms') × (inc ≡ inc')
  unfolding validation_key credential_fingerprint
  validation_key-injective kind kind' cred cred' audience audience' perms perms' inc inc' e =
      let question = digest (question_bytes kind audience perms inc) in
      let question' = digest (question_bytes kind' audience' perms' inc') in
      let (same_cred, same_question) =
        split_separator (digest (tagged cred)) (digest (tagged cred')) question question' (plain _)
          (plain _)
          (sym (append_assoc (digest (tagged cred)) (separator ∷ []) question)
            ∙ e
            ∙ append_assoc (digest (tagged cred')) (separator ∷ []) question') in
      let (k, a, p, b) =
        question_bytes-injective kind kind' audience audience' perms perms' inc inc'
          (collision_free _ _ same_question) in
      (k, tagged-injective cred cred' (collision_free _ _ same_cred), a, p, b)

  lookup-drop_prefix :
      (prefix key : Bytes) (m : List (Bytes × ℕ))
      → lookup key (drop_prefix prefix m) ≡ (if has_prefix key prefix then none else lookup key m)
  unfolding lookup drop_prefix
  lookup-drop_prefix prefix key [] = ground arith
  lookup-drop_prefix prefix key ((k, p) ∷ m) =
      ground (arith, lookup-drop_prefix prefix key m, same_iff k key)

  -- What the loop of InvalidateValidation leaves: nothing about the credential, under whatever
  -- question it was cached, and every decision about any other credential.
  pub lookup-invalidated :
      (kind cred cred' audience : Bytes) (perms : List Bytes) (inc : Bool) (m : List (Bytes × ℕ))
      → let key = validation_key digest kind cred' audience perms inc in
        lookup key (drop_prefix (credential_fingerprint digest cred) m)
        ≡ (if same cred' cred then none else lookup key m)
  lookup-invalidated kind cred cred' audience perms inc m = rw (
    lookup-drop_prefix (credential_fingerprint digest cred) _ m,
    has_prefix-validation_key kind cred cred' audience perms inc,
  )
