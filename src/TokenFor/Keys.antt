-- ===== src/TokenFor/Keys.antt =====
-- The key that a token is cached under determines the whole request for it.
use Prim.Native.String.{String}
use auth_sdk_go.Base.{
  ℕ, ◌≡◌, ◌≢◌, refl, sym, ap, subst, ◌∙◌, Bool, true, false, ◌||◌, ◌⊎◌, inl, inr, List, [], ◌∷◌,
  ◌++◌, Option, none, some, Bool-cases, length,
}
use auth_sdk_go.Base.Text.{Bytes, bytes, same, is_empty}
use auth_sdk_go.Encoding.Injective.{write_fields-injective}
use auth_sdk_go.Errors.{Err}
use auth_sdk_go.TokenFor.Answers.{App}
use auth_sdk_go.TokenFor.Scope.{normalize_scope}
use auth_sdk_go.TokenFor.{
  Fetch, machine, person, legacy, Plan, refuse, ask, token_cache_key, subject_key, actor_key,
  plan_legacy, plan_person, plan_for, token_for,
}

module _ (digest : Bytes → Bytes) (expiry : Bytes → ℕ) where
  -- What is hashed for a fetch, and the cap.
  abbrev pub key_parts : App → Fetch → List Bytes
  key_parts c (machine resource scope) = bytes "p2" ∷ c.client_id ∷ resource ∷ scope ∷ [] ∷ [] ∷ []
  key_parts c (person subject resource scope) =
      bytes "p3" ∷ c.client_id ∷ resource ∷ scope ∷ [] ∷ subject_key digest expiry subject ∷ []
  key_parts c (legacy subject resource audience scope) =
      bytes "p3-legacy"
      ∷ c.client_id
      ∷ resource
      ∷ scope
      ∷ audience
      ∷ subject_key digest expiry subject
      ∷ []

  abbrev pub upto_of : Fetch → ℕ
  upto_of (machine resource scope) = 0
  upto_of (person subject resource scope) = expiry subject
  upto_of (legacy subject resource audience scope) = expiry subject

  abbrev pub Fits : App → Plan → Type 0
  Fits c (refuse e) = Unit
  Fits c (ask k u f) = (k ≡ token_cache_key digest expiry (key_parts c f)) × (u ≡ upto_of f)

  plan_legacy-Fits :
      (c : App) (resource audience scope subject : Bytes)
      → Fits c (plan_legacy digest expiry c resource audience scope subject)
  unfolding plan_legacy
  plan_legacy-Fits c resource audience scope subject = elim (Bool-cases (is_empty audience)) [
    | inl b ↦ rw b tt
    | inr b ↦ rw b (refl, refl)
  ]

  plan_person-Fits :
      (c : App) (resource scope subject : Bytes)
      → Fits c (plan_person digest expiry c resource scope subject)
  unfolding plan_person
  plan_person-Fits c resource scope subject = elim (Bool-cases (is_empty subject)) [
    | inl b ↦ rw b tt
    | inr b ↦ elim (Bool-cases c.legacy_exchange) [
      | inl d ↦ rw (b, d) (plan_legacy-Fits c resource _ scope subject)
      | inr d ↦ elim (Bool-cases (is_empty resource)) [
        | inl e ↦ rw (b, d, e) tt
        | inr e ↦ rw (b, d, e) (refl, refl)
      ]
    ]
  ]

  plan_for-Fits :
      (c : App) (resource scope : Bytes) (session : Option (Bytes ⊎ Err))
      → Fits c (plan_for digest expiry c resource scope session)
  unfolding plan_for
  plan_for-Fits c resource scope none = (refl, refl)
  plan_for-Fits c resource scope (some (inr e)) = tt
  plan_for-Fits c resource scope (some (inl subject)) = plan_person-Fits c resource scope subject

  pub token_for-Fits :
      (c : App) (resource scope : Bytes) (session : Option (Bytes ⊎ Err))
      → Fits c (token_for digest expiry c resource scope session)
  unfolding token_for
  token_for-Fits c resource scope session =
      elim (Bool-cases (is_empty c.client_id || is_empty c.client_secret)) [
        | inl b ↦ rw b tt
        | inr b ↦ rw b (plan_for-Fits c resource (normalize_scope scope) session)
      ]

  module _ (collision_free : (x y : Bytes) → digest x ≡ digest y → x ≡ y) where
    token_cache_key-injective :
        (xs ys : List Bytes)
        → length xs ≡ length ys
        → token_cache_key digest expiry xs ≡ token_cache_key digest expiry ys
        → xs ≡ ys
    unfolding token_cache_key
    token_cache_key-injective xs ys n e =
        (write_fields-injective xs ys [] [] n (ap (λ s. s ++ []) (collision_free _ _ e))).0

    -- Does the list begin with the kind?
    abbrev is_kind : String → List Bytes → Bool
    is_kind kind [] = false
    is_kind kind (x ∷ xs) = same x (bytes kind)

    apart :
        {A : Type 0} (kind : String) (xs ys : List Bytes)
        → xs ≡ ys
        → is_kind kind xs ≡ true
        → is_kind kind ys ≡ false
        → A
    apart kind xs ys e h k = absurd (cc (sym h ∙ ap (is_kind kind) e ∙ k))

    subject_key-injective :
        (s t : Bytes) → subject_key digest expiry s ≡ subject_key digest expiry t → s ≡ t
    unfolding subject_key
    subject_key-injective s t e = cc (collision_free _ _ e)

    key_parts-injective : (c : App) (f g : Fetch) → key_parts c f ≡ key_parts c g → f ≡ g
    unfolding same
    key_parts-injective c (machine r s) (machine r' s') e = cc
    key_parts-injective c (machine r s) (person t' r' s') e = apart "p2" _ _ e refl refl
    key_parts-injective c (machine r s) (legacy t' r' a' s') e = apart "p2" _ _ e refl refl
    key_parts-injective c (person t r s) (machine r' s') e = apart "p2" _ _ (sym e) refl refl
    key_parts-injective c (person t r s) (person t' r' s') e =
        let alike = subject_key-injective t t' (cc) in cc
    key_parts-injective c (person t r s) (legacy t' r' a' s') e = apart "p3" _ _ e refl refl
    key_parts-injective c (legacy t r a s) (machine r' s') e = apart "p2" _ _ (sym e) refl refl
    key_parts-injective c (legacy t r a s) (person t' r' s') e = apart "p3" _ _ (sym e) refl refl
    key_parts-injective c (legacy t r a s) (legacy t' r' a' s') e =
        let alike = subject_key-injective t t' (cc) in cc

    length-key_parts : (c : App) (f : Fetch) → length (key_parts c f) ≡ 6
    length-key_parts c (machine r s) = refl
    length-key_parts c (person t r s) = refl
    length-key_parts c (legacy t r a s) = refl

    not_actor_kind : (c : App) (f : Fetch) → is_kind "actor" (key_parts c f) ≡ false
    unfolding same
    not_actor_kind c (machine r s) = refl
    not_actor_kind c (person t r s) = refl
    not_actor_kind c (legacy t r a s) = refl

    not_actor :
        (c : App) (f : Fetch)
        → token_cache_key digest expiry (key_parts c f) ≢ actor_key digest expiry c
    unfolding actor_key same
    not_actor c f e =
        let parts =
          token_cache_key-injective (key_parts c f)
            (bytes "actor" ∷ c.client_id ∷ [] ∷ [] ∷ [] ∷ [] ∷ []) (length-key_parts c f) e in
        apart "actor" _ _ (sym parts) refl (not_actor_kind c f)

    -- Under a digest without collisions, two calls of one client that are cached under the same key
    -- make the same fetch, for the same person, resource, audience and normalized scope, and have the
    -- same cap; and neither key is the one that the app's own actor token is cached under.
    pub token_for-key :
        (c : App) (r r' s s' : Bytes) (session session' : Option (Bytes ⊎ Err)) (k : Bytes)
        (u u' : ℕ) (f f' : Fetch)
        → token_for digest expiry c r s session ≡ ask k u f
        → token_for digest expiry c r' s' session' ≡ ask k u' f'
        → (f ≡ f') × (u ≡ u') × (k ≢ actor_key digest expiry c)
    token_for-key c r r' s s' session session' k u u' f f' a b =
        let (key, cap_is) = subst (Fits c) a (token_for-Fits c r s session) in
        let (key', cap_is') = subst (Fits c) b (token_for-Fits c r' s' session') in
        let parts =
          token_cache_key-injective (key_parts c f) (key_parts c f')
            (length-key_parts c f ∙ sym (length-key_parts c f')) (sym key ∙ key') in
        let alike = key_parts-injective c f f' parts in
        (alike, cap_is ∙ ap upto_of alike ∙ sym cap_is', λ e. not_actor c f (sym key ∙ e))
