-- ===== src/Credential/Headers.antt =====
-- Which header of a request carries the credential.
use auth_sdk_go.Base.{
  ◌≡◌, refl, ◌∙◌, Bool, true, false, ◌||◌, [], ◌∷◌, none, some, if◌then◌else◌, Bool-cases, inl, inr,
}
use auth_sdk_go.Base.Text.{Bytes, bytes, is_empty, same, has_prefix}
use auth_sdk_go.Base.Assoc.{lookup, insert, lookup-insert}
use auth_sdk_go.Credential.{
  is_api_key, looks_like_jwt, credential_header, bearer, Headers, apply_base, apply_common,
}

abbrev pub authorization : Bytes
authorization = bytes "Authorization"

abbrev x_api_key : Bytes
x_api_key = bytes "X-API-Key"

collapse :
    (b d : Bool) (x y : Bytes × Bytes)
    → (if b then x else if d then y else y) ≡ (if b then x else y)
collapse true d x y = refl
collapse false true x y = refl
collapse false false x y = refl

-- The header that a credential goes into, by its kind.
credential_header_lem :
    (c : Bytes)
    → credential_header c ≡ (
        if is_empty c
        then ([], [])
        else if is_api_key c
        then (x_api_key, c)
        else (authorization, bearer c))
unfolding credential_header
credential_header_lem [] = refl
credential_header_lem (x ∷ c) =
    collapse (is_api_key (x ∷ c)) (looks_like_jwt (x ∷ c)) (x_api_key, x ∷ c)
      (authorization, bearer (x ∷ c))

lookup-apply_base :
    (user_agent : Bytes) (h : Headers)
    → (lookup authorization (apply_base user_agent h) ≡ lookup authorization h)
      × (lookup x_api_key (apply_base user_agent h) ≡ lookup x_api_key h)
unfolding apply_base same
lookup-apply_base user_agent h = elim (Bool-cases (is_empty user_agent)) [
  | inl e ↦ rw e (lookup-insert _ authorization _ h, lookup-insert _ x_api_key _ h)
  | inr e ↦ rw e (
    lookup-insert _ authorization _ _ ∙ lookup-insert _ authorization _ h,
    lookup-insert _ x_api_key _ _ ∙ lookup-insert _ x_api_key _ h,
  )
]

-- The headers with the credential's own put in.
abbrev put : Bytes × Bytes → Headers → Headers
put (name, value) h = if is_empty name then h else insert name value h

-- An API key is in X-API-Key alone, another credential in Authorization alone, and none in neither.
abbrev pub CarriesOne : (c : Bytes) → Headers → Type 0
CarriesOne c h =
    (lookup x_api_key h ≡ (if is_api_key c then some c else none))
    × (lookup authorization h ≡ (if is_empty c || is_api_key c then none else some (bearer c)))

put-CarriesOne :
    (c : Bytes) (h : Headers)
    → lookup authorization h ≡ none
    → lookup x_api_key h ≡ none
    → CarriesOne c (put (credential_header c) h)
unfolding same is_api_key has_prefix
put-CarriesOne [] h a x = rw (credential_header_lem []) (x, a)
put-CarriesOne (b ∷ c) h a x = elim (Bool-cases (is_api_key (b ∷ c))) [
  | inl e ↦
      rw (credential_header_lem (b ∷ c), e)
        (lookup-insert x_api_key x_api_key _ h, lookup-insert x_api_key authorization _ h ∙ a)
  | inr e ↦
      rw (credential_header_lem (b ∷ c), e)
        (
          lookup-insert authorization x_api_key _ h ∙ x,
          lookup-insert authorization authorization _ h,
        )
]

-- A request that has no credential header yet gets exactly one for the credential, or for the
-- client's service key where there is none: an API key goes into X-API-Key and never into
-- Authorization, another credential into Authorization as a bearer, and without either no
-- credential header is set.
pub apply_common-CarriesOne :
    (user_agent api_key : Bytes) (h : Headers) (cred : Bytes)
    → lookup authorization h ≡ none
    → lookup x_api_key h ≡ none
    → CarriesOne (if is_empty cred then api_key else cred) (apply_common user_agent api_key h cred)
unfolding apply_common
apply_common-CarriesOne user_agent api_key h cred a x =
    put-CarriesOne (if is_empty cred then api_key else cred) (apply_base user_agent h)
      ((lookup-apply_base user_agent h).0 ∙ a) ((lookup-apply_base user_agent h).1 ∙ x)
