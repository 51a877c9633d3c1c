-- ===== src/Operations/Total.antt =====
-- Neither the adaptation of an API key's answer nor Authorize meets a nil answer.
use auth_sdk_go.Base.{
  ℕ, ◌≡◌, refl, ap, ◌∙◌, Bool, true, false, List, [], ◌∷◌, Option, none, some, is_some,
  if◌then◌else◌,
}
use auth_sdk_go.Base.Text.{Bytes, is_empty}
use auth_sdk_go.Actor.{Actor, Resource, is_zero, TokenValidationRequest}
use auth_sdk_go.Credential.{is_api_key}
use auth_sdk_go.Errors.{is_unauthorized}
use auth_sdk_go.Gate.{Decision}
use auth_sdk_go.ValidationCache.{Cache, Outcome, answer, failure, get, class_api_key}
use auth_sdk_go.Operations.{
  Moment, Client, validate_token_with, validate_api_key, api_key_actor, then_valid, resolve,
  authorize, authorize_unscoped, authorize_on_resource, on_subject, decide_on_resource,
}
use auth_sdk_go.Operations.Answers.{
  Reply, got, failed, ValidateApiKeyRequest, adapted, key_actor, valid_of, checked, allowed_of,
  class_of,
}
use auth_sdk_go.Operations.Laws.{
  is_nil, valid_of-not_nil, stamped-not_nil, adapted-not_nil, key_actor-IsThere, uncached-IsThere,
  IsThere, get_with-not_nil,
}

allowed_of_some : (o : Outcome) → is_some (allowed_of o) ≡ true
allowed_of_some (failure x) = refl
allowed_of_some (answer none) = refl
allowed_of_some (answer (some a)) = refl

checked_some : (r : Reply Bool) → is_some (valid_of (checked r)) ≡ true
checked_some (got b) = valid_of-not_nil (checked (got b)) refl
checked_some (failed x) = valid_of-not_nil (checked (failed x)) refl

if_some :
    (b : Bool) (x y : Client × Option Decision)
    → is_some x.1 ≡ true
    → is_some y.1 ≡ true
    → is_some (if b then x else y).1 ≡ true
if_some true x y e f = e
if_some false x y e f = f

if_IsThere :
    (b : Bool) (x y : Client × Option Outcome)
    → IsThere x.1
    → IsThere y.1
    → IsThere (if b then x else y).1
if_IsThere true x y e f = e
if_IsThere false x y e f = f

some-injective : (p o : Outcome) → some p ≡ some o → p ≡ o
some-injective p o e = cc

then_valid_some : (x : Client × Option Outcome) → IsThere x.1 → is_some (then_valid x).1 ≡ true
then_valid_some (c, none) (o, e, h) = absurd cc
then_valid_some (c, some p) (o, e, h) = valid_of-not_nil p (ap is_nil (some-injective p o e) ∙ h)

abbrev client : Bytes → Bytes → Option Cache → Client
client aud jwt_aud v = record {
  expected_audience = aud;
  expected_jwt_audience = jwt_aud;
  vcache = v;
}

module _ (parse_time : Bytes → Bytes → Option ℕ) (digest : Bytes → Bytes) (jwt_expiry : Bytes → ℕ)
    (m : Moment) where
  token_not_nil :
      (req : TokenValidationRequest) (aud jwt_aud : Bytes) (v : Option Cache)
      → is_nil (validate_token_with parse_time digest jwt_expiry m req (client aud jwt_aud v)).1
        ≡ false
  unfolding validate_token_with
  token_not_nil req aud jwt_aud none = stamped-not_nil _ _
  token_not_nil req aud jwt_aud (some v) =
      get_with-not_nil parse_time
        (record {
          key = _;
          cls = _;
          negative_err = is_unauthorized;
          not_after = _;
          now = m.now;
          fresh = m.fresh;
          fetched = _;
        })
        v (stamped-not_nil _ _)

  key_IsThere :
      (req : ValidateApiKeyRequest) (aud jwt_aud : Bytes) (v : Option Cache)
      → IsThere (
          key_actor m.now
            (validate_api_key parse_time digest jwt_expiry m req (client aud jwt_aud v)).1)
  unfolding validate_api_key get
  key_IsThere req aud jwt_aud none = uncached-IsThere _ _
  key_IsThere req aud jwt_aud (some v) =
      let asked = if is_empty req.expected_audience then aud else req.expected_audience in
      let reply = m.validate_api_key (record req { expected_audience = asked }) in
      key_actor-IsThere m.now _ (
        get_with-not_nil parse_time
          (record {
            key = _;
            cls = class_of class_api_key req.required_permissions;
            negative_err = λ _. false;
            not_after = 0;
            now = m.now;
            fresh = m.fresh;
            fetched = adapted m.now reply;
          })
          v (adapted-not_nil m.now reply))

  -- ValidateToken and the identity questions always find an answer or an error: apiKeyActor never
  -- reads a nil validation, on a warm cache or none.
  pub resolve-IsThere :
      (token : Bytes) (perms : List Bytes) (c : Client)
      → IsThere (resolve parse_time digest jwt_expiry m token perms c).1
  unfolding resolve api_key_actor
  resolve-IsThere token perms c =
      if_IsThere (is_api_key token) _ _
        (key_IsThere _ c.expected_audience c.expected_jwt_audience c.vcache)
        (_, refl, token_not_nil _ c.expected_audience c.expected_jwt_audience c.vcache)

  decide_some :
      (token action : Bytes) (resource : Resource) (a : Actor) (aud jwt_aud : Bytes)
      (v : Option Cache)
      → is_some
          (decide_on_resource parse_time digest jwt_expiry m token action resource a
            (client aud jwt_aud v)).1
        ≡ true
  unfolding decide_on_resource
  decide_some token action resource a aud jwt_aud none = checked_some _
  decide_some token action resource a aud jwt_aud (some v) =
      if_some v.explicit _ _ (checked_some _) (allowed_of_some _)

  subject_some :
      (token action : Bytes) (resource : Resource) (x : Client × Option Outcome)
      → IsThere x.1
      → is_some (on_subject parse_time digest jwt_expiry m token action resource x).1 ≡ true
  unfolding on_subject
  subject_some token action resource (c, none) (o, e, h) = absurd cc
  subject_some token action resource (c, some (failure y)) t = refl
  subject_some token action resource (c, some (answer none)) t = refl
  subject_some token action resource (c, some (answer (some a))) t =
      if_some a.valid _ _
        (decide_some token action resource a c.expected_audience c.expected_jwt_audience c.vcache)
        refl

  -- Authorize always decides or reports an error: no nil Actor is read on any path, whatever the
  -- cache holds and whatever the service answers.
  pub authorize_some :
      (token action : Bytes) (resource : Resource) (c : Client)
      → is_some (authorize parse_time digest jwt_expiry m token action resource c).1 ≡ true
  unfolding authorize authorize_unscoped authorize_on_resource
  authorize_some token action resource c =
      if_some (is_zero resource) _ _ (then_valid_some _ (resolve-IsThere token (action ∷ []) c))
        (subject_some token action resource _ (resolve-IsThere token [] c))
