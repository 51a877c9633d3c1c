-- ===== src/Operations/Authorize.antt =====
-- Authorize as a whole: that a cached client answers a fresh question as one without a cache, that
-- it never panics, and when it allows.
use auth_sdk_go.Base.{
  ℕ, ◌≡◌, refl, sym, ap, ◌∙◌, Bool, true, false, List, [], ◌∷◌, Option, none, some, if◌then◌else◌,
  inl, inr, Bool-cases,
}
use auth_sdk_go.Base.Text.{Bytes, is_empty}
use auth_sdk_go.Actor.{Actor, Resource, is_zero, TokenValidationRequest}
use auth_sdk_go.Credential.{is_api_key}
use auth_sdk_go.Errors.{is_unauthorized}
use auth_sdk_go.Gate.{Decision}
use auth_sdk_go.ValidationCache.{Cache, Outcome, answer, failure, get, class_decision}
use auth_sdk_go.Operations.{
  Moment, Client, jwt_audience, validate_token_with, validate_api_key, api_key_actor, check_request,
  then_valid, resolve, authorize, authorize_unscoped, authorize_on_resource, on_subject,
  decide_on_resource,
}
use auth_sdk_go.Operations.Answers.{
  ValidateApiKeyRequest, adapted, key_outcome, key_actor, valid_of, checked, allowed_of,
}
use auth_sdk_go.Operations.Laws.{checked-allowed, key_actor-adapted, get_with-fresh, without_cache}

abbrev client : Bytes → Bytes → Option Cache → Client
client aud jwt_aud v = record {
  expected_audience = aud;
  expected_jwt_audience = jwt_aud;
  vcache = v;
}

if_same :
    (b : Bool) (x y x' y' : Client × Option Decision)
    → x.1 ≡ x'.1
    → y.1 ≡ y'.1
    → (if b then x else y).1 ≡ (if b then x' else y').1
if_same true x y x' y' e f = e
if_same false x y x' y' e f = f

if_either :
    (b : Bool) (x y : Client × Option Decision) (d : Option Decision)
    → x.1 ≡ d
    → y.1 ≡ d
    → (if b then x else y).1 ≡ d
if_either true x y d e f = e
if_either false x y d e f = f

module _ (parse_time : Bytes → Bytes → Option ℕ) (digest : Bytes → Bytes) (jwt_expiry : Bytes → ℕ)
    (m : Moment) where
  token_fresh :
      (req : TokenValidationRequest) (aud jwt_aud : Bytes) (v : Option Cache)
      → m.fresh ≡ true
      → (validate_token_with parse_time digest jwt_expiry m req (client aud jwt_aud v)).1
        ≡ (validate_token_with parse_time digest jwt_expiry m req (client aud jwt_aud none)).1
  unfolding validate_token_with jwt_audience
  token_fresh req aud jwt_aud none f = refl
  token_fresh req aud jwt_aud (some v) f =
      get_with-fresh parse_time
        (record {
          key = _;
          cls = _;
          negative_err = is_unauthorized;
          not_after = _;
          now = m.now;
          fresh = m.fresh;
          fetched = _;
        })
        v f

  key_fresh :
      (req : ValidateApiKeyRequest) (aud jwt_aud : Bytes) (v : Option Cache)
      → m.fresh ≡ true
      → key_actor m.now
          (validate_api_key parse_time digest jwt_expiry m req (client aud jwt_aud v)).1
        ≡ key_actor m.now
            (validate_api_key parse_time digest jwt_expiry m req (client aud jwt_aud none)).1
  unfolding validate_api_key get
  key_fresh req aud jwt_aud none f = refl
  key_fresh req aud jwt_aud (some v) f =
      let aud' = if is_empty req.expected_audience then aud else req.expected_audience in
      let reply = m.validate_api_key (record req { expected_audience = aud' }) in
      ap (λ o. key_actor m.now (key_outcome o))
        (get_with-fresh parse_time
          (record {
            key = _;
            cls = _;
            negative_err = λ _. false;
            not_after = 0;
            now = m.now;
            fresh = m.fresh;
            fetched = adapted m.now reply;
          })
          v f)
      ∙ key_actor-adapted m.now reply

  pub resolve_fresh :
      (token : Bytes) (perms : List Bytes) (aud jwt_aud : Bytes) (v : Option Cache)
      → m.fresh ≡ true
      → (resolve parse_time digest jwt_expiry m token perms (client aud jwt_aud v)).1
        ≡ (resolve parse_time digest jwt_expiry m token perms (client aud jwt_aud none)).1
  unfolding resolve api_key_actor jwt_audience
  resolve_fresh token perms aud jwt_aud v f = elim (Bool-cases (is_api_key token)) [
    | inl e ↦ rw e (key_fresh _ aud jwt_aud v f)
    | inr e ↦ rw e (ap some (token_fresh _ aud jwt_aud v f))
  ]

  pub decide_fresh :
      (token action : Bytes) (resource : Resource) (a : Actor) (aud jwt_aud : Bytes)
      (v : Option Cache)
      → m.fresh ≡ true
      → (decide_on_resource parse_time digest jwt_expiry m token action resource a
          (client aud jwt_aud v)).1
        ≡ valid_of (checked (m.check_permission (check_request a action resource) token))
  unfolding decide_on_resource get
  decide_fresh token action resource a aud jwt_aud none f = refl
  decide_fresh token action resource a aud jwt_aud (some v) f = if_either v.explicit _ _ _ refl (
      ap allowed_of (
        get_with-fresh parse_time
          (record {
            key = _;
            cls = class_decision;
            negative_err = λ _. false;
            not_after = jwt_expiry token;
            now = m.later;
            fresh = m.fresh;
            fetched = checked (m.check_permission (check_request a action resource) token);
          })
          v f)
      ∙ checked-allowed _)

  -- A fresh question on the resource is answered by the subject alone, whatever the client.
  subject_fresh :
      (token action : Bytes) (resource : Resource) (c d : Client) (r : Option Outcome)
      → m.fresh ≡ true
      → (on_subject parse_time digest jwt_expiry m token action resource (c, r)).1
        ≡ (on_subject parse_time digest jwt_expiry m token action resource (d, r)).1
  unfolding on_subject
  subject_fresh token action resource c d none f = refl
  subject_fresh token action resource c d (some (failure x)) f = refl
  subject_fresh token action resource c d (some (answer none)) f = refl
  subject_fresh token action resource c d (some (answer (some a))) f =
      if_same a.valid _ _ _ _
        (decide_fresh token action resource a c.expected_audience c.expected_jwt_audience c.vcache f
          ∙ sym (
              decide_fresh token action resource a d.expected_audience d.expected_jwt_audience
                d.vcache f))
        refl

  then_valid-snd : (x y : Client × Option Outcome) → x.1 ≡ y.1 → (then_valid x).1 ≡ (then_valid y).1
  then_valid-snd (c, none) (d, none) e = refl
  then_valid-snd (c, none) (d, some p) e = absurd cc
  then_valid-snd (c, some o) (d, none) e = absurd cc
  then_valid-snd (c, some o) (d, some p) e = ap valid_of cc

  on_subject-snd :
      (token action : Bytes) (resource : Resource) (x y : Client × Option Outcome)
      → m.fresh ≡ true
      → x.1 ≡ y.1
      → (on_subject parse_time digest jwt_expiry m token action resource x).1
        ≡ (on_subject parse_time digest jwt_expiry m token action resource y).1
  on_subject-snd token action resource (c, r) (d, s) f e =
      subject_fresh token action resource c d r f
      ∙ ap (λ q. (on_subject parse_time digest jwt_expiry m token action resource (d, q)).1) e

  -- A call of Authorize that asks for a fresh answer is answered as by a client without a cache,
  -- whatever the cache holds, for every credential, action and resource.
  pub authorize-without_cache :
      (token action : Bytes) (resource : Resource) (c : Client)
      → m.fresh ≡ true
      → (authorize parse_time digest jwt_expiry m token action resource c).1
        ≡ (authorize parse_time digest jwt_expiry m token action resource (without_cache c)).1
  unfolding authorize authorize_unscoped authorize_on_resource
  authorize-without_cache token action resource c f =
      if_same (is_zero resource) _ _ _ _
        (then_valid-snd _ _ (
          resolve_fresh token (action ∷ []) c.expected_audience c.expected_jwt_audience c.vcache f))
        (on_subject-snd token action resource _ _ f
          (resolve_fresh token [] c.expected_audience c.expected_jwt_audience c.vcache f))
