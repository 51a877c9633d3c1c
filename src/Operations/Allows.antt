-- ===== src/Operations/Allows.antt =====
-- When Authorize says yes without a cache, and so when it is asked for a fresh answer.
use auth_sdk_go.Base.{
  ℕ, ◌≡◌, refl, sym, ap, subst, ◌∙◌, Bool, true, false, List, [], ◌∷◌, Option, none, some,
  if◌then◌else◌,
}
use auth_sdk_go.Base.Text.{Bytes, is_empty}
use auth_sdk_go.Actor.{Actor, Resource, is_zero}
use auth_sdk_go.Credential.{is_api_key}
use auth_sdk_go.Gate.{Decision, decided}
use auth_sdk_go.ValidationCache.{Outcome, answer, failure}
use auth_sdk_go.Operations.{
  Moment, Client, jwt_audience, token_request, authorize, authorize_unscoped, authorize_on_resource,
  on_subject, resolve, validate_token_with, validate_api_key, api_key_actor, then_valid,
}
use auth_sdk_go.Operations.Answers.{
  Reply, got, failed, ApiKeyValidation, key_actor, valid_of, stamped, uncached, checked,
}
use auth_sdk_go.Operations.Laws.{without_cache}
use auth_sdk_go.Operations.Authorize.{decide_fresh, resolve_fresh}

-- The service's own verdict on a credential with some permissions, as the client asks for it.
abbrev key_verdict : Reply ApiKeyValidation → Option (Bytes × Bytes)
key_verdict (failed x) = none
key_verdict (got v) = if v.valid then some (v.user_id, v.org_id) else none

abbrev token_verdict : Reply Actor → Option (Bytes × Bytes)
token_verdict (failed x) = none
token_verdict (got a) = if a.valid then some (a.user_id, a.org_id) else none

-- The user and the organization that the service vouches for, if it does.
pub subject : Moment → Client → Bytes → List Bytes → Option (Bytes × Bytes)
subject m c cred perms =
    if is_api_key cred
    then key_verdict (
        m.validate_api_key (record {
          api_key = cred;
          required_permissions = perms;
          expected_audience = c.expected_audience;
        }))
    else token_verdict (m.validate_token (token_request cred perms c))

abbrev Vouches : Option (Bytes × Bytes) → Type 0
Vouches o = (who : Bytes × Bytes) × (o ≡ some who)

-- For a resource, the service allows the subject that it vouches for the action on it.
abbrev AllowsResource : Moment → Bytes → Bytes → Resource → Option (Bytes × Bytes) → Type 0
AllowsResource m cred action resource o =
    (who : Bytes × Bytes) × (o ≡ some who)
    × (m.check_permission
          (record {
            user_id = who.0;
            permission = action;
            org_id = who.1;
            resource_type = resource.type;
            resource_id = resource.id;
          })
          cred
        ≡ got true)

-- What a yes rests on: without a resource, that the service vouches for the credential with the
-- permission; with one, that it vouches for a subject and allows it the action on the resource.
abbrev pub Allows : Bool → Moment → Client → Bytes → Bytes → Resource → Type 0
Allows true m c cred action resource = Vouches (subject m c cred (action ∷ []))
Allows false m c cred action resource = AllowsResource m cred action resource (subject m c cred [])

-- A valid identity, as an outcome gives it.
abbrev identity_of : Option Outcome → Option (Bytes × Bytes)
identity_of (some (answer (some a))) = if a.valid then some (a.user_id, a.org_id) else none
identity_of _ = none

either_way : (b : Bool) (x : Bytes) → (if b then x else x) ≡ x
either_way true x = refl
either_way false x = refl

key_identity :
    (now : ℕ) (r : Reply ApiKeyValidation)
    → identity_of (key_actor now (uncached r)) ≡ key_verdict r
unfolding key_actor
key_identity now (got v) = refl
key_identity now (failed x) = refl

token_identity : (now : ℕ) (r : Reply Actor) → identity_of (some (stamped now r)) ≡ token_verdict r
token_identity now (got a) = refl
token_identity now (failed x) = refl

choose :
    (b : Bool) (x y : Client × Option Outcome) (p q : Option (Bytes × Bytes))
    → identity_of x.1 ≡ p
    → identity_of y.1 ≡ q
    → identity_of (if b then x else y).1 ≡ (if b then p else q)
choose true x y p q e f = e
choose false x y p q e f = f

decided-true : (b : Bool) → some (decided b) ≡ some (decided true) → b ≡ true
decided-true b e = cc

valid_of-identity :
    (o : Outcome)
    → valid_of o ≡ some (decided true)
    → (a : Actor) × (o ≡ answer (some a)) × (a.valid ≡ true)
unfolding valid_of
valid_of-identity (failure x) e = absurd cc
valid_of-identity (answer none) e = absurd cc
valid_of-identity (answer (some a)) e = (a, refl, decided-true a.valid e)

checked-allowed_true : (r : Reply Bool) → valid_of (checked r) ≡ some (decided true) → r ≡ got true
unfolding valid_of
checked-allowed_true (got b) e = ap got (decided-true b e)
checked-allowed_true (failed x) e = absurd cc

on_true : (b : Bool) (w : Bytes × Bytes) → b ≡ true → (if b then some w else none) ≡ some w
on_true true w e = refl
on_true false w e = absurd cc

identity_valid :
    (a : Actor) → a.valid ≡ true → identity_of (some (answer (some a))) ≡ some (a.user_id, a.org_id)
identity_valid a e = on_true a.valid (a.user_id, a.org_id) e

branch :
    (b : Bool) (x y : Client × Option Decision)
    → (if b then x else y).1 ≡ some (decided true)
    → y.1 ≡ some (decided false)
    → (b ≡ true) × (x.1 ≡ some (decided true))
branch true x y e f = (refl, e)
branch false x y e f = absurd cc

then_valid-Vouches :
    (x : Client × Option Outcome)
    → (then_valid x).1 ≡ some (decided true)
    → Vouches (identity_of x.1)
then_valid-Vouches (c, none) e = absurd cc
then_valid-Vouches (c, some o) e =
    let (a, is_a, v) = valid_of-identity o e in
    ((a.user_id, a.org_id), ap (λ p. identity_of (some p)) is_a ∙ identity_valid a v)

by_resource :
    (b : Bool) (x y : Client × Option Decision) (m : Moment) (c : Client) (cred action : Bytes)
    (resource : Resource)
    → (x.1 ≡ some (decided true) → Allows true m c cred action resource)
    → (y.1 ≡ some (decided true) → Allows false m c cred action resource)
    → (if b then x else y).1 ≡ some (decided true)
    → Allows b m c cred action resource
by_resource true x y m c cred action resource f g e = f e
by_resource false x y m c cred action resource f g e = g e

module _ (parse_time : Bytes → Bytes → Option ℕ) (digest : Bytes → Bytes) (jwt_expiry : Bytes → ℕ)
    (m : Moment) where
  resolve-subject :
      (cred : Bytes) (perms : List Bytes) (c : Client)
      → identity_of (resolve parse_time digest jwt_expiry m cred perms (without_cache c)).1
        ≡ subject m c cred perms
  unfolding resolve api_key_actor validate_api_key validate_token_with subject jwt_audience
  resolve-subject cred perms c =
      choose (is_api_key cred) _ _ _ _
        (ap
            (λ x. identity_of (
              key_actor m.now (
                uncached (
                  m.validate_api_key (record {
                    api_key = cred;
                    required_permissions = perms;
                    expected_audience = x;
                  })))))
            (either_way (is_empty c.expected_audience) c.expected_audience)
          ∙ key_identity m.now _)
        (ap
            (λ x. identity_of (
              some (
                stamped m.now (
                  m.validate_token (record {
                    token = cred;
                    required_permissions = perms;
                    expected_audience = x;
                    include_permissions = false;
                  })))))
            (either_way (is_empty (jwt_audience c)) (jwt_audience c))
          ∙ token_identity m.now _)

  on_subject-AllowsResource :
      (cred action : Bytes) (resource : Resource) (x : Client × Option Outcome)
      → m.fresh ≡ true
      → (on_subject parse_time digest jwt_expiry m cred action resource x).1 ≡ some (decided true)
      → AllowsResource m cred action resource (identity_of x.1)
  unfolding on_subject
  on_subject-AllowsResource cred action resource (c, none) f e = absurd cc
  on_subject-AllowsResource cred action resource (c, some (failure y)) f e = absurd cc
  on_subject-AllowsResource cred action resource (c, some (answer none)) f e = absurd cc
  on_subject-AllowsResource cred action resource (c, some (answer (some a))) f e =
      let (v, said) = branch a.valid _ _ e refl in
      (
        (a.user_id, a.org_id),
        identity_valid a v,
        checked-allowed_true _ (
            sym (
              decide_fresh parse_time digest jwt_expiry m cred action resource a c.expected_audience
                c.expected_jwt_audience c.vcache f)
            ∙ said),
      )

  resolve-subject_fresh :
      (cred : Bytes) (perms : List Bytes) (c : Client)
      → m.fresh ≡ true
      → identity_of (resolve parse_time digest jwt_expiry m cred perms c).1 ≡ subject m c cred perms
  resolve-subject_fresh cred perms c f =
      ap identity_of (
        resolve_fresh parse_time digest jwt_expiry m cred perms c.expected_audience
          c.expected_jwt_audience c.vcache f)
      ∙ resolve-subject cred perms c

  -- Authorize, asked for a fresh answer, says yes only if the service does in this very call: for no
  -- resource, it vouches for the credential with the action as a permission; for a resource, it
  -- vouches for a subject and allows that subject the action on that resource.
  pub authorize-Allows :
      (cred action : Bytes) (resource : Resource) (c : Client)
      → m.fresh ≡ true
      → (authorize parse_time digest jwt_expiry m cred action resource c).1 ≡ some (decided true)
      → Allows (is_zero resource) m c cred action resource
  unfolding authorize authorize_unscoped authorize_on_resource
  authorize-Allows cred action resource c f =
      by_resource (is_zero resource) _ _ m c cred action resource
        (λ e. subst Vouches (resolve-subject_fresh cred (action ∷ []) c f) (then_valid-Vouches _ e))
        (λ e.
          subst (AllowsResource m cred action resource) (resolve-subject_fresh cred [] c f)
            (on_subject-AllowsResource cred action resource _ f e))
