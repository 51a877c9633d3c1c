-- ===== src/TokenFor/Failures.antt =====
-- What the errors of the token endpoint become.
use auth_sdk_go.Base.{◌≡◌, refl, Bool, ◌&&◌, ◌||◌, Option, none, some, arith, leb, ◌==◌}
use auth_sdk_go.Base.Text.{Bytes, bytes, same, same_iff}
use auth_sdk_go.Errors.{
  ApiError, Err, wrapped, as_api_error, is_sentinel, reauthenticate, unavailable,
}
use auth_sdk_go.TokenFor.Answers.{App, classify_api_error, classify_token_error}

-- The service refused what the call presented, with status 400.
abbrev pub is_refused : ApiError → Bool
is_refused ae =
    (same ae.code (bytes "invalid_request") || same ae.code (bytes "invalid_grant"))
    && ae.status_code == 400

module _ (metadata : Option Bytes) (c : App) (person_present : Bool) (resource scope : Bytes) where
  -- What a failure of the token endpoint that carries an answer of the service becomes.
  abbrev classified : ApiError → Err
  classified ae = (classify_api_error metadata c ae person_present resource scope).1

  classified-as_api_error : (ae : ApiError) → as_api_error (classified ae) ≡ some ae
  unfolding classify_api_error as_api_error
  classified-as_api_error ae = ground arith

  classified-unavailable :
      (ae : ApiError)
      → is_sentinel unavailable (classified ae) ≡ (leb 500 ae.status_code || ae.status_code == 429)
  unfolding classify_api_error is_sentinel
  classified-unavailable ae = ground arith

  classified-reauthenticate :
      (ae : ApiError)
      → is_sentinel reauthenticate (classified ae) ≡ (person_present && is_refused ae)
  unfolding classify_api_error is_sentinel
  classified-reauthenticate ae = ground (
    arith,
    same_iff ae.code (bytes "invalid_request"),
    same_iff ae.code (bytes "invalid_grant"),
    same_iff ae.code (bytes "invalid_client"),
    same_iff ae.code (bytes "unauthorized_client"),
    same_iff ae.code (bytes "invalid_scope"),
    same_iff ae.code (bytes "invalid_target"),
  )

  -- An error of the token endpoint with an answer of the service in it keeps that answer in reach; it
  -- says that the service is unavailable exactly for a status of 500 and more or 429, and it says to
  -- sign the person in again exactly if there is a person and the answer is 400 invalid_request or
  -- invalid_grant.
  pub classify_token_error-answered :
      (err : Err) (ae : ApiError)
      → as_api_error err ≡ some ae
      → let r = (classify_token_error metadata c err person_present resource scope).1 in
        (as_api_error r ≡ some ae)
        × (is_sentinel unavailable r ≡ (leb 500 ae.status_code || ae.status_code == 429))
        × (is_sentinel reauthenticate r ≡ (person_present && is_refused ae))
  unfolding classify_token_error
  classify_token_error-answered err ae e =
      rw (e, classify_token_error)
        (classified-as_api_error ae, classified-unavailable ae, classified-reauthenticate ae)

  -- One without is wrapped as unavailable.
  pub classify_token_error-unanswered :
      (err : Err)
      → as_api_error err ≡ none
      → classify_token_error metadata c err person_present resource scope
        ≡ (c, wrapped unavailable err)
  unfolding classify_token_error
  classify_token_error-unanswered err e = rw (e, classify_token_error) refl
