-- ===== src/ForwardAuth/Tests.antt =====
-- Forward-auth decisions on concrete runs.
use auth_sdk_go.Base.{ℕ, ◌≡◌, refl, true, false, Option, none, some, inl, []}
use auth_sdk_go.Base.Text.{Bytes, bytes}
use auth_sdk_go.Errors.{is_retryable}
use auth_sdk_go.Errors.Envelope.{parse_api_error}
use auth_sdk_go.Json.{Json}
use auth_sdk_go.Transport.{World, response, strip_query}
use auth_sdk_go.ForwardAuth.{ForwardAuthDecision, forward_auth, forward_auth_decide}
use auth_sdk_go.ForwardAuth.Allowed.{Answered, forward_auth_decide-allowed}

abbrev no_json : Bytes → Option Json
no_json text = none

abbrev answers : ℕ → World
answers status = record {
  unmade = none;
  reply = λ _. response status [] [];
  ended = λ _. false;
  ends_waiting = λ _. false;
}

abbrev allowing : ForwardAuthDecision
allowing = record { allowed = true; status_code = 200; body = [] }

-- A 204 is reported as a 200.
no_content : forward_auth no_json 0 [] (answers 204) ≡ some (inl allowing)
unfolding forward_auth
no_content = refl

forbidden :
    forward_auth no_json 0 (bytes "HEAD") (answers 403)
    ≡ some (inl (record { allowed = false; status_code = 403; body = [] }))
unfolding forward_auth is_retryable parse_api_error strip_query
forbidden = refl

decided :
    forward_auth_decide no_json 0 (bytes "GET") (bytes "/forward-auth/") (answers 204)
    ≡ some (inl allowing)
unfolding forward_auth_decide
decided = refl

forward_auth_decide-allowed_example : Answered no_json (answers 204) [] × (◌≡◌ {A = ℕ} 200 200)
forward_auth_decide-allowed_example =
    forward_auth_decide-allowed no_json 0 (bytes "GET") (bytes "/forward-auth/") (answers 204)
      allowing decided refl
