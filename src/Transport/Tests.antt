-- ===== src/Transport/Tests.antt =====
-- The retry loop and the delays on concrete runs.
use auth_sdk_go.Base.{ℕ, ◌≡◌, refl, true, false, none, some, Option, [], ◌∷◌, ltb, if◌then◌else◌}
use auth_sdk_go.Base.Text.{Bytes, bytes, same}
use auth_sdk_go.Json.{Json}
use auth_sdk_go.Errors.{other, is_retryable}
use auth_sdk_go.Errors.Envelope.{parse_api_error}
use auth_sdk_go.Transport.{
  Reply, lost, response, World, Call, received, failed, send, is_idempotent, retry_after_seconds,
  seen_lost, seen_status, sent, observed, strip_query,
}
use auth_sdk_go.Transport.Agreement.{any_body}
use auth_sdk_go.Transport.Retries.{Returns, send-Returns, Attempts, MayFollow, send-repeats_safely}

abbrev no_parse : Bytes → Option Json
no_parse text = none

-- A lost request, a 503, then success.
abbrev replies : ℕ → Reply
replies n =
    if ltb n 1
    then lost (other 7)
    else if ltb n 2
    then response 503 [] []
    else response 200 [] (bytes "{}")

abbrev flaky : World
flaky = record { unmade = none; reply = replies; ended = λ _. false; ends_waiting = λ _. false }

abbrev call : Bytes → Call
call method = record { method = method; path = bytes "/a?b"; max_retries = 2 }

get_recovers :
    send no_parse any_body (call (bytes "GET")) flaky
    ≡ some (
      sent 0
          ∷ observed (seen_lost 0 (other 7) true)
          ∷ sent 1
          ∷ observed (seen_status 1 503 true)
          ∷ sent 2
          ∷ observed (seen_status 2 200 false)
          ∷ [],
      received (bytes "{}"),
    )
unfolding send is_idempotent same is_retryable parse_api_error
get_recovers = refl

post_gives_up :
    send no_parse any_body (call (bytes "POST")) flaky
    ≡ some (sent 0 ∷ observed (seen_lost 0 (other 7) false) ∷ [], failed (other 7))
unfolding send is_idempotent same is_retryable parse_api_error
post_gives_up = refl

-- A base URL that does not parse.
abbrev bad_url : World
bad_url = record flaky { unmade = some (other 8) }

nothing_sent : send no_parse any_body (call (bytes "GET")) bad_url ≡ some ([], failed (other 8))
unfolding send
nothing_sent = refl

path_test : strip_query (bytes "/a?b") ≡ bytes "/a"
unfolding strip_query
path_test = refl

-- 18446744074 seconds overflow the int64 product to about 0.29 seconds.
retry_after_overflows : retry_after_seconds 18446744074 ≡ 290448384
unfolding retry_after_seconds
retry_after_overflows = refl

send-Returns_example : Returns none 3 (send no_parse any_body (call (bytes "GET")) flaky)
send-Returns_example = send-Returns no_parse any_body (call (bytes "GET")) flaky

send-repeats_safely_example :
    Attempts
      (MayFollow (call (bytes "GET")) flaky)
      0
      (send no_parse any_body (call (bytes "GET")) flaky)
send-repeats_safely_example = send-repeats_safely no_parse any_body (call (bytes "GET")) flaky
