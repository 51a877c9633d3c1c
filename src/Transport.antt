-- ===== src/Transport.antt =====
-- transport.go: the retry loop of `send`, its copy in `doRaw`, and the delays between attempts.
-- A world says whether the call's request can be made, which is the same at every attempt, and what
-- each attempt meets: the reply, whether the context has ended by then, and whether it ends during
-- the wait that follows. Delays are int64 nanoseconds, held as bit patterns
-- below 2 ^ 64. The section's parameters are the JSON parser and the decoding of a success body.
pub mod Retries
pub mod Agreement
pub mod Delays
pub mod Tests
use auth_sdk_go.Base.{
  ℕ, zero, suc, ◌+◌, ◌*◌, ◌%◌, ◌^◌, ◌≡◌, refl, Bool, true, false, not, ◌&&◌, ◌||◌, List, [], ◌∷◌,
  Option, none, some, ltb, leb, ◌==◌, if◌then◌else◌,
}
use auth_sdk_go.Base.Text.{Bytes, bytes, same, is_empty}
use auth_sdk_go.Base.Time.{second}
use auth_sdk_go.Json.{Json}
use auth_sdk_go.Errors.{Err, api, cancelled, is_retryable}
use auth_sdk_go.Errors.Envelope.{parse_api_error}

unfoldable pub is_idempotent : Bytes → Bool
is_idempotent method =
    same method (bytes "GET")
    || (same method (bytes "HEAD")
        || (same method (bytes "OPTIONS")
            || (same method (bytes "PUT") || same method (bytes "DELETE"))))

unfoldable pub strip_query : Bytes → Bytes
strip_query [] = []
strip_query (c ∷ s) = if c == b'?' then [] else c ∷ strip_query s

-- `requestID`: the first of the four headers that is set.
unfoldable pub request_id : (Bytes → Bytes) → Bytes
request_id header =
    let x = header (bytes "X-Request-Id") in
    if not (is_empty x)
    then x
    else if not (is_empty (header (bytes "X-Correlation-Id")))
    then header (bytes "X-Correlation-Id")
    else header (bytes "X-Trace-Id")

abbrev pub int64_mod : ℕ
int64_mod = 0x1_0000_0000_0000_0000

abbrev pub int64_min : ℕ
int64_min = 0x8000_0000_0000_0000

-- Is the int64 above zero?
abbrev pub is_above_zero : ℕ → Bool
is_above_zero d = ltb 0 d && ltb d int64_min

-- `base * 2^attempt` in int64, capped, with full jitter: `random` is what the generator draws.
unfoldable pub backoff : (base max attempt random : ℕ) → ℕ
backoff base max attempt random =
    let d = (base * 2 ^ attempt) % int64_mod in
    let capped = if not (is_above_zero d) || ltb max d then max else d in random % (capped + 1)

-- The delay of `wait`: the server's hint if it is above zero, else the backoff; capped.
unfoldable pub wait_delay : (base max attempt random hint : ℕ) → ℕ
unfolding backoff
wait_delay base max attempt random hint =
    let d = if is_above_zero hint then hint else backoff base max attempt random in
    if ltb max d then max else d

-- `Retry-After` in seconds, as Go multiplies it.
unfoldable pub retry_after_seconds : ℕ → ℕ
retry_after_seconds secs = (secs * second) % int64_mod

-- What an attempt meets: `http.Client.Do` fails, or a response arrives.
pub data Reply : Type 0 where
  lost : Err → Reply
  response : (status : ℕ) (request_id body : Bytes) → Reply

-- `unmade` is the error of `http.NewRequestWithContext` for the call's method and URL.
pub record World : Type 0 where
  pub unmade : Option Err
  pub reply : ℕ → Reply
  pub ended : ℕ → Bool
  pub ends_waiting : ℕ → Bool

pub record Call : Type 0 where
  pub method : Bytes
  pub path : Bytes
  pub max_retries : ℕ

-- The parts of a RequestInfo that the loop decides.
pub record RequestInfo : Type 0 where
  pub attempt : ℕ
  pub status : ℕ
  pub retrying : Bool
  pub err : Option Err

-- What a run of `send` does that others see: a request goes out at an attempt, or the observer is
-- told of one.
pub data Happening : Type 0 where
  sent : ℕ → Happening
  observed : RequestInfo → Happening

pub data Result : Type 0 where
  received : Bytes → Result
  failed : Err → Result

abbrev pub seen_lost : ℕ → Err → Bool → RequestInfo
seen_lost attempt err retrying = record {
  attempt = attempt;
  status = 0;
  retrying = retrying;
  err = some err;
}

abbrev pub seen_status : (attempt status : ℕ) → Bool → RequestInfo
seen_status attempt status retrying = record {
  attempt = attempt;
  status = status;
  retrying = retrying;
  err = none;
}

abbrev pub is_success : ℕ → Bool
is_success status = leb 200 status && ltb status 300

-- The happenings of a run and its result; `none` means that the fuel ran out.
abbrev pub Run : Type 0
Run = Option (List Happening × Result)

abbrev pub after : Happening → Run → Run
after h none = none
after h (some (hs, r)) = some (h ∷ hs, r)

-- `if err != nil { return err }` before a request goes out.
abbrev pub if_made : {A : Type 0} → Option Err → (Err → A) → A → A
if_made none stop go = go
if_made (some err) stop go = stop err

module _ (parse : Bytes → Option Json) where
  abbrev pub api_error : Call → ℕ → Bytes → Bytes → Err
  api_error c status rid body =
      api (parse_api_error parse status c.method (strip_query c.path) rid body)

  -- One round of `doRaw`'s loop.
  unfoldable pub do_raw_round : Call → World → ℕ → Option Result → Reply → Option Result
  do_raw_round c w attempt again (lost err) =
      if w.ended attempt
      then some (failed err)
      else if ltb attempt c.max_retries && is_idempotent c.method
      then if w.ends_waiting attempt then some (failed cancelled) else again
      else some (failed err)
  do_raw_round c w attempt again (response status rid body) =
      let err = api_error c status rid body in
      if is_success status
      then some (received body)
      else if ltb attempt c.max_retries && is_retryable err
      then if w.ends_waiting attempt then some (failed cancelled) else again
      else some (failed err)

  unfoldable pub do_raw_from : ℕ → Call → World → ℕ → Option Result
  unfolding do_raw_round
  do_raw_from zero c w attempt = none
  do_raw_from (suc fuel) c w attempt =
      let again = do_raw_from fuel c w (suc attempt) in
      if_made w.unmade (λ err. some (failed err)) (do_raw_round c w attempt again (w.reply attempt))

  -- With fuel for every retry.
  unfoldable pub do_raw : Call → World → Option Result
  unfolding do_raw_from
  do_raw c w = do_raw_from (suc c.max_retries) c w 0

module _ (parse : Bytes → Option Json) (decode : Bytes → Option Err) where
  -- `if out == nil || len(data) == 0 { return nil }; return json.Unmarshal(data, out)`
  abbrev pub decoded : Bytes → Result
  decoded body =
      if is_empty body
      then received body
      else elim (decode body) [ some err ↦ failed err | none ↦ received body ]

  -- One round of `send`'s loop, once its request is out; `again` is the rest of the loop.
  unfoldable pub send_round : Call → World → ℕ → Run → Reply → Run
  send_round c w attempt again (lost err) =
      if w.ended attempt
      then some (observed (seen_lost attempt err false) ∷ [], failed err)
      else if ltb attempt c.max_retries && is_idempotent c.method
      then after (observed (seen_lost attempt err true))
          (if w.ends_waiting attempt then some ([], failed cancelled) else again)
      else some (observed (seen_lost attempt err false) ∷ [], failed err)
  send_round c w attempt again (response status rid body) =
      let err = api_error parse c status rid body in
      if is_success status
      then some (observed (seen_status attempt status false) ∷ [], decoded body)
      else if ltb attempt c.max_retries && is_retryable err
      then after (observed (seen_status attempt status true))
          (if w.ends_waiting attempt then some ([], failed cancelled) else again)
      else some (observed (seen_status attempt status false) ∷ [], failed err)

  -- The loop of `send`: each round makes a request, sends it and goes by the reply.
  unfoldable pub send_from : ℕ → Call → World → ℕ → Run
  unfolding send_round
  send_from zero c w attempt = none
  send_from (suc fuel) c w attempt =
      let again = send_from fuel c w (suc attempt) in
      if_made w.unmade (λ err. some ([], failed err))
        (after (sent attempt) (send_round c w attempt again (w.reply attempt)))

  -- With fuel for every retry.
  unfoldable pub send : Call → World → Run
  unfolding send_from
  send c w = send_from (suc c.max_retries) c w 0
