-- ===== src/Transport/Retries.antt =====
-- The retry loop ends, sends a bounded number of requests, and sends again only what may be sent
-- again.
use auth_sdk_go.Base.{
  ℕ, zero, suc, ◌+◌, ◌-◌, ◌≤◌, ◌<◌, ◌≡◌, refl, subst, if◌then◌else◌, ap, Bool, true, false, ◌&&◌,
  List, [], ◌∷◌, Option, none, some, arith, length, ◌⊎◌, inl, inr, ltb, Bool-cases,
}
use native.Mathlib.Decide.{dec_lt}
use auth_sdk_go.Base.Text.{Bytes, bytes, same_iff}
use auth_sdk_go.Json.{Json}
use auth_sdk_go.Errors.{Err, cancelled, is_retryable, status_code}
use auth_sdk_go.Errors.Envelope.{parse_api_error}
use auth_sdk_go.Transport.{
  Reply, lost, response, World, Call, RequestInfo, Result, failed, Happening, sent, observed, Run,
  after, if_made, seen_lost, seen_status, is_success, send_from, send_round, send, is_idempotent,
  api_error, decoded,
}

-- The numbers of the attempts whose requests went out, in order.
abbrev pub sends : List Happening → List ℕ
sends [] = []
sends (sent n ∷ hs) = n ∷ sends hs
sends (observed i ∷ hs) = sends hs

-- The numbers of the attempts that the observer is told of, in order.
abbrev pub reports : List Happening → List ℕ
reports [] = []
reports (sent n ∷ hs) = reports hs
reports (observed i ∷ hs) = i.attempt ∷ reports hs

-- The `count` numbers from `n` on.
abbrev pub upward : (n count : ℕ) → List ℕ
upward n zero = []
upward n (suc count) = n ∷ upward (suc n) count

-- The methods that a repetition does no harm to.
abbrev pub Idempotent : Bytes → Type 0
Idempotent method =
    (method ≡ bytes "GET")
    ⊎ ((method ≡ bytes "HEAD")
        ⊎ ((method ≡ bytes "OPTIONS") ⊎ ((method ≡ bytes "PUT") ⊎ (method ≡ bytes "DELETE"))))

is_idempotent-Idempotent : (method : Bytes) → is_idempotent method ≡ true → Idempotent method
unfolding is_idempotent
is_idempotent-Idempotent method h = grind (
  arith,
  same_iff method (bytes "GET"),
  same_iff method (bytes "HEAD"),
  same_iff method (bytes "OPTIONS"),
  same_iff method (bytes "PUT"),
  same_iff method (bytes "DELETE"),
)

-- What has to be so at an attempt for another to follow it.
abbrev pub Repeatable : Call → World → ℕ → Reply → Type 0
Repeatable c w n (lost err) = (w.ended n ≡ false) × Idempotent c.method
Repeatable c w n (response status rid body) = (status ≡ 429) ⊎ ((500 ≤ status) × (status ≤ 599))

abbrev pub MayFollow : Call → World → ℕ → Type 0
MayFollow c w n = (n < c.max_retries) × (w.ends_waiting n ≡ false) × Repeatable c w n (w.reply n)

-- The attempts of a run from attempt `a` on: consecutive, each sent and reported once, and each but
-- the last such that another may follow.
abbrev pub Attempts : (ℕ → Type 0) → ℕ → Run → Type 0
Attempts P a none = Unit {0}
Attempts P a (some (hs, r)) =
    (m : ℕ) × (sends hs ≡ upward a m)
    × (reports hs ≡ upward a m)
    × ((n : ℕ) → a ≤ n → suc n < a + m → P n)

-- The same of a round's run, whose request is out already.
abbrev Round : (ℕ → Type 0) → ℕ → Run → Type 0
Round P a none = Unit {0}
Round P a (some (hs, r)) =
    (m : ℕ) × (sends hs ≡ upward (suc a) m)
    × (reports hs ≡ upward a (suc m))
    × ((n : ℕ) → a ≤ n → n < a + m → P n)

Attempts-after : (P : ℕ → Type 0) (a : ℕ) (o : Run) → Round P a o → Attempts P a (after (sent a) o)
Attempts-after P a none h = tt
Attempts-after P a (some (hs, r)) (m, s, t, f) =
    (suc m, ap (λ l. a ∷ l) s, t, λ n p q. f n p (omega arith))

Round-stops :
    (P : ℕ → Type 0) (i : RequestInfo) (r : Result) → Round P i.attempt (some (observed i ∷ [], r))
Round-stops P i r = (0, refl, refl, λ n p q. absurd (omega arith))

from_next :
    (P : ℕ → Type 0) (a m : ℕ)
    → P a
    → ((n : ℕ) → suc a ≤ n → suc n < suc a + m → P n)
    → (n : ℕ) → a ≤ n
    → n < a + m
    → P n
from_next P a m p f n h k = elim (dec_lt a n) [
  | yes lt ↦ f n (omega arith) (omega arith)
  | no ge ↦ subst P (omega arith) p
]

Round-goes_on :
    (P : ℕ → Type 0) (i : RequestInfo) (o : Run)
    → P i.attempt
    → Attempts P (suc i.attempt) o
    → Round P i.attempt (after (observed i) o)
Round-goes_on P i none p h = tt
Round-goes_on P i (some (hs, r)) p (m, s, t, f) =
    (m, s, ap (λ l. i.attempt ∷ l) t, from_next P i.attempt m p f)

-- The wait between two attempts.
Round-waits :
    (P : ℕ → Type 0) (i : RequestInfo) (o : Run) (r : Result) (ends : Bool)
    → (ends ≡ false → P i.attempt)
    → Attempts P (suc i.attempt) o
    → Round P i.attempt (after (observed i) (if ends then some ([], r) else o))
Round-waits P i o r true p h = Round-stops P i r
Round-waits P i o r false p h = Round-goes_on P i o (p refl) h

-- A completed run: no request if none can be made, else at least one and at most `most`.
abbrev pub Returns : Option Err → ℕ → Run → Type 0
Returns unmade most none = ⊥
Returns none most (some (hs, r)) = (0 < length (sends hs)) × (length (sends hs) ≤ most)
Returns (some err) most (some (hs, r)) = (hs ≡ []) × (r ≡ failed err)

-- A completed run that sends at most `most` requests.
abbrev Counted : ℕ → Run → Type 0
Counted most none = ⊥
Counted most (some (hs, r)) = length (sends hs) ≤ most

Counted-of_Returns :
    (unmade : Option Err) (most : ℕ) (o : Run) → Returns unmade most o → Counted most o
Counted-of_Returns unmade most none h = h
Counted-of_Returns none most (some (hs, r)) h = h.1
Counted-of_Returns (some err) most (some (hs, r)) h = rw h.0 (omega arith)

Returns-if_made :
    (unmade : Option Err) (most a : ℕ) (o : Run)
    → Counted most o
    → Returns unmade (suc most) (if_made unmade (λ err. some ([], failed err)) (after (sent a) o))
Returns-if_made none most a none h = h
Returns-if_made none most a (some (hs, r)) h = (omega arith, omega arith)
Returns-if_made (some err) most a o h = (refl, refl)

Counted-waits :
    (most : ℕ) (i : RequestInfo) (o : Run) (r : Result) (ends : Bool)
    → Counted most o
    → Counted most (after (observed i) (if ends then some ([], r) else o))
Counted-waits most i o r true h = omega arith
Counted-waits most i none r false h = h
Counted-waits most i (some (hs, s)) r false h = h

Attempts-if_made :
    (P : ℕ → Type 0) (unmade : Option Err) (a : ℕ) (o : Run)
    → Round P a o
    → Attempts P a (if_made unmade (λ err. some ([], failed err)) (after (sent a) o))
Attempts-if_made P none a o h = Attempts-after P a o h
Attempts-if_made P (some err) a o h = (0, refl, refl, λ n p q. absurd (omega arith))

module _ (parse : Bytes → Option Json) (decode : Bytes → Option Err) where
  send_round-Counted :
      (c : Call) (w : World) (attempt most : ℕ) (again : Run) (r : Reply)
      → (attempt < c.max_retries → Counted most again)
      → Counted most (send_round parse decode c w attempt again r)
  unfolding send_round
  send_round-Counted c w attempt most again (lost err) h = ground (
    arith,
    λ (k : attempt < c.max_retries).
        Counted-waits most (seen_lost attempt err true) again (failed cancelled)
          (w.ends_waiting attempt) (h k),
  )
  send_round-Counted c w attempt most again (response status rid body) h = ground (
    arith,
    λ (k : attempt < c.max_retries).
        Counted-waits most (seen_status attempt status true) again (failed cancelled)
          (w.ends_waiting attempt) (h k),
  )

  send_from-Returns :
      (fuel : ℕ) (c : Call) (w : World) (attempt : ℕ)
      → c.max_retries - attempt < fuel
      → Returns w.unmade (suc (c.max_retries - attempt)) (send_from parse decode fuel c w attempt)
  unfolding send_from
  send_from-Returns zero c w attempt k = absurd (omega arith)
  send_from-Returns (suc fuel) c w attempt k =
      let again = send_from parse decode fuel c w (suc attempt) in
      Returns-if_made w.unmade (c.max_retries - attempt) attempt _ (
        send_round-Counted c w attempt (c.max_retries - attempt) again (w.reply attempt) λ more.
          subst (λ n. Counted n again) (omega arith)
            (Counted-of_Returns w.unmade _ again
              (send_from-Returns fuel c w (suc attempt) (omega arith))))

  -- `send` always returns: its fuel is enough. If the request cannot be made it sends none and fails
  -- with that error; otherwise it sends at least one, and at most one more than the configured number
  -- of retries.
  pub send-Returns :
      (c : Call) (w : World) → Returns w.unmade (suc c.max_retries) (send parse decode c w)
  unfolding send
  send-Returns c w =
      subst (λ n. Returns w.unmade (suc n) (send_from parse decode (suc c.max_retries) c w 0))
        (omega arith) (send_from-Returns (suc c.max_retries) c w 0 (omega arith))

  retryable-status :
      (c : Call) (status : ℕ) (rid body : Bytes)
      → is_retryable (api_error parse c status rid body) ≡ true
      → (status ≡ 429) ⊎ ((500 ≤ status) × (status ≤ 599))
  unfolding is_retryable status_code parse_api_error
  retryable-status c status rid body h = ground arith

  send_round-Round :
      (c : Call) (w : World) (attempt : ℕ) (again : Run) (r : Reply)
      → w.reply attempt ≡ r
      → Attempts (MayFollow c w) (suc attempt) again
      → Round (MayFollow c w) attempt (send_round parse decode c w attempt again r)
  unfolding send_round
  send_round-Round c w attempt again (lost err) e h = elim (Bool-cases (w.ended attempt)) [
    | inl b ↦ rw b (Round-stops (MayFollow c w) (seen_lost attempt err false) (failed err))
    | inr b ↦ elim (Bool-cases (ltb attempt c.max_retries && is_idempotent c.method)) [
      | inl k ↦
          rw (b, k)
            (Round-waits (MayFollow c w) (seen_lost attempt err true) again (failed cancelled)
              (w.ends_waiting attempt)
              (λ f. (ground arith, f, rw e (b, is_idempotent-Idempotent c.method (ground arith))))
              h)
      | inr k ↦ rw (b, k) (Round-stops (MayFollow c w) (seen_lost attempt err false) (failed err))
    ]
  ]
  send_round-Round c w attempt again (response status rid body) e h =
      let err = api_error parse c status rid body in
      elim (Bool-cases (is_success status)) [
        | inl b ↦ rw b (
            Round-stops (MayFollow c w) (seen_status attempt status false)
              (decoded parse decode body))
        | inr b ↦ elim (Bool-cases (ltb attempt c.max_retries && is_retryable err)) [
          | inl k ↦
              rw (b, k)
                (Round-waits (MayFollow c w) (seen_status attempt status true) again
                  (failed cancelled) (w.ends_waiting attempt)
                  (λ f. (ground arith, f, rw e (retryable-status c status rid body (ground arith))))
                  h)
          | inr k ↦
              rw (b, k)
                (Round-stops (MayFollow c w) (seen_status attempt status false) (failed err))
        ]
      ]

  send_from-Attempts :
      (fuel : ℕ) (c : Call) (w : World) (attempt : ℕ)
      → Attempts (MayFollow c w) attempt (send_from parse decode fuel c w attempt)
  unfolding send_from
  send_from-Attempts zero c w attempt = tt
  send_from-Attempts (suc fuel) c w attempt = Attempts-if_made (MayFollow c w) w.unmade attempt _ (
      send_round-Round c w attempt _ (w.reply attempt) refl
        (send_from-Attempts fuel c w (suc attempt)))

  -- The requests that `send` sends are those of the attempts 0, 1, 2 and so on, each sent once and
  -- reported to the observer once, in order. A request is sent again only within the retries, after a
  -- wait that the context survived, and after an answer of 429 or from 500 to 599, or after a loss,
  -- with the context alive, of a request whose method is GET, HEAD, OPTIONS, PUT or DELETE.
  pub send-repeats_safely :
      (c : Call) (w : World) → Attempts (MayFollow c w) 0 (send parse decode c w)
  unfolding send
  send-repeats_safely c w = send_from-Attempts (suc c.max_retries) c w 0
