-- ===== src/Transport/Delays.antt =====
-- The bounds of the delays between attempts, overflow of the int64 included.
use auth_sdk_go.Base.{ℕ, ◌*◌, ◌%◌, ◌^◌, ◌≤◌, ◌<◌, ◌≡◌, arith}
use native.Mathlib.Nat.{mod-eq_of_lt}
use auth_sdk_go.Transport.{backoff, wait_delay, int64_min, int64_mod}

-- The backoff stays below the doubled base as long as that fits an int64, and always within the
-- maximum.
backoff_bounds :
    (base max attempt random : ℕ)
    → 0 < base * 2 ^ attempt
    → base * 2 ^ attempt < int64_min
    → (backoff base max attempt random ≤ base * 2 ^ attempt)
      × (backoff base max attempt random ≤ max)
unfolding backoff
backoff_bounds base max attempt random p q =
    let same : (base * 2 ^ attempt) % int64_mod ≡ base * 2 ^ attempt = mod-eq_of_lt (omega arith) in
    rw same (ground arith)

-- No delay is longer than the configured maximum, whatever the server asks for, whatever the
-- attempt, and also where the shift overflows or the hint does.
wait_delay-le : (base max attempt random hint : ℕ) → wait_delay base max attempt random hint ≤ max
unfolding wait_delay
wait_delay-le base max attempt random hint = ground arith
