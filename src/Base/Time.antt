-- ===== src/Base/Time.antt =====
-- Times and durations in nanoseconds. A time counts from the zero `time.Time` (year 1), which is 0,
-- so `t.IsZero()` is `t == 0`. Go's int64 durations and times do not wrap here.
use Prim.Native.Nat.{ℕ, ◌*◌, ◌+◌}
use mathlib.Core.Bool.{Bool}
use package.auth_sdk_go.Base.Tests.{ltb}

abbrev pub second : ℕ
second = 1_000_000_000

-- `t.Before(u)`
abbrev pub before : ℕ → ℕ → Bool
before t u = ltb t u

-- 1970-01-01 on that scale.
abbrev pub unix_epoch : ℕ
unix_epoch = 62_135_596_800 * second

-- `time.Unix(s, 0)` for `s` that is not negative.
abbrev pub unix : ℕ → ℕ
unix s = unix_epoch + s * second
