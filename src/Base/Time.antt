-- ===== src/Base/Time.antt =====
-- Moments and durations. A moment is a number of nanoseconds; 0 is Go's zero `time.Time`, and
-- `IsZero` its test. A duration is a number of nanoseconds too, where the code cannot make it
-- negative. One operation reads the clock once, as an argument `now`.
use Prim.Native.Nat.{ℕ, ◌*◌}

abbrev pub second : ℕ
second = 1_000_000_000

abbrev pub minute : ℕ
minute = 60 * second

abbrev pub hour : ℕ
hour = 60 * minute

abbrev pub day : ℕ
day = 24 * hour
