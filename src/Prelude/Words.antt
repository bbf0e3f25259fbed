-- ===== src/Prelude/Words.antt =====
-- Go's int, int64 and int32 as bit patterns: a number below 2 ^ 64 or 2 ^ 32, read in two's
-- complement. Sums wrap around; the tests on the sign are written out.
use Prim.Native.Nat.{ℕ, ◌+◌, ◌-◌, ◌*◌, ◌%◌}
use mathlib.Core.Bool.{Bool, ◌&&◌}
use protosource.Prelude.Tests.{ltb, ◌==◌, if◌then◌else◌}

abbrev pub two63 : ℕ
two63 = 9223372036854775808

abbrev pub two64 : ℕ
two64 = 18446744073709551616

abbrev pub two31 : ℕ
two31 = 2147483648

abbrev pub two32 : ℕ
two32 = 4294967296

-- `x > 0` at int64 and at int32.
abbrev pub is_positive64 : ℕ → Bool
is_positive64 x = ltb 0 x && ltb x two63

abbrev pub is_positive32 : ℕ → Bool
is_positive32 x = ltb 0 x && ltb x two31

abbrev pub add64 : ℕ → ℕ → ℕ
add64 a b = (a + b) % two64

abbrev pub mul64 : ℕ → ℕ → ℕ
mul64 a b = (a * b) % two64

-- `int64(x)` of an int32.
abbrev pub extend32 : ℕ → ℕ
extend32 x = if ltb x two31 then x else x + two64 - two32

-- The absolute value of an int64; Go's `x % n == 0` turns on it alone.
abbrev pub magnitude64 : ℕ → ℕ
magnitude64 x = if ltb x two63 then x else two64 - x

-- `x % n == 0` for a positive n.
abbrev pub is_multiple64 : ℕ → ℕ → Bool
is_multiple64 x n = magnitude64 x % n == 0
