-- ===== src/Base/Int.antt =====
-- Signed 64-bit quantities, such as durations in nanoseconds. `negsuc n` is -(n + 1).
use Prim.Native.Nat.{ℕ, ◌*◌}
use mathlib.Core.Bool.{Bool, false}
use flux_operator.Base.Tests.{ltb, eqb}

pub data ℤ : Type 0 where
  pos : ℕ → ℤ
  negsuc : ℕ → ℤ

-- `d > 0`.
abbrev pub is_positive : ℤ → Bool
is_positive (pos n) = ltb 0 n
is_positive (negsuc n) = false

-- `a == b`.
abbrev pub eq_ℤ : ℤ → ℤ → Bool
eq_ℤ (pos a) (pos b) = eqb a b
eq_ℤ (negsuc a) (negsuc b) = eqb a b
eq_ℤ (pos a) (negsuc b) = false
eq_ℤ (negsuc a) (pos b) = false

-- `time.Second` and `time.Minute`, in nanoseconds.
abbrev pub seconds : ℕ → ℤ
seconds n = pos (n * 1000000000)

abbrev pub minutes : ℕ → ℤ
minutes n = seconds (n * 60)
