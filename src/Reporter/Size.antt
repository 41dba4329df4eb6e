-- ===== src/Reporter/Size.antt =====
-- `formatSize` of internal/reporter/reconcilers.go, on a size that is not negative.
pub mod Laws
use flux_operator.Base.{
  String, ◌<>◌, ℕ, zero, suc, ◌+◌, ◌*◌, ◌/◌, ◌%◌, ◌^◌, Bool, true, false, Option, none, some, List,
  [], ◌∷◌, ltb, leb, eqb, if◌then◌else◌,
}

abbrev pub unit : ℕ
unit = 1024

-- int64 arithmetic of values that stay below 2 ^ 63, where it does not wrap.
abbrev pub int64 : ℕ → ℕ
int64 n = n % (2 ^ 64)

-- The loop: `n` is what is left to divide, `div` and `exp` are its variables. The fuel is the
-- number of rounds at most; `none` means that it ran out.
unfoldable pub scale : ℕ → ℕ → ℕ → ℕ → Option (ℕ × ℕ)
scale zero n div exp = none
scale (suc fuel) n div exp =
    let rest = scale fuel (n / unit) (int64 (div * unit)) (exp + 1) in
    if leb unit n then rest else some (div, exp)

-- The divisor and the place of the unit's letter in "KMGTPE".
unfoldable pub divisor : ℕ → Option (ℕ × ℕ)
unfolding scale
divisor b = scale 8 (b / unit) unit 0

abbrev pub letters : List String
letters = "K" ∷ "M" ∷ "G" ∷ "T" ∷ "P" ∷ "E" ∷ []
