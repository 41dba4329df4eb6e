-- ===== src/Reporter/Size/Laws.antt =====
-- The loop of `formatSize` ends, stays within its letters and divides by the right unit.
use native.Mathlib.Decide.{dec_lt}
use flux_operator.Base.{ℕ, suc, ◌*◌, ◌^◌, ◌≤◌, ◌<◌, ◌≡◌, refl, some, arith}
use flux_operator.Reporter.Size.{unit, divisor}

-- A size is written in units of `1024 ^ (e + 1)`, if `e` is the place of its letter.
pub record UnitOf (b d e : ℕ) : Type 0 where
  pub returned : divisor b ≡ some (d, e)
  pub letter : e < 6
  pub below : d ≤ b
  pub above : b < d * unit
  pub power : d ≡ unit ^ suc e

unit0 : (b : ℕ) → unit ≤ b → b < 1048576 → UnitOf b 1024 0
unfolding divisor
unit0 b h l = record {
  returned = ground arith;
  letter = omega arith;
  below = omega arith;
  above = omega arith;
  power = refl;
}

unit1 : (b : ℕ) → 1048576 ≤ b → b < 1073741824 → UnitOf b 1048576 1
unfolding divisor
unit1 b h l = record {
  returned = ground arith;
  letter = omega arith;
  below = omega arith;
  above = omega arith;
  power = refl;
}

unit2 : (b : ℕ) → 1073741824 ≤ b → b < 1099511627776 → UnitOf b 1073741824 2
unfolding divisor
unit2 b h l = record {
  returned = ground arith;
  letter = omega arith;
  below = omega arith;
  above = omega arith;
  power = refl;
}

unit3 : (b : ℕ) → 1099511627776 ≤ b → b < 1125899906842624 → UnitOf b 1099511627776 3
unfolding divisor
unit3 b h l = record {
  returned = ground arith;
  letter = omega arith;
  below = omega arith;
  above = omega arith;
  power = refl;
}

unit4 : (b : ℕ) → 1125899906842624 ≤ b → b < 1152921504606846976 → UnitOf b 1125899906842624 4
unfolding divisor
unit4 b h l = record {
  returned = ground arith;
  letter = omega arith;
  below = omega arith;
  above = omega arith;
  power = refl;
}

unit5 : (b : ℕ) → 1152921504606846976 ≤ b → b < 9223372036854775808 → UnitOf b 1152921504606846976 5
unfolding divisor
unit5 b h l = record {
  returned = ground arith;
  letter = omega arith;
  below = omega arith;
  above = omega arith;
  power = refl;
}

-- For a size of at least 1024 that an int64 holds, the loop ends within the fuel, the unit's place
-- is within the six letters, the divisor is that unit, and the size is at least one and less than
-- 1024 of these units.
pub divisor_lem : (b : ℕ) → unit ≤ b → b < 9223372036854775808 → (d : ℕ) × ((e : ℕ) × UnitOf b d e)
divisor_lem b h k = elim (dec_lt b 1048576) [
  | yes l ↦ (1024, (0, unit0 b (omega arith) l))
  | no l1 ↦ elim (dec_lt b 1073741824) [
    | yes l ↦ (1048576, (1, unit1 b (omega arith) l))
    | no l2 ↦ elim (dec_lt b 1099511627776) [
      | yes l ↦ (1073741824, (2, unit2 b (omega arith) l))
      | no l3 ↦ elim (dec_lt b 1125899906842624) [
        | yes l ↦ (1099511627776, (3, unit3 b (omega arith) l))
        | no l4 ↦ elim (dec_lt b 1152921504606846976) [
          | yes l ↦ (1125899906842624, (4, unit4 b (omega arith) l))
          | no l5 ↦ (1152921504606846976, (5, unit5 b (omega arith) k))
        ]
      ]
    ]
  ]
]
