-- ===== src/Reporter/Stats/Format.antt =====
-- `formatSize` writes every int64, and in the right unit.
use native.Mathlib.Decide.{dec_lt}
use flux_operator.Base.{
  String, ◌<>◌, ℕ, zero, suc, ◌≤◌, ◌<◌, ◌≡◌, refl, true, false, some, ok, ltb, eqb, inl, inr,
  Bool-cases, arith,
}
use flux_operator.Base.Int.{pos}
use flux_operator.Reporter.Items.{Items}
use flux_operator.Reporter.Cluster.{Cluster}
use flux_operator.Reporter.Size.{unit, letters}
use flux_operator.Reporter.Size.Laws.{UnitOf, divisor_lem}
use flux_operator.Reporter.Stats.{format_size, scaled, letter_at, from_int64}

module _ {items : Items} {W : Type 0} (cluster : Cluster items W) where
  -- Every place within the letters has one.
  letter_lem : (e : ℕ) → e < 6 → (l : String) × (letter_at e letters ≡ some l)
  letter_lem zero h = ("K", refl)
  letter_lem (suc zero) h = ("M", refl)
  letter_lem (suc (suc zero)) h = ("G", refl)
  letter_lem (suc (suc (suc zero))) h = ("T", refl)
  letter_lem (suc (suc (suc (suc zero)))) h = ("P", refl)
  letter_lem (suc (suc (suc (suc (suc zero))))) h = ("E", refl)
  letter_lem (suc (suc (suc (suc (suc (suc n)))))) h = absurd (omega arith)

  scaled_lem :
      (b d e : ℕ) {l : String}
      → d < 9223372036854775808
      → letter_at e letters ≡ some l
      → scaled cluster b (some (d, e))
        ≡ ok (cluster.printed_ratio (pos b) (pos d) <> (" " <> (l <> "iB")))
  unfolding scaled
  scaled_lem b d e {l} h p =
      let n : ltb d 9223372036854775808 ≡ true = ground arith in rw p (rw n refl)

  -- A size of at least 1024 that is an int64 is written as a quotient by the largest unit that is
  -- not above it, with that unit's letter.
  pub format_size-UnitOf :
      (b : ℕ)
      → unit ≤ b
      → b < 9223372036854775808
      → (d : ℕ) × ((e : ℕ) × ((l : String) × UnitOf b d e
            × (letter_at e letters ≡ some l)
            × (format_size cluster b
                ≡ ok (cluster.printed_ratio (pos b) (pos d) <> (" " <> (l <> "iB"))))))
  unfolding format_size
  format_size-UnitOf b h k =
      let (d, (e, u)) = divisor_lem b h k in
      let (l, p) = letter_lem e u.letter in
      let below : d ≤ b = u.below in
      let n0 : eqb b 0 ≡ false = ground arith in
      let n1 : ltb b 9223372036854775808 ≡ true = ground arith in
      let n2 : ltb b unit ≡ false = ground arith in
      (d, (e, (l, u, p, rw n0 (rw n1 (rw n2 (rw u.returned (scaled_lem b d e (omega arith) p)))))))

  -- An int64 can always be written.
  pub format_size_returns : (b : ℕ) → (s : String) × (format_size cluster b ≡ ok s)
  format_size_returns b = elim (dec_lt b 9223372036854775808) [
    | yes k ↦ elim (dec_lt b unit) [
      | no h ↦ (let (d, (e, (l, u, p, q))) = format_size-UnitOf b (omega arith) k in (_, q))
      | yes h ↦ elim (Bool-cases (eqb b 0)) [
        | inl z ↦ ("", unfold format_size in rw z refl)
        | inr z ↦
            let n1 : ltb b 9223372036854775808 ≡ true = ground arith in
            let n2 : ltb b unit ≡ true = ground arith in
            (cluster.printed_int (pos b) <> " B", unfold format_size in rw z (rw n1 (rw n2 refl)))
      ]
    ]
    | no k ↦
        let n0 : eqb b 0 ≡ false = ground arith in
        let n1 : ltb b 9223372036854775808 ≡ false = ground arith in
        (cluster.printed_int (from_int64 b) <> " B", unfold format_size in rw n0 (rw n1 refl))
  ]
