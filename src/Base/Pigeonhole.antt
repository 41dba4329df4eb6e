-- ===== src/Base/Pigeonhole.antt =====
-- Distinct texts taken from a list that is no longer are all of that list.
use mathlib.Core.List.{Memᴰ}
use flux_operator.Base.Tests.{if◌then◌else◌, Bool-cases}
use flux_operator.Base.Lists.{length, All, All-mem}
use Prim.Native.String.{String}
use Prim.Native.Nat.{◌≤◌, suc}
use mathlib.Core.Path.{◌≡◌, refl, sym, ◌∙◌}
use mathlib.Core.Logic.{◌≢◌, ◌⊎◌, inl, inr}
use mathlib.Core.Bool.{true, false}
use mathlib.Core.List.{List, [], ◌∷◌}
use native.Mathlib.Omega.{arith}
use text.Mathlib.Text.{◌==◌}
use text.Mathlib.TextEquality.{eq_iff}

abbrev pub Distinct : List String → Type 0
Distinct [] = Unit
Distinct (x ∷ xs) = All (λ y. y ≢ x) xs × Distinct xs

remove : String → List String → List String
remove n [] = []
remove n (x ∷ xs) = if x == n then xs else x ∷ remove n xs

eq-cases : (a b : String) → (((a == b) ≡ true) × (a ≡ b)) ⊎ (((a == b) ≡ false) × (a ≢ b))
eq-cases a b = elim (Bool-cases (a == b)) [
  | inl y ↦ inl (y, (eq_iff a b).0 y)
  | inr n ↦ inr (n, λ e. cc ((eq_iff a b).1 e))
]

length-remove : (n : String) (xs : List String) → Memᴰ n xs → length xs ≡ suc (length (remove n xs))
unfolding remove
length-remove n [] m = elim m [ ]
length-remove n (x ∷ xs) (Memᴰ.head e) = rw ((eq_iff x n).1 (sym e))
length-remove n (x ∷ xs) (Memᴰ.tail m) = ground (arith, length-remove n xs m)

mem-remove_ne :
    (n : String) (xs : List String) {a : String} → Memᴰ a xs → a ≢ n → Memᴰ a (remove n xs)
unfolding remove
mem-remove_ne n [] m h = elim m [ ]
mem-remove_ne n (x ∷ xs) (Memᴰ.head e) h = elim (eq-cases x n) [
  | inl (t, q) ↦ absurd (h (e ∙ q))
  | inr (f, q) ↦ rw f (Memᴰ.head e)
]
mem-remove_ne n (x ∷ xs) (Memᴰ.tail m) h = elim (eq-cases x n) [
  | inl (t, q) ↦ rw t m
  | inr (f, q) ↦ rw f (Memᴰ.tail (mem-remove_ne n xs m h))
]

mem-of_remove : (n : String) (xs : List String) {a : String} → Memᴰ a (remove n xs) → Memᴰ a xs
unfolding remove
mem-of_remove n [] m = m
mem-of_remove n (x ∷ xs) {a} m = elim (eq-cases x n) [
  | inl (t, q) ↦ Memᴰ.tail (rw t at m)
  | inr (f, q) ↦ split (rw f at m) (mem-of_remove n xs)
]
  where
    split : Memᴰ a (x ∷ remove n xs) → (Memᴰ a (remove n xs) → Memᴰ a xs) → Memᴰ a (x ∷ xs)
    split (Memᴰ.head e) back = Memᴰ.head e
    split (Memᴰ.tail i) back = Memᴰ.tail (back i)

-- If distinct texts all occur in a list that is no longer than they are many, then every text of
-- the list is among them.
pub pigeonhole :
    (names xs : List String)
    → Distinct names
    → ((a : String) → Memᴰ a names → Memᴰ a xs)
    → length xs ≤ length names
    → (a : String) → Memᴰ a xs
    → Memᴰ a names
pigeonhole [] [] d sub h a m = m
pigeonhole [] (x ∷ xs) d sub h a m = absurd (omega arith)
pigeonhole (n ∷ names) xs d sub h a m = elim (eq-cases a n) [
  | inl (t, e) ↦ Memᴰ.head e
  | inr (f, e) ↦ Memᴰ.tail (
      pigeonhole names (remove n xs) d.1
        (λ b i. mem-remove_ne n xs (sub b (Memᴰ.tail i)) (All-mem (λ y. y ≢ n) names d.0 i))
        (omega (arith, length-remove n xs (sub n (Memᴰ.head refl)))) a (mem-remove_ne n xs m e))
]
