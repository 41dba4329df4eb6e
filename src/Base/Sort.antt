-- ===== src/Base/Sort.antt =====
-- What the program relies on of Go's sorting: the result holds the same elements, in order.
use mathlib.Core.Path.{◌≡◌}
use mathlib.Core.Bool.{Bool, true, false}
use mathlib.Core.Logic.{inl, inr}
use mathlib.Core.Logic.Or
use mathlib.Core.List.{
  List, [], ◌∷◌, Mem, Perm, Pairwise, rel_of_Pairwise-cons, eq-or-mem_of_mem-cons, not-mem-nil,
}
use mathlib.Core.List.Perm
use flux_operator.Base.Tests.{if◌then◌else◌, Bool-cases}

-- `sort.Sort` and `slices.SortStableFunc` for an order given by `less`.
pub record IsSort {A : Type 0} (less : A → A → Bool) (sort : List A → List A) : Type 0 where
  pub perm : (xs : List A) → Perm (sort xs) xs
  pub sorted : (xs : List A) → Pairwise (λ a b. less b a ≡ false) (sort xs)

-- A strict order as Go's sorting wants it.
pub record IsOrder {A : Type 0} (less : A → A → Bool) : Type 0 where
  pub irrefl : (a : A) → less a a ≡ false
  pub asym : (a b : A) → less a b ≡ true → less b a ≡ false
  pub not_trans : (a b c : A) → less b a ≡ false → less c b ≡ false → less c a ≡ false

false_prop : (b : Bool) → IsProp (b ≡ false)
false_prop b = hlevel

module _ {A : Type 0} {less : A → A → Bool} {sort : List A → List A} (s : IsSort less sort) where
  -- Nothing of the list is below the first element of the sorted list.
  pub head-least :
      ((a : A) → less a a ≡ false)
      → (xs : List A) {v w : A} {rest : List A} → sort xs ≡ v ∷ rest
      → Mem w xs
      → less w v ≡ false
  head-least irrefl xs {v} {w} {rest} e m =
      let p : Mem w (v ∷ rest) = rw e at ((Perm.mem_iff (s.perm xs)).1 m) in
      let q : Pairwise (λ a b. less b a ≡ false) (v ∷ rest) = rw e at (s.sorted xs) in
      Or.elim (false_prop _) (eq-or-mem_of_mem-cons p) (λ h. rw h (irrefl v))
        (λ h. rel_of_Pairwise-cons q h)

-- Insertion sort keeps the contract.
module _ {A : Type 0} (less : A → A → Bool) where
  insert_by : A → List A → List A
  insert_by x [] = x ∷ []
  insert_by x (y ∷ ys) = if less y x then y ∷ insert_by x ys else x ∷ y ∷ ys

  unfoldable pub insertion_sort : List A → List A
  unfolding insert_by
  insertion_sort [] = []
  insertion_sort (x ∷ xs) = insert_by x (insertion_sort xs)

  insert_by-perm : (x : A) (ys : List A) → Perm (insert_by x ys) (x ∷ ys)
  unfolding insert_by
  insert_by-perm x [] = Perm.refl (x ∷ [])
  insert_by-perm x (y ∷ ys) = elim (Bool-cases (less y x)) [
    | inl h ↦ rw h (Perm.trans (Perm.cons y (insert_by-perm x ys)) (Perm.swap x y ys))
    | inr h ↦ rw h (Perm.refl (x ∷ y ∷ ys))
  ]

  insertion_sort-perm : (xs : List A) → Perm (insertion_sort xs) xs
  unfolding insertion_sort
  insertion_sort-perm [] = Perm.refl []
  insertion_sort-perm (x ∷ xs) =
      Perm.trans (insert_by-perm x (insertion_sort xs)) (Perm.cons x (insertion_sort-perm xs))

  insert_by-sorted :
      (o : IsOrder less) (x : A) (ys : List A)
      → Pairwise (λ a b. less b a ≡ false) ys
      → Pairwise (λ a b. less b a ≡ false) (insert_by x ys)
  unfolding insert_by
  insert_by-sorted o x [] p = Pairwise.cons (λ a m. absurd (not-mem-nil m)) Pairwise.nil
  insert_by-sorted o x (y ∷ ys) (Pairwise.cons low p) = elim (Bool-cases (less y x)) [
    | inl h ↦ rw h (
        Pairwise.cons
          (λ a m.
            Or.elim (false_prop _)
              (eq-or-mem_of_mem-cons ((Perm.mem_iff (insert_by-perm x ys)).0 m))
              (λ e. rw e (o.asym y x h)) (low a))
          (insert_by-sorted o x ys p))
    | inr h ↦ rw h (
        Pairwise.cons
          (λ a m.
            Or.elim (false_prop _) (eq-or-mem_of_mem-cons m) (λ e. rw e h)
              (λ k. o.not_trans x y a h (low a k)))
          (Pairwise.cons low p))
  ]

  insertion_sort-sorted :
      (o : IsOrder less) (xs : List A) → Pairwise (λ a b. less b a ≡ false) (insertion_sort xs)
  unfolding insertion_sort
  insertion_sort-sorted o [] = Pairwise.nil
  insertion_sort-sorted o (x ∷ xs) = insert_by-sorted o x _ (insertion_sort-sorted o xs)

  pub insertion_sort-IsSort : IsOrder less → IsSort less insertion_sort
  insertion_sort-IsSort o = record { perm = insertion_sort-perm; sorted = insertion_sort-sorted o }
