-- ===== src/Base/Lists.antt =====
-- Lists measured by native numbers, dictionaries as association lists, membership of texts.
use Prim.Native.Nat.{ℕ, suc, ◌+◌, ◌≤◌}
use Prim.Native.String.{String}
use mathlib.Core.Path.{◌≡◌, refl, sym, ap, subst}
use mathlib.Core.Bool.{Bool, false}
use mathlib.Core.Logic.{◌⊎◌, inl, inr}
use mathlib.Core.Option.{Option, none, some}
use mathlib.Core.List.{List, [], ◌∷◌, ◌++◌, map, Memᴰ}
use native.Mathlib.Omega.{arith}
use text.Mathlib.Text.{◌==◌}
use text.Mathlib.TextEquality.{eq_iff}
use flux_operator.Base.Tests.{if◌then◌else◌}

module _ {ℓ} {A : Type ℓ} where
  abbrev pub length : List A → ℕ
  length [] = 0
  length (x ∷ xs) = suc (length xs)

  abbrev pub filter : (A → Bool) → List A → List A
  filter p [] = []
  filter p (x ∷ xs) = let rest = filter p xs in if p x then x ∷ rest else rest

  pub length-append : (xs ys : List A) → length (xs ++ ys) ≡ length xs + length ys
  length-append [] ys = omega arith
  length-append (x ∷ xs) ys = omega (arith, length-append xs ys)

  pub length-filter-le : (p : A → Bool) (xs : List A) → length (filter p xs) ≤ length xs
  length-filter-le p [] = omega arith
  length-filter-le p (x ∷ xs) = ground (arith, length-filter-le p xs)

pub length-map {ℓ κ} :
    {A : Type ℓ} {B : Type κ} (f : A → B) (xs : List A) → length (map f xs) ≡ length xs
length-map f [] = refl
length-map f (x ∷ xs) = ap suc (length-map f xs)

pub List-cases {ℓ} :
    {A : Type ℓ} (xs : List A) → (xs ≡ []) ⊎ ((x : A) × ((r : List A) × (xs ≡ x ∷ r)))
List-cases [] = inl refl
List-cases (x ∷ r) = inr (x, (r, refl))

-- A predicate on every element.
abbrev pub All {ℓ κ} : {A : Type ℓ} → (A → Type κ) → List A → Type κ
All P [] = Unit
All P (x ∷ xs) = P x × All P xs

module _ {ℓ κ} {A : Type ℓ} (P : A → Type κ) where
  pub All-mem : (xs : List A) {x : A} → All P xs → Memᴰ x xs → P x
  All-mem [] h m = elim m [ ]
  All-mem (x ∷ xs) h (Memᴰ.head e) = subst P (sym e) h.0
  All-mem (x ∷ xs) h (Memᴰ.tail m) = All-mem xs h.1 m

  pub All-append : (xs ys : List A) → All P xs → All P ys → All P (xs ++ ys)
  All-append [] ys hx hy = hy
  All-append (x ∷ xs) ys hx hy = (hx.0, All-append xs ys hx.1 hy)

-- A Go map with text keys. A nil map reads as an empty one.
abbrev pub Dict {ℓ} : Type ℓ → Type ℓ
Dict V = List (String × V)

-- `d[key]` in its form with two results.
unfoldable pub lookup {ℓ} : {V : Type ℓ} → String → Dict V → Option V
lookup key [] = none
lookup key ((name, value) ∷ entries) =
    let others = lookup key entries in if name == key then some value else others

-- `d[key] = value`.
unfoldable pub insert {ℓ} : {V : Type ℓ} → String → V → Dict V → Dict V
insert key value [] = (key, value) ∷ []
insert key value ((name, old) ∷ entries) =
    let others = insert key value entries in
    if name == key then (key, value) ∷ entries else (name, old) ∷ others

-- A value that was just written is read back.
pub lookup-insert_self {ℓ} :
    {V : Type ℓ} (key : String) (v : V) (d : Dict V) → lookup key (insert key v d) ≡ some v
unfolding lookup insert
lookup-insert_self key v [] = ground (arith, eq_iff key key)
lookup-insert_self key v ((name, old) ∷ d) =
    ground (arith, eq_iff key key, eq_iff name key, lookup-insert_self key v d)

pub lookup-insert_other {ℓ} :
    {V : Type ℓ} (key other : String) (v : V) (d : Dict V)
    → (other == key) ≡ false
    → lookup key (insert other v d) ≡ lookup key d
unfolding lookup insert
lookup-insert_other key other v [] h = rw h refl
lookup-insert_other key other v ((name, old) ∷ d) h =
    let rest = lookup-insert_other key other v d h in ground (arith, eq_iff name other)
