-- ===== src/Reporter/Stats/Bounds.antt =====
-- The loop over the objects of a kind: what its counters can come to.
use mathlib.Core.List.{Mem, Pairwise, mem-cons_self, mem-cons_of_mem}
use flux_operator.Base.{
  ℕ, ◌+◌, ◌≤◌, ◌<◌, ◌≡◌, ◌≢◌, refl, sym, ap, ◌∙◌, true, Option, none, some, List, [], ◌∷◌, ok, inl,
  inr, Bool-cases, arith, eq_iff, Option-cases,
}
use flux_operator.Base.Int.{ℤ, pos, negsuc}
use flux_operator.Base.Effect.{after-ok}
use flux_operator.Reporter.Items.{Items}
use flux_operator.Reporter.Cluster.{Cluster, ReportedCondition}
use flux_operator.Reporter.Stats.{
  Tally, tally, tally_item, count_failing, is_failing, length, record_item,
}

-- At most one condition of a type.
abbrev pub Unique : List ReportedCondition → Type 0
Unique cs = Pairwise (λ a b. a.type ≢ b.type) cs

is_failing_type : (c : ReportedCondition) → is_failing c ≡ true → c.type ≡ "Ready"
is_failing_type c h = (eq_iff c.type "Ready").0 (ground arith)

-- No condition of another type counts.
count_failing_others :
    (cs : List ReportedCondition) (n : ℕ)
    → ((c : ReportedCondition) → Mem c cs → c.type ≢ "Ready")
    → count_failing cs n ≡ n
unfolding count_failing
count_failing_others [] n h = refl
count_failing_others (c ∷ cs) n h = elim (Bool-cases (is_failing c)) [
  | inl f ↦ absurd (h c mem-cons_self (is_failing_type c f))
  | inr f ↦ rw f (count_failing_others cs n (λ d m. h d (mem-cons_of_mem c m)))
]

count_failing_most : (cs : List ReportedCondition) (n : ℕ) → Unique cs → count_failing cs n ≤ n + 1
unfolding count_failing
count_failing_most [] n u = omega arith
count_failing_most (c ∷ cs) n (Pairwise.cons other u) = elim (Bool-cases (is_failing c)) [
  | inl f ↦ rw f (
      let e : count_failing cs (n + 1) ≡ n + 1 =
        count_failing_others cs (n + 1) (λ d m q. other d m (is_failing_type c f ∙ sym q)) in
      omega arith)
  | inr f ↦ rw f (count_failing_most cs n u)
]

-- What the API promises of the objects: conditions are keyed by their type, and no size is negative.
pub record IsApi {items : Items} {W : Type 0} (cluster : Cluster items W) : Type 0 where
  pub unique :
      (i : items.Item) {cs : List ReportedCondition} → cluster.conditions_of i ≡ some cs → Unique cs
  pub not_negative :
      (i : items.Item) {z : ℤ}
      → items.nested_int64 i ("status" ∷ "artifact" ∷ "size" ∷ []) ≡ some z
      → (n : ℕ) × (z ≡ pos n)

module _ {items : Items} {W : Type 0} (cluster : Cluster items W) where
  open cluster use {conditions_of}

  abbrev size_of : items.Item → Option ℤ
  size_of item = items.nested_int64 item ("status" ∷ "artifact" ∷ "size" ∷ [])

  abbrev natural : Option ℤ → ℕ
  natural none = 0
  natural (some (pos n)) = n
  natural (some (negsuc n)) = 0

  -- The sum of the sizes.
  abbrev pub total_size : List items.Item → ℕ
  total_size [] = 0
  total_size (item ∷ list) = natural (size_of item) + total_size list

  tally_ok :
      (item : items.Item) (list : List items.Item) (t : Tally) (w : W) {t' : Tally}
      → (tally cluster (item ∷ list) t w).0 ≡ ok t'
      → (v : W) × ((tally cluster list (tally_item cluster item t) v).0 ≡ ok t')
  unfolding tally
  tally_ok item list t w h =
      let (a, (v, e, k)) =
        after-ok (record_item cluster item w) (λ _. tally cluster list (tally_item cluster item t))
          h in
      (v, k)

  pub tally-suspended :
      (list : List items.Item) (t : Tally) (w : W) {t' : Tally}
      → (tally cluster list t w).0 ≡ ok t'
      → t'.suspended ≤ t.suspended + length cluster list
  unfolding tally tally_item
  tally-suspended [] t w {t'} h = (let e : t ≡ t' = cc in rw (← e) omega arith)
  tally-suspended (item ∷ list) t w {t'} h =
      let (v, k) = tally_ok item list t w h in
      let i : t'.suspended ≤ (tally_item cluster item t).suspended + length cluster list =
        tally-suspended list _ v k in
      ground arith

  pub tally-failing :
      IsApi cluster
      → (list : List items.Item) (t : Tally) (w : W) {t' : Tally}
      → (tally cluster list t w).0 ≡ ok t'
      → t'.failing ≤ t.failing + length cluster list
  unfolding tally tally_item
  tally-failing u [] t w {t'} h = (let e : t ≡ t' = cc in rw (← e) omega arith)
  tally-failing u (item ∷ list) t w {t'} h =
      let (v, k) = tally_ok item list t w h in
      let i : t'.failing ≤ (tally_item cluster item t).failing + length cluster list =
        tally-failing u list _ v k in
      elim (Option-cases (conditions_of item)) [
        | inl n ↦ (let j : t'.failing ≤ t.failing + length cluster list = rw n at i in omega arith)
        | inr (cs, n) ↦
            let j : t'.failing ≤ count_failing cs t.failing + length cluster list = rw n at i in
            let m = count_failing_most cs t.failing (u.unique item n) in omega arith
      ]

  -- While the sum fits, no addition wraps.
  pub tally-size :
      IsApi cluster
      → (list : List items.Item) (t : Tally) (w : W) {t' : Tally}
      → t.size + total_size list < 9223372036854775808
      → (tally cluster list t w).0 ≡ ok t'
      → t'.size ≡ t.size + total_size list
  unfolding tally tally_item
  tally-size u [] t w {t'} l h = (let e : t ≡ t' = cc in rw (← e) omega arith)
  tally-size u (item ∷ list) t w {t'} l h =
      let (v, k) = tally_ok item list t w h in
      let s : (tally_item cluster item t).size ≡ t.size + natural (size_of item) =
        elim (Option-cases (size_of item)) [
          | inl n ↦ rw n (omega arith)
          | inr (z, n) ↦
              (let (a, e) = u.not_negative item n in
                (let q : size_of item ≡ some (pos a) = n ∙ ap some e in
                  let b : natural (size_of item) ≡ a = rw q refl in rw q (omega arith)))
        ] in
      let i = tally-size u list (tally_item cluster item t) v (omega arith) k in omega arith
