-- ===== src/Reporter/Stats/Laws.antt =====
-- The statistics of a kind: the counts add up, and the total size is exact while an int64 holds it.
use flux_operator.Base.{
  String, ℕ, ◌+◌, ◌-◌, ◌≤◌, ◌<◌, ◌≡◌, refl, sym, ap, ◌∙◌, true, Option, List, Error, ok, err, panic,
  leb, inl, inr, arith, Result-cases, ok_injective,
}
use flux_operator.Base.Int.{pos}
use flux_operator.Base.Effect.{after-ok}
use flux_operator.Api.Report.{FluxReconcilerStatus}
use flux_operator.Reporter.Items.{Items}
use flux_operator.Reporter.Cluster.{Cluster, GroupVersionKind}
use flux_operator.Reporter.Stats.Format.{format_size_returns}
use flux_operator.Reporter.Stats.{
  Tally, zero_tally, tally, reconciler_status, stats_with, row, format_size, length, minus,
}
use flux_operator.Reporter.Stats.Bounds.{
  IsApi, total_size, tally-suspended, tally-failing, tally-size,
}

module _ {items : Items} {W : Type 0} (cluster : Cluster items W) where
  -- What the statistics of a kind say of its objects.
  pub record Counts (list : List items.Item) (s : FluxReconcilerStatus) : Type 0 where
    pub running : ℕ
    pub suspended : ℕ
    pub failing : ℕ
    pub is_running : s.stats.running ≡ pos running
    pub is_suspended : s.stats.suspended ≡ pos suspended
    pub is_failing : s.stats.failing ≡ pos failing
    pub adds_up : running + suspended ≡ length cluster list
    pub most : failing ≤ length cluster list

  -- What the counters of a finished loop were made into.
  pub stats_with_ok :
      (gvk : GroupVersionKind) (e : Option Error) (list : List items.Item) (w : W)
      {s : FluxReconcilerStatus} {x : Option Error}
      → (stats_with cluster gvk e (ok list, w)).0 ≡ ok (s, x)
      → (t : Tally) × ((tally cluster list zero_tally w).0 ≡ ok t)
        × (reconciler_status cluster gvk (length cluster list) t ≡ ok s)
        × (x ≡ e)
  unfolding stats_with
  stats_with_ok gvk e list w {s} {x} h =
      let (t, (v, a, b)) =
        after-ok (tally cluster list zero_tally w)
          (λ t v. (
            elim (reconciler_status cluster gvk (length cluster list) t) [
              | ok s ↦ ok (s, e)
              | err y ↦ err y
              | panic ↦ panic
            ],
            v,
          ))
          h in
      elim (Result-cases (reconciler_status cluster gvk (length cluster list) t)) [
        | inl (s', q) ↦
            let i = ok_injective {a = (s', e)} {b = (s, x)} (rw q at b) in
            (t, ap (λ y. y.0) a, q ∙ ap (λ y. ok (y.0)) i, sym (ap (λ y. y.1) i))
        | inr (inl (y, q)) ↦ absurd (let k : err y ≡ ok (s, x) = rw q at b in cc)
        | inr (inr q) ↦ absurd (let k : panic ≡ ok (s, x) = rw q at b in cc)
      ]

  minus_lem : (a b : ℕ) → b ≤ a → minus a b ≡ pos (a - b)
  minus_lem a b h = (let e : leb b a ≡ true = ground arith in rw e refl)

  -- The row with the size that was written.
  pub reconciler_status_ok :
      (gvk : GroupVersionKind) (n : ℕ) (t : Tally) {s : FluxReconcilerStatus}
      → reconciler_status cluster gvk n t ≡ ok s
      → (z : String) × (format_size cluster t.size ≡ ok z) × (s ≡ row cluster gvk n t z)
  unfolding reconciler_status
  reconciler_status_ok gvk n t {s} h =
      let (z, q) = format_size_returns cluster t.size in
      let k : ok (row cluster gvk n t z) ≡ ok s = rw (reconciler_status, q) at h in (z, q, cc)

  -- Where the objects of a kind were listed and counted, conditions are keyed by their type and no
  -- size is negative, the objects that run and those that are suspended are together the objects
  -- of the list, and no more of them fail than there are.
  pub stats_with-Counts :
      (api : IsApi cluster) (gvk : GroupVersionKind) (e : Option Error) (list : List items.Item)
      (w : W) {s : FluxReconcilerStatus} {x : Option Error}
      → (stats_with cluster gvk e (ok list, w)).0 ≡ ok (s, x)
      → Counts list s
  stats_with-Counts api gvk e list w h =
      let (t, a, b, _) = stats_with_ok gvk e list w h in
      let (z, q, r) = reconciler_status_ok gvk (length cluster list) t b in
      let low' = tally-suspended cluster list zero_tally w a in
      let low : t.suspended ≤ length cluster list = omega arith in
      let most' = tally-failing cluster api list zero_tally w a in
      record {
        running = length cluster list - t.suspended;
        suspended = t.suspended;
        failing = t.failing;
        is_running = ap (λ y. y.stats.running) r ∙ minus_lem _ _ low;
        is_suspended = ap (λ y. y.stats.suspended) r;
        is_failing = ap (λ y. y.stats.failing) r;
        adds_up = omega arith;
        most = omega arith;
      }

  -- Where the objects of a kind were listed and counted, conditions are keyed by their type, no
  -- size is negative and the sum of the sizes is an int64, the total size is the sum as it is
  -- written.
  pub stats_with-total_size :
      (api : IsApi cluster) (gvk : GroupVersionKind) (e : Option Error) (list : List items.Item)
      (w : W) {s : FluxReconcilerStatus} {x : Option Error}
      → total_size cluster list < 9223372036854775808
      → (stats_with cluster gvk e (ok list, w)).0 ≡ ok (s, x)
      → format_size cluster (total_size cluster list) ≡ ok s.stats.total_size
  stats_with-total_size api gvk e list w l h =
      let (t, a, b, _) = stats_with_ok gvk e list w h in
      let (z, q, r) = reconciler_status_ok gvk (length cluster list) t b in
      let k' = tally-size cluster api list zero_tally w (omega arith) a in
      let k : t.size ≡ total_size cluster list = omega arith in
      rw (← k) (q ∙ ap (λ y. ok (y.stats.total_size)) (sym r))
