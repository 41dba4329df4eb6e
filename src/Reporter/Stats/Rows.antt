-- ===== src/Reporter/Stats/Rows.antt =====
-- The rows of the statistics, and the error that they come with.
use mathlib.Core.List.{Perm, Pairwise}
use mathlib.Core.List.Perm
use flux_operator.Base.{
  String, ◌≡◌, ◌≢◌, refl, sym, ap, ◌∙◌, false, Option, none, some, List, [], ◌∷◌, ◌++◌, map, Error,
  Result, ok, err, panic, ok_injective,
}
use flux_operator.Base.Sort.{IsSort}
use flux_operator.Base.Effect.{after, after-ok, after_done, ◌>>=◌, return}
use flux_operator.Api.Report.{FluxReconcilerStatus}
use flux_operator.Reporter.Items.{Items}
use flux_operator.Reporter.Metrics.{reset_metrics}
use flux_operator.Reporter.Cluster.{Cluster, GroupVersionKind}
use flux_operator.Reporter.Crds.{api_version}
use flux_operator.Reporter.Stats.Laws.{stats_with_ok, reconciler_status_ok}
use flux_operator.Reporter.Stats.{
  zero_tally, stats_with, stats_of, row, get_reconcilers_status, by_kind,
}

-- The names of a row and of a kind.
abbrev pub row_name : FluxReconcilerStatus → String × String
row_name s = (s.api_version, s.kind)

abbrev pub gvk_name : GroupVersionKind → String × String
gvk_name gvk = (api_version gvk, gvk.kind)

module _ {items : Items} {W : Type 0} (cluster : Cluster items W) where
  -- A kind whose list is refused has a row of zeros, and the error is added.
  stats_with_err :
      (gvk : GroupVersionKind) (e : Option Error) (y : Error) (w : W)
      → stats_with cluster gvk e (err y, w)
        ≡ (ok (row cluster gvk 0 zero_tally "", some (cluster.aggregate e y)), w)
  unfolding stats_with
  stats_with_err gvk e y w = refl

  -- The row of a kind that was dealt with.
  stats_with-name :
      (gvk : GroupVersionKind) (e : Option Error) (l : Result (List items.Item) × W)
      {s : FluxReconcilerStatus} {x : Option Error}
      → (stats_with cluster gvk e l).0 ≡ ok (s, x)
      → row_name s ≡ gvk_name gvk
  unfolding stats_with
  stats_with-name gvk e (ok list, w) h =
      let (t, a, b, _) = stats_with_ok cluster gvk e list w h in
      let (z, q, r) = reconciler_status_ok cluster gvk _ t b in ap row_name r
  stats_with-name gvk e (err y, w) {s} {x} h =
      (let i : row cluster gvk 0 zero_tally "" ≡ s = cc in ap row_name (sym i))
  stats_with-name gvk e (panic, w) h = absurd (cc)

  -- No error is taken away.
  stats_with-error :
      (gvk : GroupVersionKind) (e : Option Error) (l : Result (List items.Item) × W)
      {s : FluxReconcilerStatus} {x : Option Error}
      → (stats_with cluster gvk e l).0 ≡ ok (s, x)
      → e ≢ none
      → x ≢ none
  unfolding stats_with
  stats_with-error gvk e (ok list, w) h c =
      (let (t, a, b, q) = stats_with_ok cluster gvk e list w h in λ k. c (sym q ∙ k))
  stats_with-error gvk e (err y, w) {s} {x} h c =
      (let i : some (cluster.aggregate e y) ≡ x = cc in λ k. cc)
  stats_with-error gvk e (panic, w) h c = absurd (cc)

  stats_of_ok :
      (gvk : GroupVersionKind) (crds : List GroupVersionKind) (e : Option Error) (w : W)
      {rows : List FluxReconcilerStatus} {x : Option Error}
      → (stats_of cluster (gvk ∷ crds) e w).0 ≡ ok (rows, x)
      → (s : FluxReconcilerStatus) × ((e' : Option Error) × ((v : W) × ((rest : List
                FluxReconcilerStatus)
              × (stats_with cluster gvk e (cluster.list_items (api_version gvk) gvk.kind "" [] w)
                  ≡ (ok (s, e'), v))
              × ((stats_of cluster crds e' v).0 ≡ ok (rest, x))
              × (rows ≡ s ∷ rest))))
  unfolding stats_of
  stats_of_ok gvk crds e w {rows} {x} h =
      let ((s, e'), (v, p, k)) =
        after-ok (stats_with cluster gvk e (cluster.list_items (api_version gvk) gvk.kind "" [] w))
          (λ y. stats_of cluster crds y.1 >>= λ z. return (y.0 ∷ z.0, z.1)) h in
      let ((rest, x'), (u, q, i)) =
        after-ok (stats_of cluster crds e' v) (λ z. return (s ∷ z.0, z.1)) k in
      let j : ◌≡◌ {A = List FluxReconcilerStatus × Option Error} (s ∷ rest, x') (rows, x) = cc in
      (s, (e', (v, (rest, p, ap (λ y. y.0) q ∙ ap (λ y. ok (rest, y.1)) j, sym (ap (λ y. y.0) j)))))

  stats_of-names :
      (crds : List GroupVersionKind) (e : Option Error) (w : W) {rows : List FluxReconcilerStatus}
      {x : Option Error}
      → (stats_of cluster crds e w).0 ≡ ok (rows, x)
      → map row_name rows ≡ map gvk_name crds
  unfolding stats_of
  stats_of-names [] e w {rows} {x} h =
      (let q : ◌≡◌ {A = List FluxReconcilerStatus × Option Error} ([], e) (rows, x) = cc in
        ap (λ y. map row_name (y.0)) (sym q))
  stats_of-names (gvk ∷ crds) e w {rows} {x} h =
      let (s, (e', (v, (rest, p, k, r)))) = stats_of_ok gvk crds e w h in
      let a = stats_with-name gvk e _ (ap (λ y. y.0) p) in
      let b = stats_of-names crds e' v k in
      ap (map row_name) r ∙ (ap (λ y. y ∷ map row_name rest) a ∙ ap (λ y. gvk_name gvk ∷ y) b)

  -- An error that is there stays.
  stats_of-error :
      (crds : List GroupVersionKind) (e : Option Error) (w : W) {rows : List FluxReconcilerStatus}
      {x : Option Error}
      → (stats_of cluster crds e w).0 ≡ ok (rows, x)
      → e ≢ none
      → x ≢ none
  unfolding stats_of
  stats_of-error [] e w {rows} {x} h c =
      let q = ok_injective {a = ([], e)} {b = (rows, x)} h in λ k. c (ap (λ y. y.1) q ∙ k)
  stats_of-error (gvk ∷ crds) e w h c =
      let (s, (e', (v, (rest, p, k, r)))) = stats_of_ok gvk crds e w h in
      stats_of-error crds e' v k (stats_with-error gvk e _ (ap (λ y. y.0) p) c)

  -- One kind that cannot be listed, after others that were gone through.
  stats_of_lost :
      (before : List GroupVersionKind) (gvk : GroupVersionKind) (crds : List GroupVersionKind)
      (e : Option Error) (w : W) {done : List FluxReconcilerStatus} {f : Option Error} {v : W}
      {y : Error} {u : W} {rows : List FluxReconcilerStatus} {x : Option Error}
      → stats_of cluster before e w ≡ (ok (done, f), v)
      → cluster.list_items (api_version gvk) gvk.kind "" [] v ≡ (err y, u)
      → (stats_of cluster (before ++ gvk ∷ crds) e w).0 ≡ ok (rows, x)
      → x ≢ none
  unfolding stats_of
  stats_of_lost [] gvk crds e w {done} {f} {v} {y} {u} d l h =
      let wv : w ≡ v = ap (λ z. z.1) d in
      let (s, (e', (v', (rest, p, k, r)))) = stats_of_ok gvk crds e w h in
      let p' : stats_with cluster gvk e (err y, u) ≡ (ok (s, e'), v') = rw (rw (← wv) at l) at p in
      let i =
        ok_injective {a = (row cluster gvk 0 zero_tally "", some (cluster.aggregate e y))}
          {b = (s, e')} (ap (λ z. z.0) (sym (stats_with_err gvk e y u) ∙ p')) in
      stats_of-error crds e' v' k
        (λ z. (let q : some (cluster.aggregate e y) ≡ none = ap (λ a. a.1) i ∙ z in cc))
  stats_of_lost (b ∷ before) gvk crds e w {done} {f} {v} {y} {u} d l h =
      let (s, (e', (v', (rest, p, k, r)))) = stats_of_ok b (before ++ gvk ∷ crds) e w h in
      let d' : after (stats_with cluster b e (cluster.list_items (api_version b) b.kind "" [] w))
            (λ y. stats_of cluster before y.1 >>= λ z. return (y.0 ∷ z.0, z.1))
          ≡ (ok (done, f), v) =
        d in
      let g : after (stats_of cluster before e' v') (λ z. return (s ∷ z.0, z.1))
          ≡ (ok (done, f), v) =
        rw p at d' in
      let ((done', f'), (v'', q, j)) =
        after_done (stats_of cluster before e' v') (λ z. return (s ∷ z.0, z.1)) g in
      let i = ok_injective {a = (s ∷ done', f')} {b = (done, f)} (ap (λ z. z.0) j) in
      let same : v'' ≡ v = ap (λ z. z.1) j in
      stats_of_lost before gvk crds e' v' {y = y} {u = u} q (rw same l) k

  -- Where the sort is one and nothing panics, the statistics have one row for each kind, with or
  -- without an error, and come in the order of the names of the rows.
  pub get_reconcilers_status-rows :
      IsSort (by_kind cluster) (cluster.stable_sort (by_kind cluster))
      → (crds : List GroupVersionKind) (w : W) {rows : List FluxReconcilerStatus} {x : Option Error}
      → (get_reconcilers_status cluster crds w).0 ≡ ok (rows, x)
      → Perm (map row_name rows) (map gvk_name crds)
        × Pairwise (λ a b. by_kind cluster b a ≡ false) rows
  unfolding get_reconcilers_status
  get_reconcilers_status-rows s crds w {rows} {x} h =
      let ((rows', x'), (v, p, k)) =
        after-ok
          (stats_of cluster crds none
            (cluster.set_gauges (reset_metrics "FluxResource" (cluster.get_gauges w)) w))
          (λ y. return (cluster.stable_sort (by_kind cluster) y.0, y.1)) h in
      let e : cluster.stable_sort (by_kind cluster) rows' ≡ rows =
        ap (λ y. y.0)
          (ok_injective {a = (cluster.stable_sort (by_kind cluster) rows', x')} {b = (rows, x)}
            k) in
      let n = stats_of-names crds none _ (ap (λ y. y.0) p) in
      (rw (← e) (rw (← n) (Perm.map row_name (s.perm rows'))), rw (← e) (s.sorted rows'))

  pub get_reconcilers_status_lost :
      (before : List GroupVersionKind) (gvk : GroupVersionKind) (crds : List GroupVersionKind)
      (w : W) {done : List FluxReconcilerStatus} {f : Option Error} {v : W} {y : Error} {u : W}
      {rows : List FluxReconcilerStatus} {x : Option Error}
      → stats_of cluster before none
          (cluster.set_gauges (reset_metrics "FluxResource" (cluster.get_gauges w)) w)
        ≡ (ok (done, f), v)
      → cluster.list_items (api_version gvk) gvk.kind "" [] v ≡ (err y, u)
      → (get_reconcilers_status cluster (before ++ gvk ∷ crds) w).0 ≡ ok (rows, x)
      → x ≢ none
  unfolding get_reconcilers_status
  get_reconcilers_status_lost before gvk crds w {rows} {x} d l h =
      let ((rows', x'), (v', p, k)) =
        after-ok
          (stats_of cluster (before ++ gvk ∷ crds) none
            (cluster.set_gauges (reset_metrics "FluxResource" (cluster.get_gauges w)) w))
          (λ y. return (cluster.stable_sort (by_kind cluster) y.0, y.1)) h in
      let e : x' ≡ x =
        ap (λ y. y.1)
          (ok_injective {a = (cluster.stable_sort (by_kind cluster) rows', x')} {b = (rows, x)}
            k) in
      rw (← e) (stats_of_lost before gvk crds none _ d l (ap (λ y. y.0) p))
