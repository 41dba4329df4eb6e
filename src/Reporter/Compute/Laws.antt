-- ===== src/Reporter/Compute/Laws.antt =====
-- What the report holds when it is computed.
use flux_operator.Base.{
  String, ◌≡◌, refl, ap, ◌∙◌, Option, none, some, List, Error, Result, ok, err, panic, ok_injective,
  wrapping,
}
use flux_operator.Base.Effect.{M, after, after_done, ◌>>=◌, prefixed}
use flux_operator.Api.Report.{
  FluxReconcilerStatus, FluxDistributionStatus, FluxComponentStatus, FluxSyncStatus,
}
use flux_operator.Reporter.Items.{Items}
use flux_operator.Reporter.Cluster.{Cluster, GroupVersionKind, FluxStatusReporter}
use flux_operator.Reporter.Crds.{list_crds}
use flux_operator.Reporter.Components.{get_components_status}
use flux_operator.Reporter.Distribution.{get_distribution_status}
use flux_operator.Reporter.Stats.{get_reconcilers_status}
use flux_operator.Reporter.Sync.{get_sync_status}
use flux_operator.Reporter.Compute.{
  Draft, compute, compute_from, compute_reconcilers, without_error, empty_spec, call,
}

module _ {items : Items} {W : Type 0} (cluster : Cluster items W) (r : FluxStatusReporter) where
  -- The parts of a report, one after the other.
  pub record Computed (w : W) (d : Draft W) : Type 0 where
    pub w1 : W
    pub w2 : W
    pub w3 : W
    pub w4 : W
    pub crds : List GroupVersionKind
    pub distribution : get_distribution_status cluster r w ≡ (ok d.spec.distribution, w1)
    pub definitions : list_crds cluster r w1 ≡ (ok crds, w2)
    pub components : get_components_status cluster r w2 ≡ (ok d.spec.components_status, w3)
    pub reconcilers :
        get_reconcilers_status cluster crds w3 ≡ (ok (d.spec.reconcilers_status, none), w4)
    pub sync : get_sync_status cluster r crds w4 ≡ (ok d.spec.sync_status, d.world)

  -- A call that went well, with a text in front of its errors or none.
  call_ok :
      {A B : Type 0} (m : M W A) (d : Draft W) (f : A → M (Draft W) B) {b : B} {t : Draft W}
      → after (call m d) f ≡ (ok b, t)
      → (a : A) × ((v : W) × (m d.world ≡ (ok a, v)) × (f a (record d { world = v }) ≡ (ok b, t)))
  call_ok {A} m d f {b} {t} h = from (m d.world) h refl
    where
      from :
          (x : Result A × W)
          → after (x.0, record d { world = x.1 }) f ≡ (ok b, t)
          → m d.world ≡ x
          → (a : A) × ((v : W) × (m d.world ≡ (ok a, v))
              × (f a (record d { world = v }) ≡ (ok b, t)))
      from (ok a, v) k e = (a, (v, e, k))
      from (err x, v) k e = absurd (cc)
      from (panic, v) k e = absurd (cc)

  prefixed_ok :
      {A B : Type 0} (p : String) (m : M W A) (d : Draft W) (f : A → M (Draft W) B) {b : B}
      {t : Draft W}
      → after (prefixed p (call m) d) f ≡ (ok b, t)
      → (a : A) × ((v : W) × (m d.world ≡ (ok a, v)) × (f a (record d { world = v }) ≡ (ok b, t)))
  prefixed_ok {A} p m d f {b} {t} h = from (m d.world) h refl
    where
      from :
          (x : Result A × W)
          → after (wrapping p x.0, record d { world = x.1 }) f ≡ (ok b, t)
          → m d.world ≡ x
          → (a : A) × ((v : W) × (m d.world ≡ (ok a, v))
              × (f a (record d { world = v }) ≡ (ok b, t)))
      from (ok a, v) k e = (a, (v, e, k))
      from (err x, v) k e = absurd (cc)
      from (panic, v) k e = absurd (cc)

  without_error_ok :
      (x : List FluxReconcilerStatus × Option Error) (v : W) {stats : List FluxReconcilerStatus}
      {u : W}
      → without_error x v ≡ (ok stats, u)
      → (x ≡ (stats, none)) × (v ≡ u)
  unfolding without_error
  without_error_ok (rows, none) v {stats} h = (
    let i : rows ≡ stats = ok_injective (ap (λ z. z.0) h) in ap (λ z. (z, none)) i,
    ap (λ z. z.1) h,
  )
  without_error_ok (rows, some e) v h = absurd (cc)

  computed_lem :
      {w w1 w2 w3 w4 w5 : W} {dist : FluxDistributionStatus} {crds : List GroupVersionKind}
      {comps : List FluxComponentStatus} {stats : List FluxReconcilerStatus}
      {s : Option FluxSyncStatus} {d : Draft W}
      → get_distribution_status cluster r w ≡ (ok dist, w1)
      → list_crds cluster r w1 ≡ (ok crds, w2)
      → get_components_status cluster r w2 ≡ (ok comps, w3)
      → (get_reconcilers_status cluster crds >>= without_error) w3 ≡ (ok stats, w4)
      → get_sync_status cluster r crds w4 ≡ (ok s, w5)
      → record {
        spec = record {
          distribution = dist;
          components_status = comps;
          reconcilers_status = stats;
          sync_status = s;
        };
        world = w5;
      }
        ≡ d
      → Computed w d
  computed_lem {w} {w1} {w2} {w3} {w4} {w5} {dist} {crds} {comps} {stats} {s} {d} p1 p2 p3 p4 p5 e =
      let (x, (v, q, k)) = after_done (get_reconcilers_status cluster crds w3) without_error p4 in
      let (xe, ve) = without_error_ok x v k in
      record {
        w1 = w1;
        w2 = w2;
        w3 = w3;
        w4 = w4;
        crds = crds;
        distribution = p1 ∙ ap (λ z. (ok (z.spec.distribution), w1)) e;
        definitions = p2;
        components = p3 ∙ ap (λ z. (ok (z.spec.components_status), w3)) e;
        reconcilers =
            q
            ∙ (ap (λ z. (ok z, v)) xe
                ∙ (ap (λ z. (ok (stats, none), z)) ve
                    ∙ ap (λ z. (ok (z.spec.reconcilers_status, none), w4)) e));
        sync = p5 ∙ ap (λ z. (ok (z.spec.sync_status), z.world)) e;
      }

  -- Where the report is computed without an error or a panic, the spec holds what the distribution,
  -- the components, the statistics and the sync came back with, called in this order, each in the
  -- state that the one before left, over the kinds that were listed after the distribution.
  pub compute_ok : (w : W) {d : Draft W} → compute cluster r w ≡ (ok tt, d) → Computed w d
  unfolding compute compute_from compute_reconcilers
  compute_ok w {d} h =
      let d0 : Draft W = record { spec = empty_spec; world = w } in
      let (dist, (w1, p1, h1)) = call_ok (get_distribution_status cluster r) d0 _ h in
      let d1 : Draft W = record { spec = record empty_spec { distribution = dist }; world = w1 } in
      let (crds, (w2, p2, h2)) =
        prefixed_ok "failed to list CRDs: " (list_crds cluster r) d1 _ h1 in
      let (comps, (w3, p3, h3)) =
        prefixed_ok "failed to compute components status: " (get_components_status cluster r)
          (record d1 { world = w2 }) _ h2 in
      let d3 : Draft W = record {
        spec = record empty_spec { distribution = dist; components_status = comps };
        world = w3;
      } in
      let (stats, (w4, p4, h4)) =
        prefixed_ok "failed to compute reconcilers status: "
          (get_reconcilers_status cluster crds >>= without_error) d3 _ h3 in
      let d4 : Draft W = record {
        spec = record empty_spec {
          distribution = dist;
          components_status = comps;
          reconcilers_status = stats;
        };
        world = w4;
      } in
      let (s, (w5, p5, h5)) =
        prefixed_ok "failed to compute sync status: " (get_sync_status cluster r crds) d4 _ h4 in
      computed_lem p1 p2 p3 p4 p5 (ap (λ z. z.1) h5)
