-- ===== src/Reporter/Stats.antt =====
-- internal/reporter/reconcilers.go: the statistics of each kind.
pub mod Format
pub mod Bounds
pub mod Laws
pub mod Rows
use flux_operator.Base.{
  String, ◌<>◌, ◌==◌, ℕ, zero, suc, ◌+◌, ◌-◌, ◌%◌, ◌^◌, Bool, true, false, ◌&&◌, Option, none, some,
  List, [], ◌∷◌, Error, Result, ok, err, panic, if◌then◌else◌, leb, ltb, eqb,
}
use flux_operator.Base.Int.{ℤ, pos, negsuc}
use flux_operator.Base.Effect.{M, ◌>>=◌, ◌>>◌, after, return}
use flux_operator.Api.Report.{FluxReconcilerStats, FluxReconcilerStatus}
use flux_operator.Reporter.Items.{Items}
use flux_operator.Reporter.Metrics.{record_metrics, reset_metrics, is_suspended}
use flux_operator.Reporter.Cluster.{Cluster, GroupVersionKind, ReportedCondition}
use flux_operator.Reporter.Crds.{api_version}
use flux_operator.Reporter.Size.{unit, divisor, letters}

-- An int64 is kept by its bits, as a number below 2 ^ 64.
abbrev pub to_int64 : ℤ → ℕ
to_int64 (pos n) = n % (2 ^ 64)
to_int64 (negsuc n) = (2 ^ 64 - 1) - n % (2 ^ 64)

abbrev pub from_int64 : ℕ → ℤ
from_int64 b = if ltb b (2 ^ 63) then pos b else negsuc ((2 ^ 64 - 1) - b)

-- `a - b` of two counts.
abbrev pub minus : ℕ → ℕ → ℤ
minus a b = if leb b a then pos (a - b) else negsuc (b - a - 1)

abbrev pub letter_at : ℕ → List String → Option String
letter_at n [] = none
letter_at zero (l ∷ ls) = some l
letter_at (suc n) (l ∷ ls) = letter_at n ls

-- The counters of the loop over the objects of a kind.
pub record Tally : Type 0 where
  pub suspended : ℕ
  pub failing : ℕ
  pub size : ℕ

abbrev pub zero_tally : Tally
zero_tally = record { suspended = 0; failing = 0; size = 0 }

abbrev pub is_failing : ReportedCondition → Bool
is_failing c = c.type == "Ready" && c.status == "False"

-- The inner loop: one more for every condition that says so.
unfoldable pub count_failing : List ReportedCondition → ℕ → ℕ
count_failing [] failing = failing
count_failing (c ∷ cs) failing = count_failing cs (if is_failing c then failing + 1 else failing)

module _ {items : Items} {W : Type 0} (cluster : Cluster items W) where
  open cluster use {
    conditions_of, printed_int, printed_ratio, get_gauges, set_gauges, stable_sort, before,
  }

  -- The scaled form. A place outside the letters panics, and so does a loop that outruns its fuel.
  unfoldable pub scaled : ℕ → Option (ℕ × ℕ) → Result String
  scaled b none = panic
  scaled b (some (div, exp)) = elim (letter_at exp letters) [
    | none ↦ panic
    | some letter ↦ ok (printed_ratio (pos b) (from_int64 div) <> (" " <> (letter <> "iB")))
  ]

  unfoldable pub format_size : ℕ → Result String
  unfolding scaled
  format_size b =
      if eqb b 0
      then ok ""
      else if ltb b (2 ^ 63)
      then (if ltb b unit then ok (printed_int (pos b) <> " B") else scaled b (divisor b))
      else ok (printed_int (from_int64 b) <> " B")

  unfoldable pub tally_item : items.Item → Tally → Tally
  unfolding count_failing
  tally_item item t = record {
    suspended =
        if is_suspended items (items.nested_bool item ("spec" ∷ "suspend" ∷ []))
        then t.suspended + 1
        else t.suspended;
    failing = elim (conditions_of item) [ none ↦ t.failing | some cs ↦ count_failing cs t.failing ];
    size = elim (items.nested_int64 item ("status" ∷ "artifact" ∷ "size" ∷ [])) [
      | none ↦ t.size
      | some size ↦ (t.size + to_int64 size) % (2 ^ 64)
    ];
  }

  unfoldable pub record_item : items.Item → M W (Unit {0})
  record_item item w = elim (record_metrics items item (get_gauges w)) [
    | ok gauges ↦ (ok tt, set_gauges gauges w)
    | err e ↦ (err e, w)
    | panic ↦ (panic, w)
  ]

  -- The loop over the objects of a kind.
  unfoldable pub tally : List items.Item → Tally → M W Tally
  unfolding record_item tally_item
  tally [] t = return t
  tally (item ∷ list) t = record_item item >> tally list (tally_item item t)

  abbrev pub row : GroupVersionKind → ℕ → Tally → String → FluxReconcilerStatus
  row gvk total t size = record {
    api_version = api_version gvk;
    kind = gvk.kind;
    stats = record {
      running = minus total t.suspended;
      failing = pos t.failing;
      suspended = pos t.suspended;
      total_size = size;
    };
  }

  unfoldable pub reconciler_status : GroupVersionKind → ℕ → Tally → Result FluxReconcilerStatus
  unfolding format_size
  reconciler_status gvk total t = elim (format_size t.size) [
    | ok size ↦ ok (row gvk total t size)
    | err e ↦ err e
    | panic ↦ panic
  ]

  abbrev pub length : List items.Item → ℕ
  length [] = 0
  length (x ∷ xs) = length xs + 1

  -- What follows the call of List for a kind: the error so far is added to.
  unfoldable pub stats_with :
      GroupVersionKind
      → Option Error
      → Result (List items.Item) × W
      → Result (FluxReconcilerStatus × Option Error) × W
  unfolding reconciler_status tally
  stats_with gvk e (ok list, w) = after (tally list zero_tally w) (λ t v. (
    elim (reconciler_status gvk (length list) t) [
      | ok s ↦ ok (s, e)
      | err x ↦ err x
      | panic ↦ panic
    ],
    v,
  ))
  stats_with gvk e (err x, w) = (
    elim (reconciler_status gvk 0 zero_tally) [
      | ok s ↦ ok (s, some (cluster.aggregate e x))
      | err y ↦ err y
      | panic ↦ panic
    ],
    w,
  )
  stats_with gvk e (panic, w) = (panic, w)

  -- The loop over the kinds, with the error so far.
  unfoldable pub stats_of :
      List GroupVersionKind → Option Error → M W (List FluxReconcilerStatus × Option Error)
  unfolding stats_with
  stats_of [] e w = (ok ([], e), w)
  stats_of (gvk ∷ crds) e w =
      after (stats_with gvk e (cluster.list_items (api_version gvk) gvk.kind "" [] w))
        (λ x. stats_of crds x.1 >>= λ y. return (x.0 ∷ y.0, y.1))

  abbrev pub by_kind : FluxReconcilerStatus → FluxReconcilerStatus → Bool
  by_kind i j = before (i.api_version <> i.kind) (j.api_version <> j.kind)

  -- The statistics come back with the error, which may be nil.
  unfoldable pub get_reconcilers_status :
      List GroupVersionKind → M W (List FluxReconcilerStatus × Option Error)
  unfolding stats_of
  get_reconcilers_status crds w =
      let v = set_gauges (reset_metrics "FluxResource" (get_gauges w)) w in
      after (stats_of crds none v) (λ x. return (stable_sort by_kind x.0, x.1))
