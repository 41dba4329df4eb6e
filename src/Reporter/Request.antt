-- ===== src/Reporter/Request.antt =====
-- `RequestReportUpdate` of internal/reporter/reporter.go: the report is asked to be computed anew.
use flux_operator.Base.{
  String, ◌<>◌, true, false, Option, none, some, Dict, insert, Error, Result, ok, err, panic,
  is_not_found, wrap,
}
use flux_operator.Base.Effect.{M}

-- The annotations of the report, and the time in seconds as a decimal text.
pub record Reports (World : Type 0) : Type 0 where
  pub get_report : String → String → M World (Dict String)
  pub patch_report : String → String → String → Dict String → World → Option Error × World
  pub now_unix : World → String

abbrev pub requested_at : String
requested_at = "reconcile.fluxcd.io/requestedAt"

module _ {W : Type 0} (reports : Reports W) where
  -- What is done with the annotations that were read.
  unfoldable pub annotate :
      String → String → String → Result (Dict String) × W → Result (Unit {0}) × W
  annotate name manager namespace (ok annotations, w) =
      let (e, v) =
        reports.patch_report namespace name manager
          (insert requested_at (reports.now_unix w) annotations) w in
      (
        elim e [
          | none ↦ ok tt
          | some x ↦ err (wrap ("failed to annotate FluxReport '" <> (name <> "' error: ")) x)
        ],
        v,
      )
  annotate name manager namespace (err e, w) = (
    elim (is_not_found e) [
      | true ↦ ok tt
      | false ↦ err (wrap ("failed to read FluxReport '" <> (name <> "' error: ")) e)
    ],
    w,
  )
  annotate name manager namespace (panic, w) = (panic, w)

  unfoldable pub request_report_update : String → String → String → M W (Unit {0})
  unfolding annotate
  request_report_update name manager namespace w =
      annotate name manager namespace (reports.get_report namespace name w)
