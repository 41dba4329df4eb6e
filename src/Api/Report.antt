-- ===== src/Api/Report.antt =====
-- api/v1/fluxreport_types.go: the FluxReport object and its interval.
use flux_operator.Base.{
  ◌≡◌, ◌≢◌, String, Bool, true, false, Option, none, some, List, Dict, lookup, ◌==◌, if◌then◌else◌,
  arith, eq_iff,
}
use flux_operator.Base.Int.{ℤ, pos, minutes}
use flux_operator.Api.Conditions.{Condition}
use flux_operator.Api.Instance.{reconcile_every_annotation, disabled_by, duration_of}

pub record FluxDistributionStatus : Type 0 where
  pub entitlement : String
  pub status : String
  pub version : String
  pub managed_by : String

pub record FluxComponentStatus : Type 0 where
  pub name : String
  pub ready : Bool
  pub status : String
  pub image : String

pub record FluxReconcilerStats : Type 0 where
  pub running : ℤ
  pub failing : ℤ
  pub suspended : ℤ
  pub total_size : String

pub record FluxReconcilerStatus : Type 0 where
  pub api_version : String
  pub kind : String
  pub stats : FluxReconcilerStats

pub record FluxSyncStatus : Type 0 where
  pub id : String
  pub path : String
  pub ready : Bool
  pub status : String
  pub source : String

pub record FluxReportSpec : Type 0 where
  pub distribution : FluxDistributionStatus
  pub components_status : List FluxComponentStatus
  pub reconcilers_status : List FluxReconcilerStatus
  pub sync_status : Option FluxSyncStatus

pub record FluxReport : Type 0 where
  pub name : String
  pub namespace : String
  pub annotations : Dict String
  pub spec : FluxReportSpec
  pub conditions : List Condition

unfoldable pub is_disabled : FluxReport → Bool
is_disabled obj = disabled_by obj.annotations

-- `env` is the value of REPORTING_INTERVAL, empty if it is not set. The test on the error is the
-- source's own: a value that parses leaves the default, one that does not sets it to zero.
module _ (parse_duration : String → Option ℤ) (env : String) where
  unfoldable pub default_interval : ℤ
  default_interval =
      if env == ""
      then minutes 5
      else elim (parse_duration env) [ none ↦ pos 0 | some d ↦ minutes 5 ]

  unfoldable pub get_interval : FluxReport → ℤ
  unfolding duration_of
  get_interval obj = elim (is_disabled obj) [
    | true ↦ pos 0
    | false ↦ duration_of parse_duration obj.annotations reconcile_every_annotation default_interval
  ]

-- A value of REPORTING_INTERVAL that is a duration changes no report's interval: the interval is
-- the one with the variable unset.
pub get_interval_ignores_env :
    (parse_duration : String → Option ℤ) (env : String) {d : ℤ} (obj : FluxReport)
    → parse_duration env ≡ some d
    → get_interval parse_duration env obj ≡ get_interval parse_duration "" obj
unfolding get_interval default_interval
get_interval_ignores_env parse_duration env obj h = ground (arith, eq_iff env "")

-- A value of REPORTING_INTERVAL that is set and is no duration turns the interval of a report
-- that is enabled and has no interval of its own into zero, so it is not computed again by time.
get_interval_bad_env :
    (parse_duration : String → Option ℤ) (env : String) (obj : FluxReport)
    → env ≢ ""
    → parse_duration env ≡ none
    → is_disabled obj ≡ false
    → lookup reconcile_every_annotation obj.annotations ≡ none
    → get_interval parse_duration env obj ≡ pos 0
unfolding get_interval default_interval
get_interval_bad_env parse_duration env obj set bad on plain = ground (arith, eq_iff env "")
