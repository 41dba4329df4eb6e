-- ===== src/Api/Conditions.antt =====
-- Status conditions. The types, states and reasons are the constants of fluxcd/pkg/apis/meta of
-- which the program uses that they differ; the operations are those of fluxcd/pkg/runtime.
use flux_operator.Base.{◌≡◌, String, Bool, true, false, Option, none, some, List, if◌then◌else◌}

pub data ConditionType : Type 0 where
  ready reconciling stalled : ConditionType

pub data Status : Type 0 where
  is_true is_false is_unknown : Status

pub data ConditionReason : Type 0 where
  progressing progressing_with_retry artifact_failed build_failed : ConditionReason
  reconciliation_failed reconciliation_succeeded succeeded : ConditionReason

pub record Condition : Type 0 where
  pub type : ConditionType
  pub status : Status
  pub reason : ConditionReason
  pub message : String

abbrev pub same_type : ConditionType → ConditionType → Bool
same_type ready ready = true
same_type reconciling reconciling = true
same_type stalled stalled = true
same_type _ _ = false

abbrev pub same_status : Status → Status → Bool
same_status is_true is_true = true
same_status is_false is_false = true
same_status is_unknown is_unknown = true
same_status _ _ = false

-- Whether a condition is there and in the state.
abbrev pub in_state : Status → Option Condition → Bool
in_state s none = false
in_state s (some c) = same_status c.status s

abbrev pub is_some {ℓ} : {A : Type ℓ} → Option A → Bool
is_some none = false
is_some (some a) = true

-- What the program calls of fluxcd/pkg/runtime/conditions, on the conditions of an object.
pub record ConditionSet : Type 0 where
  pub get : List Condition → ConditionType → Option Condition
  pub set : List Condition → Condition → List Condition
  pub delete : List Condition → ConditionType → List Condition
  pub mark_true : List Condition → ConditionType → ConditionReason → String → List Condition
  pub mark_false : List Condition → ConditionType → ConditionReason → String → List Condition
  pub mark_unknown : List Condition → ConditionType → ConditionReason → String → List Condition
  pub mark_reconciling : List Condition → ConditionReason → String → List Condition

abbrev pub condition : ConditionType → Status → ConditionReason → String → Condition
condition t s r m = record { type = t; status = s; reason = r; message = m }

-- What is documented of these calls. `mark_reconciling` also removes the stalled condition.
pub record IsConditionSet (c : ConditionSet) : Type 0 where
  pub get-type :
      (cs : List Condition) (t : ConditionType) {d : Condition} → c.get cs t ≡ some d → d.type ≡ t
  pub get-set :
      (cs : List Condition) (d : Condition) (t : ConditionType)
      → c.get (c.set cs d) t ≡ (if same_type d.type t then some d else c.get cs t)
  pub get-delete :
      (cs : List Condition) (u t : ConditionType)
      → c.get (c.delete cs u) t ≡ (if same_type u t then none else c.get cs t)
  pub get-mark_true :
      (cs : List Condition) (u : ConditionType) (r : ConditionReason) (m : String)
      (t : ConditionType)
      → c.get (c.mark_true cs u r m) t
        ≡ (if same_type u t then some (condition u is_true r m) else c.get cs t)
  pub get-mark_false :
      (cs : List Condition) (u : ConditionType) (r : ConditionReason) (m : String)
      (t : ConditionType)
      → c.get (c.mark_false cs u r m) t
        ≡ (if same_type u t then some (condition u is_false r m) else c.get cs t)
  pub get-mark_unknown :
      (cs : List Condition) (u : ConditionType) (r : ConditionReason) (m : String)
      (t : ConditionType)
      → c.get (c.mark_unknown cs u r m) t
        ≡ (if same_type u t then some (condition u is_unknown r m) else c.get cs t)
  pub get-mark_reconciling :
      (cs : List Condition) (r : ConditionReason) (m : String) (t : ConditionType)
      → c.get (c.mark_reconciling cs r m) t ≡ (
          if same_type reconciling t
          then some (condition reconciling is_true r m)
          else if same_type stalled t
          then none
          else c.get cs t)
