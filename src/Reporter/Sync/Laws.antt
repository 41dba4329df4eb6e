-- ===== src/Reporter/Sync/Laws.antt =====
-- When a sync is reported as ready.
use flux_operator.Base.{
  String, ◌<>◌, ◌==◌, ◌≡◌, ◌↔◌, refl, ap, ◌∙◌, Bool, true, false, not, Option, none, some, List, [],
  ◌∷◌, inl, inr, Bool-cases, if◌then◌else◌, Option-cases,
}
use flux_operator.Api.Report.{FluxSyncStatus}
use flux_operator.Reporter.Items.{Items}
use flux_operator.Reporter.Cluster.{Cluster, ReportedCondition, FluxStatusReporter}
use flux_operator.Reporter.Stats.{is_failing}
use flux_operator.Reporter.Sync.{sync_conditions, source_conditions, sync_status_of, with_source}

-- The last condition of type Ready.
abbrev pub last_ready : List ReportedCondition → Option ReportedCondition → Option ReportedCondition
last_ready [] found = found
last_ready (c ∷ cs) found = last_ready cs (if c.type == "Ready" then some c else found)

abbrev pub any_failing : List ReportedCondition → Bool
any_failing [] = false
any_failing (c ∷ cs) = if is_failing c then true else any_failing cs

abbrev pub or_none : Option (List ReportedCondition) → List ReportedCondition
or_none none = []
or_none (some cs) = cs

-- Whether there is a condition, and it is not False.
abbrev pub is_good : Option ReportedCondition → Bool
is_good none = false
is_good (some c) = not (c.status == "False")

-- What a condition makes of a status.
abbrev says : Option ReportedCondition → FluxSyncStatus → FluxSyncStatus
says none s = s
says (some c) s = record s { ready = not (c.status == "False"); status = c.message }

sync_conditions_lem :
    (cs : List ReportedCondition) (found : Option ReportedCondition) (s : FluxSyncStatus)
    → sync_conditions cs (says found s) ≡ says (last_ready cs found) s
unfolding sync_conditions
sync_conditions_lem [] found s = refl
sync_conditions_lem (c ∷ cs) none s = elim (Bool-cases (c.type == "Ready")) [
  | inl h ↦ rw h (sync_conditions_lem cs (some c) s)
  | inr h ↦ rw h (sync_conditions_lem cs none s)
]
sync_conditions_lem (c ∷ cs) (some d) s = elim (Bool-cases (c.type == "Ready")) [
  | inl h ↦ rw h (sync_conditions_lem cs (some c) s)
  | inr h ↦ rw h (sync_conditions_lem cs (some d) s)
]

if_same : (b : Bool) → (if b then false else false) ≡ false
if_same true = refl
if_same false = refl

source_conditions-ready :
    (cs : List ReportedCondition) (s : FluxSyncStatus)
    → (source_conditions cs s).ready ≡ (if any_failing cs then false else s.ready)
unfolding source_conditions
source_conditions-ready [] s = refl
source_conditions-ready (c ∷ cs) s = elim (Bool-cases (is_failing c)) [
  | inl h ↦
      let t : FluxSyncStatus = record s {
        ready = false;
        status = s.status <> (" " <> c.message);
      } in
      rw (source_conditions, h) (source_conditions-ready cs t ∙ if_same (any_failing cs))
  | inr h ↦ rw (source_conditions, h) (source_conditions-ready cs s)
]

both : (f g : Bool) → ((if f then false else g) ≡ true) ↔ ((g ≡ true) × (f ≡ false))
both true g = (λ h. absurd (cc), λ h. absurd (let k = h.1 in cc))
both false g = (λ h. (h, refl), λ h. h.0)

module _ {items : Items} {W : Type 0} (cluster : Cluster items W) (r : FluxStatusReporter) where
  -- The conditions of an object, none if it was not found or they cannot be read.
  abbrev pub read_conditions : Option items.Item → List ReportedCondition
  read_conditions none = []
  read_conditions (some obj) = or_none (cluster.conditions_of obj)

  said :
      (c : Option ReportedCondition) (s : FluxSyncStatus)
      → s.ready ≡ false
      → (says c s).ready ≡ is_good c
  said none s h = h
  said (some c) s h = refl

  sync_status_of-ready :
      (name : String) (obj : items.Item)
      → (sync_status_of cluster r name obj).ready
        ≡ is_good (last_ready (read_conditions (some obj)) none)
  unfolding sync_status_of
  sync_status_of-ready name obj = elim (Option-cases (cluster.conditions_of obj)) [
    | inl h ↦ rw (sync_status_of, h) refl
    | inr (cs, h) ↦
        rw (sync_status_of, h)
          (ap (λ z. z.ready) (sync_conditions_lem cs none _) ∙ said (last_ready cs none) _ refl)
  ]

  with_source-ready :
      (s : FluxSyncStatus) (src : Option items.Item)
      → (with_source cluster r s src).ready
        ≡ (if any_failing (read_conditions src) then false else s.ready)
  unfolding with_source
  with_source-ready s none = refl
  with_source-ready s (some obj) = elim (Option-cases (cluster.conditions_of obj)) [
    | inl h ↦ elim (Option-cases (items.nested_string obj ("spec" ∷ "url" ∷ []))) [
      | inl k ↦ rw (with_source, h, k) refl
      | inr (url, k) ↦ rw (with_source, h, k) refl
    ]
    | inr (cs, h) ↦ elim (Option-cases (items.nested_string obj ("spec" ∷ "url" ∷ []))) [
      | inl k ↦ rw (with_source, h, k) (source_conditions-ready cs s)
      | inr (url, k) ↦
          rw (with_source, h, k) (source_conditions-ready cs (record s { source = url }))
    ]
  ]

  -- A sync is reported as ready exactly if the last condition of its Kustomization that is of type
  -- Ready is there and is not False, and no condition of type Ready of its source, where one was
  -- found, is False.
  pub sync_ready_iff :
      (name : String) (obj : items.Item) (src : Option items.Item)
      → ((with_source cluster r (sync_status_of cluster r name obj) src).ready ≡ true) ↔ (
          (is_good (last_ready (read_conditions (some obj)) none) ≡ true)
          × (any_failing (read_conditions src) ≡ false))
  sync_ready_iff name obj src =
      let e = with_source-ready (sync_status_of cluster r name obj) src in
      let k = sync_status_of-ready name obj in
      rw e (rw k (both (any_failing (read_conditions src)) _))
