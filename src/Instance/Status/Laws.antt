-- ===== src/Instance/Status/Laws.antt =====
-- What the conditions of a FluxInstance say once a reconciliation has reported.
use flux_operator.Base.{
  ◌≡◌, refl, ◌∙◌, true, false, none, some, List, arith, Option-cases, Bool-cases, inl, inr, ◌⊎◌,
}
use flux_operator.Api.Conditions.{
  Condition, ConditionSet, IsConditionSet, ConditionType, progressing_with_retry, ready,
  reconciling, stalled, is_true, is_false, in_state, same_type,
}
use flux_operator.Instance.Status.{mark_retrying, drop_reconciling, finalize_conditions}

module _ (cs : ConditionSet) (l : IsConditionSet cs) (conditions : List Condition) where
  -- The conditions after the step that changes the reason.
  get-mark_retrying :
      (t : ConditionType)
      → same_type reconciling t ≡ false
      → cs.get (mark_retrying cs conditions) t ≡ cs.get conditions t
  unfolding mark_retrying
  get-mark_retrying t other = elim (Option-cases (cs.get conditions reconciling)) [
    | inl n ↦ rw (mark_retrying, n)
    | inr (rc, e) ↦ elim (Bool-cases (in_state is_false (cs.get conditions ready))) [
      | inl y ↦
          rw (mark_retrying, e, y)
            (l.get-set conditions (record rc { reason = progressing_with_retry }) t
              ∙ rw (l.get-type conditions reconciling e, other))
      | inr n ↦ rw (mark_retrying, e, n)
    ]
  ]

  -- The reconciling condition after that step.
  mark_retrying_kept :
      {rc : Condition}
      → cs.get conditions reconciling ≡ some rc
      → (d : Condition) × (cs.get (mark_retrying cs conditions) reconciling ≡ some d)
        × (in_state is_false (cs.get conditions ready) ≡ true → d.reason ≡ progressing_with_retry)
  unfolding mark_retrying
  mark_retrying_kept {rc} e = elim (Bool-cases (in_state is_false (cs.get conditions ready))) [
    | inl y ↦ (
      record rc { reason = progressing_with_retry },
      rw (mark_retrying, e, y)
          (l.get-set conditions (record rc { reason = progressing_with_retry }) reconciling
            ∙ rw (l.get-type conditions reconciling e)),
      λ _. refl,
    )
    | inr n ↦ (rc, rw (mark_retrying, e, n) e, λ y. absurd (cc))
  ]

  -- Reporting leaves the ready and the stalled condition as they were.
  finalize_conditions_others :
      (t : ConditionType)
      → same_type reconciling t ≡ false
      → cs.get (finalize_conditions cs conditions) t ≡ cs.get conditions t
  unfolding finalize_conditions drop_reconciling
  finalize_conditions_others t other =
      ground
        (arith, get-mark_retrying t other, l.get-delete (mark_retrying cs conditions) reconciling t)

  -- After the report of an object that is ready or stalled there is no reconciling condition.
  finalize_conditions_done :
      (in_state is_true (cs.get conditions ready) ≡ true)
        ⊎ (in_state is_true (cs.get conditions stalled) ≡ true)
      → cs.get (finalize_conditions cs conditions) reconciling ≡ none
  unfolding finalize_conditions drop_reconciling
  finalize_conditions_done h = ground (
    arith,
    get-mark_retrying ready refl,
    get-mark_retrying stalled refl,
    l.get-delete (mark_retrying cs conditions) reconciling reconciling,
  )

  -- The report of an object that is neither ready nor stalled keeps its reconciling condition, and
  -- where it has failed, this says that it will be tried again.
  finalize_conditions_kept :
      {rc : Condition}
      → cs.get conditions reconciling ≡ some rc
      → in_state is_true (cs.get conditions ready) ≡ false
      → in_state is_true (cs.get conditions stalled) ≡ false
      → (d : Condition) × (cs.get (finalize_conditions cs conditions) reconciling ≡ some d)
        × (in_state is_false (cs.get conditions ready) ≡ true → d.reason ≡ progressing_with_retry)
  unfolding finalize_conditions drop_reconciling
  finalize_conditions_kept e r s =
      let (d, k, again) = mark_retrying_kept e in
      (d, ground (arith, get-mark_retrying ready refl, get-mark_retrying stalled refl), again)
