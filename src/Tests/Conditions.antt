-- ===== src/Tests/Conditions.antt =====
-- Conditions that keep the contract of the library.
use flux_operator.Base.{
  ◌≡◌, refl, sym, ap, ◌∙◌, true, not, Option, none, some, List, [], ◌∷◌, if◌then◌else◌, filter,
  Bool-cases, inl, inr, arith,
}
use flux_operator.Api.Conditions.{
  ConditionType, Condition, ConditionSet, IsConditionSet, condition, same_type, is_true, is_false,
  is_unknown, reconciling, stalled, ready,
}

-- Conditions, the latest first.
abbrev pub find_condition : List Condition → ConditionType → Option Condition
find_condition [] t = none
find_condition (c ∷ cs) t = if same_type c.type t then some c else find_condition cs t

abbrev pub without_condition : List Condition → ConditionType → List Condition
without_condition cs t = filter (λ c. not (same_type c.type t)) cs

abbrev pub sample_conditions : ConditionSet
sample_conditions = record {
  get = find_condition;
  set = λ cs d. d ∷ cs;
  delete = without_condition;
  mark_true = λ cs t r m. condition t is_true r m ∷ cs;
  mark_false = λ cs t r m. condition t is_false r m ∷ cs;
  mark_unknown = λ cs t r m. condition t is_unknown r m ∷ cs;
  mark_reconciling = λ cs r m. condition reconciling is_true r m ∷ without_condition cs stalled;
}

same_type_right : (a u t : ConditionType) → same_type a u ≡ true → same_type a t ≡ same_type u t
same_type_right ready ready t h = refl
same_type_right reconciling reconciling t h = refl
same_type_right stalled stalled t h = refl
same_type_right ready reconciling t h = absurd (cc)
same_type_right ready stalled t h = absurd (cc)
same_type_right reconciling ready t h = absurd (cc)
same_type_right reconciling stalled t h = absurd (cc)
same_type_right stalled ready t h = absurd (cc)
same_type_right stalled reconciling t h = absurd (cc)

same_type-eq : (a t : ConditionType) → same_type a t ≡ true → a ≡ t
same_type-eq ready ready h = refl
same_type-eq reconciling reconciling h = refl
same_type-eq stalled stalled h = refl
same_type-eq ready reconciling h = absurd (cc)
same_type-eq ready stalled h = absurd (cc)
same_type-eq reconciling ready h = absurd (cc)
same_type-eq reconciling stalled h = absurd (cc)
same_type-eq stalled ready h = absurd (cc)
same_type-eq stalled reconciling h = absurd (cc)

get-without :
    (cs : List Condition) (u t : ConditionType)
    → find_condition (without_condition cs u) t
      ≡ (if same_type u t then none else find_condition cs t)
get-without [] u t = elim (Bool-cases (same_type u t)) [ inl h ↦ rw h refl | inr h ↦ rw h refl ]
get-without (c ∷ cs) u t = elim (Bool-cases (same_type c.type u)) [
  | inl h ↦ rw h (get-without cs u t ∙ ground (arith, same_type_right c.type u t h))
  | inr h ↦
      rw h (ground (arith, get-without cs u t, same_type_right u t u, same_type_right c.type t u))
]

found-type :
    (cs : List Condition) (t : ConditionType) {d : Condition}
    → find_condition cs t ≡ some d
    → d.type ≡ t
found-type [] t h = absurd (cc)
found-type (c ∷ cs) t {d} h = elim (Bool-cases (same_type c.type t)) [
  | inl e ↦
      let k : some c ≡ some d = rw e at h in
      (let q : c ≡ d = cc in ap (λ x. x.type) (sym q) ∙ same_type-eq c.type t e)
  | inr e ↦ (let k : find_condition cs t ≡ some d = rw e at h in found-type cs t k)
]

sample_conditions-laws : IsConditionSet sample_conditions
sample_conditions-laws = record {
  get-type = λ cs t. found-type cs t;
  get-set = λ cs d t. refl;
  get-delete = get-without;
  get-mark_true = λ cs u r m t. refl;
  get-mark_false = λ cs u r m t. refl;
  get-mark_unknown = λ cs u r m t. refl;
  get-mark_reconciling = λ cs r m t. ground (arith, get-without cs stalled t);
}
