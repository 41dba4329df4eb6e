-- ===== src/Builder/Template/Typing/Sound.antt =====
-- A template that is well typed is executed without an error.
use flux_operator.Base.{
  String, ◌<>◌, ℕ, suc, ◌≡◌, refl, Bool, true, false, Option, none, some, ◌∷◌, lookup, Result, ok,
  ◌>>=◌, ◌==◌, Bool-cases, inl, inr, ◌&&◌,
}
use flux_operator.Api.Conditions.{is_some}
use flux_operator.Builder.Template.Syntax.{
  Expr, dot, var, field, quoted, num, eq, gt, len, Node, literal, print, assign, if_else, range,
  range_as, Template, end, ◌⨾◌,
}
use flux_operator.Builder.Template.Value.{
  Value, Values, Fields, get_field, find_field, eq_values, gt_values, len_value, truth, shown,
  count,
}
use flux_operator.Builder.Template.Run.{Vars, read_var, eval, each, run_node, run}
use flux_operator.Builder.Template.Typing.{
  Ty, a_string, a_bool, an_int, a_slice, a_struct, a_pointer, Row, no_row, row, HasType, AllType,
  HasRow, Ctx, Matches, empty, bind, find_row, field_type, eq_type, gt_type, len_type, type_of,
  is_printed, given_slice, declare, declared, checks_node, checks,
}

-- A result is a value of the type, if there is one.
abbrev pub Fits : Result Value → Option Ty → Type 0
Fits r none = Unit
Fits r (some σ) = (v : Value) × (r ≡ ok v) × HasType v σ

find-Fits :
    (f : String) {fs : Fields} {r : Row} → HasRow fs r → Fits (find_field f fs) (find_row f r)
unfolding find_field find_row
find-Fits f no_row = tt
find-Fits f (row {f = name} h hs) = elim (Bool-cases (name == f)) [
  | inl y ↦ rw y (_, refl, h)
  | inr n ↦ rw n (find-Fits f hs)
]

read_var-Fits :
    (x : String) {vars : Vars} {Γ : Ctx}
    → Matches vars Γ
    → Fits (read_var (lookup x vars)) (lookup x Γ)
unfolding lookup
read_var-Fits x empty = tt
read_var-Fits x (bind {x = y} h m) = elim (Bool-cases (y == x)) [
  | inl y ↦ rw y (_, refl, h)
  | inr n ↦ rw n (read_var-Fits x m)
]

field-Fits :
    (f : String) (r : Result Value) (t : Option Ty)
    → Fits r t
    → Fits (r >>= get_field f) (field_type f t)
unfolding field_type get_field
field-Fits f _ (some (a_struct r)) (_, p, HasType.struct h) = rw p (find-Fits f h)
field-Fits f r (some a_string) h = tt
field-Fits f r (some a_bool) h = tt
field-Fits f r (some an_int) h = tt
field-Fits f r (some (a_slice _)) h = tt
field-Fits f r (some (a_pointer _)) h = tt
field-Fits f r none h = tt

eq-Fits :
    (r s : Result Value) (t u : Option Ty)
    → Fits r t
    → Fits s u
    → Fits (do x ← r; y ← s; eq_values x y) (eq_type t u)
unfolding eq_type
eq-Fits r s (some a_string) (some a_string) (_, p, HasType.string) (_, q, HasType.string) =
    rw (p, q) (_, refl, HasType.bool)
eq-Fits r s _ _ h k = tt

gt-Fits :
    (r s : Result Value) (t u : Option Ty)
    → Fits r t
    → Fits s u
    → Fits (do x ← r; y ← s; gt_values x y) (gt_type t u)
unfolding gt_type
gt-Fits r s (some an_int) (some an_int) (_, p, HasType.int) (_, q, HasType.int) =
    rw (p, q) (_, refl, HasType.bool)
gt-Fits r s _ _ h k = tt

len-Fits : (r : Result Value) (t : Option Ty) → Fits r t → Fits (r >>= len_value) (len_type t)
unfolding len_type len_value count
len-Fits r (some (a_slice τ)) (_, p, HasType.slice h) = rw p (_, refl, HasType.int)
len-Fits r _ h = tt

eval-Fits :
    (e : Expr) {d : Value} {τ : Ty} {vars : Vars} {Γ : Ctx}
    → HasType d τ
    → Matches vars Γ
    → Fits (eval e d vars) (type_of e τ Γ)
unfolding eval type_of
eval-Fits dot h m = (_, refl, h)
eval-Fits (var x) h m = read_var-Fits x m
eval-Fits (field e f) h m = field-Fits f _ _ (eval-Fits e h m)
eval-Fits (quoted s) h m = (_, refl, HasType.string)
eval-Fits (num n) h m = (_, refl, HasType.int)
eval-Fits (eq a b) h m = eq-Fits _ _ _ _ (eval-Fits a h m) (eval-Fits b h m)
eval-Fits (gt a b) h m = gt-Fits _ _ _ _ (eval-Fits a h m) (eval-Fits b h m)
eval-Fits (len e) h m = len-Fits _ _ (eval-Fits e h m)

given-Fits :
    (r : Result Value) (t : Option Ty) → Fits r t → is_some t ≡ true → (v : Value) × (r ≡ ok v)
given-Fits r (some σ) (v, p, h) e = (v, p)
given-Fits r none h e = absurd (cc)

declare-Fits :
    (x : String) (r : Result Value) (t : Option Ty) {vars : Vars} {Γ : Ctx}
    → Fits r t
    → is_some t ≡ true
    → Matches vars Γ
    → (v : Value) × (r ≡ ok v) × Matches ((x, v) ∷ vars) (declare x t Γ)
unfolding declare
declare-Fits x r (some σ) (v, p, h) e m = (v, p, bind h m)
declare-Fits x r none h e m = absurd (cc)

shown-Fits :
    (r : Result Value) (t : Option Ty)
    → Fits r t
    → is_printed t ≡ true
    → (v : Value) × (s : String) × (r ≡ ok v) × (shown v ≡ ok s)
unfolding is_printed
shown-Fits r (some a_string) (_, p, HasType.string) e = (_, _, p, refl)
shown-Fits r (some a_bool) (_, p, HasType.bool {b = true}) e = (_, _, p, refl)
shown-Fits r (some a_bool) (_, p, HasType.bool {b = false}) e = (_, _, p, refl)
shown-Fits r (some an_int) h e = absurd (cc)
shown-Fits r (some (a_slice _)) h e = absurd (cc)
shown-Fits r (some (a_struct _)) h e = absurd (cc)
shown-Fits r (some (a_pointer _)) h e = absurd (cc)
shown-Fits r none h e = absurd (cc)

slice-Fits :
    (r : Result Value) (t : Option Ty) (k : Ty → Bool)
    → Fits r t
    → given_slice t k ≡ true
    → (σ : Ty) × (vs : Values) × (r ≡ ok (Value.slice vs)) × AllType vs σ × (k σ ≡ true)
slice-Fits r (some (a_slice σ)) k (_, p, HasType.slice h) e = (σ, _, p, h, e)
slice-Fits r (some a_string) k h e = absurd (cc)
slice-Fits r (some a_bool) k h e = absurd (cc)
slice-Fits r (some an_int) k h e = absurd (cc)
slice-Fits r (some (a_struct _)) k h e = absurd (cc)
slice-Fits r (some (a_pointer _)) k h e = absurd (cc)
slice-Fits r none k h e = absurd (cc)

both : (a b : Bool) → (a && b) ≡ true → (a ≡ true) × (b ≡ true)
both true b h = (refl, h)
both false b h = absurd (cc)

each-ok :
    (pass : ℕ → Value → Result String) (σ : Ty)
    → ((i : ℕ) (v : Value) → HasType v σ → (s : String) × (pass i v ≡ ok s))
    → (i : ℕ) {vs : Values} → AllType vs σ
    → (s : String) × (each pass i vs ≡ ok s)
unfolding each
each-ok pass σ h i AllType.no_values = (_, refl)
each-ok pass σ h i (AllType.value v vs) =
    let (s, p) = h i _ v in let (t, q) = each-ok pass σ h (suc i) vs in (s <> t, rw (p, q) refl)

-- An action has printed something, and the variables that it leaves are of the types declared.
abbrev Ran : Result (String × Vars) → Ctx → Type 0
Ran r Γ = (s : String) × (vars : Vars) × (r ≡ ok (s, vars)) × Matches vars Γ

mutual
  unfolding run_node run checks_node checks declared

  node-Ran :
      (n : Node) {d : Value} {τ : Ty} {vars : Vars} {Γ : Ctx}
      → HasType d τ
      → Matches vars Γ
      → checks_node n τ Γ ≡ true
      → Ran (run_node n d vars) (declared n τ Γ)
  node-Ran (literal s) h m c = (_, _, refl, m)
  node-Ran (print e) {vars} h m c =
      let (v, s, p, q) = shown-Fits _ _ (eval-Fits e h m) c in (s, vars, rw (p, q) refl, m)
  node-Ran (assign x e) {vars} h m c =
      let (v, p, k) = declare-Fits x _ _ (eval-Fits e h m) c m in ("", (x, v) ∷ vars, rw p refl, k)
  node-Ran (if_else e t f) {d} {τ} {vars} {Γ} h m c =
      let (c0, c12) = both (is_some (type_of e τ Γ)) (checks t τ Γ && checks f τ Γ) c in
      let (c1, c2) = both (checks t τ Γ) (checks f τ Γ) c12 in
      let (v, p) = given-Fits _ _ (eval-Fits e h m) c0 in
      let (s, q) = run-ok t h m c1 in
      let (u, r) = run-ok f h m c2 in
      elim (Bool-cases (truth v)) [
        | inl y ↦ (s, vars, rw (p, q, y) refl, m)
        | inr n ↦ (u, vars, rw (p, r, n) refl, m)
      ]
  node-Ran (range e body) {vars} h m c =
      let (σ, vs, p, k, b) = slice-Fits _ _ _ (eval-Fits e h m) c in
      let (s, q) = each-ok _ σ (λ i v hv. run-ok body hv m b) 0 k in (s, vars, rw (p, q) refl, m)
  node-Ran (range_as i x e body) {vars} {Γ} h m c =
      let (σ, vs, p, k, b) =
        slice-Fits _ _ (λ ρ. checks body ρ ((x, ρ) ∷ (i, an_int) ∷ Γ)) (eval-Fits e h m) c in
      let (s, q) =
        each-ok _ σ
          (λ j v hv. run-ok body hv (bind {x = x} hv (bind {x = i} (HasType.int {n = j}) m)) b) 0
          k in
      (s, vars, rw (p, q) refl, m)

  pub run-ok :
      (t : Template) {d : Value} {τ : Ty} {vars : Vars} {Γ : Ctx}
      → HasType d τ
      → Matches vars Γ
      → checks t τ Γ ≡ true
      → (s : String) × (run t d vars ≡ ok s)
  run-ok end h m c = (_, refl)
  run-ok (n ⨾ t) {d} {τ} {vars} {Γ} h m c =
      let (c0, c1) = both (checks_node n τ Γ) (checks t τ (declared n τ Γ)) c in
      let (s, vars', p, m') = node-Ran n h m c0 in
      let (u, q) = run-ok t h m' c1 in (s <> u, rw (p, q) refl)
