-- ===== src/Builder/Template/Typing.antt =====
-- Types of the data of a template, and the checker of templates against them.
pub mod Sound
use flux_operator.Base.{
  String, ℕ, Bool, true, false, Option, none, some, List, [], ◌∷◌, Dict, lookup, ◌&&◌, ◌==◌,
  if◌then◌else◌,
}
use flux_operator.Api.Conditions.{is_some}
use flux_operator.Builder.Template.Syntax.{
  Expr, dot, var, field, quoted, num, eq, gt, len, Node, literal, print, assign, if_else, range,
  range_as, Template, end, ◌⨾◌,
}
use flux_operator.Builder.Template.Value.{Value, Values, Fields, no_fields, with_field}
use flux_operator.Builder.Template.Run.{Vars}

mutual
  pub data Ty : Type 0 where
    a_string a_bool an_int : Ty
    a_slice : Ty → Ty
    a_struct a_pointer : Row → Ty

  pub data Row : Type 0 where
    no_row : Row
    row : String → Ty → Row → Row

-- A pointer to a struct is nil or a struct.
mutual
  pub data HasType : Value → Ty → Type 0 where
    string : {s : String} → HasType (Value.string s) a_string
    bool : {b : Bool} → HasType (Value.bool b) a_bool
    int : {n : ℕ} → HasType (Value.int n) an_int
    slice : {vs : Values} {τ : Ty} → AllType vs τ → HasType (Value.slice vs) (a_slice τ)
    struct : {fs : Fields} {r : Row} → HasRow fs r → HasType (Value.struct fs) (a_struct r)
    nil : {r : Row} → HasType Value.nil (a_pointer r)
    set : {fs : Fields} {r : Row} → HasRow fs r → HasType (Value.struct fs) (a_pointer r)

  pub data AllType : Values → Ty → Type 0 where
    no_values : {τ : Ty} → AllType Values.no_values τ
    value :
        {v : Value} {vs : Values} {τ : Ty}
        → HasType v τ
        → AllType vs τ
        → AllType (Values.value v vs) τ

  pub data HasRow : Fields → Row → Type 0 where
    no_row : HasRow no_fields Row.no_row
    row :
        {f : String} {v : Value} {fs : Fields} {τ : Ty} {r : Row}
        → HasType v τ
        → HasRow fs r
        → HasRow (with_field f v fs) (Row.row f τ r)

abbrev pub Ctx : Type 0
Ctx = Dict Ty

pub data Matches : Vars → Ctx → Type 0 where
  empty : Matches [] []
  bind :
      {x : String} {v : Value} {vars : Vars} {τ : Ty} {Γ : Ctx}
      → HasType v τ
      → Matches vars Γ
      → Matches ((x, v) ∷ vars) ((x, τ) ∷ Γ)

unfoldable pub find_row : String → Row → Option Ty
find_row f no_row = none
find_row f (row name τ r) = let others = find_row f r in if name == f then some τ else others

-- The type of a field: only a struct has fields for certain.
unfoldable pub field_type : String → Option Ty → Option Ty
unfolding find_row
field_type f (some (a_struct r)) = find_row f r
field_type f _ = none

unfoldable pub eq_type : Option Ty → Option Ty → Option Ty
eq_type (some a_string) (some a_string) = some a_bool
eq_type _ _ = none

unfoldable pub gt_type : Option Ty → Option Ty → Option Ty
gt_type (some an_int) (some an_int) = some a_bool
gt_type _ _ = none

unfoldable pub len_type : Option Ty → Option Ty
len_type (some (a_slice _)) = some an_int
len_type _ = none

-- The type of an expression where `.` has the type `τ`.
unfoldable pub type_of : Expr → Ty → Ctx → Option Ty
unfolding field_type eq_type gt_type len_type lookup
type_of dot τ Γ = some τ
type_of (var x) τ Γ = lookup x Γ
type_of (field e f) τ Γ = field_type f (type_of e τ Γ)
type_of (quoted s) τ Γ = some a_string
type_of (num n) τ Γ = some an_int
type_of (eq a b) τ Γ = eq_type (type_of a τ Γ) (type_of b τ Γ)
type_of (gt a b) τ Γ = gt_type (type_of a τ Γ) (type_of b τ Γ)
type_of (len e) τ Γ = len_type (type_of e τ Γ)

unfoldable pub is_printed : Option Ty → Bool
is_printed (some a_string) = true
is_printed (some a_bool) = true
is_printed _ = false

-- Whether what follows, given the type of an expression, is well typed.
abbrev pub given_slice : Option Ty → (Ty → Bool) → Bool
given_slice (some (a_slice τ)) k = k τ
given_slice _ k = false

unfoldable pub declare : String → Option Ty → Ctx → Ctx
declare x (some σ) Γ = (x, σ) ∷ Γ
declare x none Γ = Γ

-- A template has no execution errors on data of the type `τ`.
unfoldable mutual
  unfolding type_of is_printed declare

  pub declared : Node → Ty → Ctx → Ctx
  declared (assign x e) τ Γ = declare x (type_of e τ Γ) Γ
  declared _ τ Γ = Γ

  pub checks_node : Node → Ty → Ctx → Bool
  checks_node (literal s) τ Γ = true
  checks_node (print e) τ Γ = is_printed (type_of e τ Γ)
  checks_node (assign x e) τ Γ = is_some (type_of e τ Γ)
  checks_node (if_else e t f) τ Γ = is_some (type_of e τ Γ) && (checks t τ Γ && checks f τ Γ)
  checks_node (range e body) τ Γ = given_slice (type_of e τ Γ) (λ σ. checks body σ Γ)
  checks_node (range_as i x e body) τ Γ =
      given_slice (type_of e τ Γ) (λ σ. checks body σ ((x, σ) ∷ (i, an_int) ∷ Γ))

  pub checks : Template → Ty → Ctx → Bool
  checks end τ Γ = true
  checks (n ⨾ t) τ Γ = checks_node n τ Γ && checks t τ (declared n τ Γ)
