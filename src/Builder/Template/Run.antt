-- ===== src/Builder/Template/Run.antt =====
-- The execution of a template. The texts of its errors are not those of the library.
use flux_operator.Base.{
  String, ◌<>◌, ℕ, suc, Option, none, some, ◌∷◌, Dict, lookup, Result, ok, err, errorf, ◌>>=◌,
  if◌then◌else◌,
}
use flux_operator.Builder.Template.Syntax.{
  Expr, dot, var, field, quoted, num, eq, gt, len, Node, literal, print, assign, if_else, range,
  range_as, Template, end, ◌⨾◌,
}
use flux_operator.Builder.Template.Value.{
  Value, string, int, Values, no_values, value, get_field, eq_values, gt_values, len_value, truth,
  shown, elements,
}

-- The variables, the latest first.
abbrev pub Vars : Type 0
Vars = Dict Value

abbrev pub read_var : Option Value → Result Value
read_var none = err (errorf "undefined variable")
read_var (some v) = ok v

unfoldable pub eval : Expr → Value → Vars → Result Value
unfolding get_field lookup len_value
eval dot d vars = ok d
eval (var x) d vars = read_var (lookup x vars)
eval (field e f) d vars = eval e d vars >>= get_field f
eval (quoted s) d vars = ok (string s)
eval (num n) d vars = ok (int n)
eval (eq a b) d vars = do x ← eval a d vars; y ← eval b d vars; eq_values x y
eval (gt a b) d vars = do x ← eval a d vars; y ← eval b d vars; gt_values x y
eval (len e) d vars = eval e d vars >>= len_value

-- The passes of a `range`, from the index on.
unfoldable pub each : (ℕ → Value → Result String) → ℕ → Values → Result String
each pass i no_values = ok ""
each pass i (value v vs) = do s ← pass i v; rest ← each pass (suc i) vs; ok (s <> rest)

-- What is printed with `.` being `d`. A variable is seen in the list of actions that declares it,
-- behind its declaration.
unfoldable mutual
  unfolding eval each

  pub run_node : Node → Value → Vars → Result (String × Vars)
  run_node (literal s) d vars = ok (s, vars)
  run_node (print e) d vars = do v ← eval e d vars; s ← shown v; ok (s, vars)
  run_node (assign x e) d vars = do v ← eval e d vars; ok ("", (x, v) ∷ vars)
  run_node (if_else e t f) d vars =
      let yes = run t d vars in
      let no = run f d vars in do v ← eval e d vars; s ← (if truth v then yes else no); ok (s, vars)
  run_node (range e body) d vars = do
    v ← eval e d vars
    vs ← elements v
    s ← each (λ i x. run body x vars) 0 vs
    ok (s, vars)
  run_node (range_as i x e body) d vars = do
    v ← eval e d vars
    vs ← elements v
    s ← each (λ n y. run body y ((x, y) ∷ (i, int n) ∷ vars)) 0 vs
    ok (s, vars)

  pub run : Template → Value → Vars → Result String
  run end d vars = ok ""
  run (n ⨾ t) d vars = do (s, vars') ← run_node n d vars; rest ← run t d vars'; ok (s <> rest)
