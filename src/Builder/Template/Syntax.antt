-- ===== src/Builder/Template/Syntax.antt =====
-- The part of Go's text/template in which internal/builder/templates.go is written, as it is
-- parsed. A `literal` is text that is printed as it is. The white space in front of an action that
-- begins with `{{-` belongs to no literal.
use flux_operator.Base.{String, ℕ}

-- `.`, `$x`, `e.F`, `"s"`, a number, and the functions `eq`, `gt` and `len`.
pub data Expr : Type 0 where
  dot : Expr
  var : String → Expr
  field : Expr → String → Expr
  quoted : String → Expr
  num : ℕ → Expr
  eq gt : Expr → Expr → Expr
  len : Expr → Expr

-- `{{ e }}`, `{{ $x := e }}`, `{{ if e }}…{{ else }}…{{ end }}`, `{{ range e }}…{{ end }}` and
-- `{{ range $i, $x := e }}…{{ end }}`. A missing `else` is an empty one.
infixr 67 ◌⨾◌
mutual
  pub data Node : Type 0 where
    literal : String → Node
    print : Expr → Node
    assign : String → Expr → Node
    if_else : Expr → Template → Template → Node
    range : Expr → Template → Node
    range_as : String → String → Expr → Template → Node

  pub data Template : Type 0 where
    end : Template
    ◌⨾◌ : Node → Template → Template
