-- ===== src/Builder/Template/Value.antt =====
-- What a template is executed on. A pointer to a struct that is not nil reads as the struct.
use flux_operator.Base.{
  String, ℕ, suc, Bool, true, false, not, ◌==◌, ltb, Result, ok, err, errorf, if◌then◌else◌,
}

mutual
  pub data Value : Type 0 where
    string : String → Value
    bool : Bool → Value
    int : ℕ → Value
    nil : Value
    slice : Values → Value
    struct : Fields → Value

  pub data Values : Type 0 where
    no_values : Values
    value : Value → Values → Values

  pub data Fields : Type 0 where
    no_fields : Fields
    with_field : String → Value → Fields → Fields

unfoldable pub find_field : String → Fields → Result Value
find_field f no_fields = err (errorf "can't evaluate field")
find_field f (with_field name v fields) =
    let others = find_field f fields in if name == f then ok v else others

-- `v.F`.
unfoldable pub get_field : String → Value → Result Value
unfolding find_field
get_field f (struct fields) = find_field f fields
get_field f nil = err (errorf "nil pointer evaluating field")
get_field f _ = err (errorf "can't evaluate field")

-- `eq`, which the templates use on texts.
abbrev pub eq_values : Value → Value → Result Value
eq_values (string a) (string b) = ok (bool (a == b))
eq_values _ _ = err (errorf "incompatible types for comparison")

-- `gt`, which the templates use on lengths.
abbrev pub gt_values : Value → Value → Result Value
gt_values (int a) (int b) = ok (bool (ltb b a))
gt_values _ _ = err (errorf "incompatible types for comparison")

unfoldable pub count : Values → ℕ
count no_values = 0
count (value _ vs) = suc (count vs)

-- `len`.
unfoldable pub len_value : Value → Result Value
unfolding count
len_value (slice vs) = ok (int (count vs))
len_value _ = err (errorf "len of a value without a length")

-- What `if` tests: a value that is not the zero value of its type.
abbrev pub truth : Value → Bool
truth (string s) = not (s == "")
truth (bool b) = b
truth (int n) = ltb 0 n
truth nil = false
truth (slice no_values) = false
truth (slice (value _ _)) = true
truth (struct _) = true

-- What an action prints. The templates print texts and Booleans only.
abbrev pub shown : Value → Result String
shown (string s) = ok s
shown (bool true) = ok "true"
shown (bool false) = ok "false"
shown _ = err (errorf "can't print")

abbrev pub elements : Value → Result Values
elements (slice vs) = ok vs
elements _ = err (errorf "range can't iterate over")
