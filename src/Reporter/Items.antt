-- ===== src/Reporter/Items.antt =====
-- Unstructured objects, by the accessors that the reporter calls.
use flux_operator.Base.{String, Bool, Option, List, Dict}
use flux_operator.Base.Int.{ℤ}

-- `condition_maps` is `NestedSlice(obj, "status", "conditions")`. An element that is no map is
-- `none`, and a map is kept by its fields that are texts.
pub record Items : Type 1 where
  pub Item : Type 0
  pub uid : Item → String
  pub kind : Item → String
  pub name : Item → String
  pub namespace : Item → String
  pub annotations : Item → Dict String
  pub nested_string : Item → List String → Option String
  pub nested_bool : Item → List String → Option Bool
  pub nested_int64 : Item → List String → Option ℤ
  pub condition_maps : Item → Option (List (Option (Dict String)))
