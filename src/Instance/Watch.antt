-- ===== src/Instance/Watch.antt =====
-- fluxinstance_manager.go: the updates of an object that its controller is told of.
pub mod Laws
use flux_operator.Base.{Bool, ◌||◌}
use flux_operator.Api.Instance.{FluxInstance}

-- `Update` of `GenerationChangedPredicate` and of `AnnotationChangedPredicate`, given the old object
-- and the new one.
pub record Predicates : Type 0 where
  pub generation_changed : FluxInstance → FluxInstance → Bool
  pub annotation_changed : FluxInstance → FluxInstance → Bool

-- Their `Or`.
unfoldable pub instance_update : Predicates → FluxInstance → FluxInstance → Bool
instance_update p old_obj new_obj =
    p.generation_changed old_obj new_obj || p.annotation_changed old_obj new_obj
