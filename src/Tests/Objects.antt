-- ===== src/Tests/Objects.antt =====
-- Instances in several states, and what is built for them.
use flux_operator.Base.{String, true, false, none, some, List, [], ◌∷◌}
use flux_operator.Api.Instance.{FluxInstance, ResourceInventory, finalizer}
use flux_operator.Builder.Options.{BuildResult}
use flux_operator.Instance.Env.{State}
use flux_operator.Tests.World.{W}

abbrev pub old_inventory : ResourceInventory
old_inventory = record {
  entries = record { id = "kept"; version = "v1" } ∷ record { id = "stale"; version = "v1" } ∷ [];
}

abbrev pub sample_instance : FluxInstance
sample_instance = record {
  name = "flux";
  namespace = "flux-system";
  annotations = [];
  finalizers = finalizer ∷ [];
  under_deletion = false;
  spec = record {
    distribution = record {
      version = "2.x";
      registry = "ghcr.io/fluxcd";
      image_pull_secret = "";
      artifact = "";
    };
    components = [];
    common_metadata = none;
    cluster = none;
    sharding = none;
    storage = none;
    kustomize = none;
    wait = some false;
    migrate_resources = some false;
    sync = none;
  };
  status = record {
    last_handled_reconcile_at = "";
    conditions = [];
    last_attempted_revision = "2.3.0@sha256:1";
    last_applied_revision = "2.3.0@sha256:1";
    last_artifact_revision = "";
    components = [];
    inventory = none;
  };
}

abbrev pub state_of : FluxInstance → State W
state_of obj = record { obj = obj; rest = record { events = List.[]; world = tt } }

abbrev pub fresh : State W
fresh = state_of sample_instance

-- A version that is deployed with an object more than before is left with.
abbrev pub deployed : State W
deployed = state_of (record sample_instance {
  status = record (sample_instance.status) { inventory = some old_inventory };
})

abbrev pub dying : State W
dying = state_of (record sample_instance { under_deletion = true })

-- From an artifact that cannot be pulled.
abbrev pub unreachable : State W
unreachable = state_of (record sample_instance {
  spec = record (sample_instance.spec) {
    distribution = record (sample_instance.spec.distribution) {
      artifact = "oci://ghcr.io/manifests";
    };
  };
})

-- From an artifact that has changed since.
abbrev pub pulled : State W
pulled = state_of (record sample_instance {
  spec = unreachable.obj.spec;
  status = record (sample_instance.status) { last_artifact_revision = "sha256:0" };
})

abbrev pub built : List String → BuildResult String
built objects = record {
  version = "2.4.0";
  digest = "sha256:2";
  revision = "2.4.0@sha256:2";
  objects = objects;
  component_images = [];
}
