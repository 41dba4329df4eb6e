-- ===== src/Builder/Template/Kustomization.antt =====
-- The main kustomization of a build, in internal/builder/templates.go.
use flux_operator.Builder.Template.Syntax.{
  literal, print, assign, if_else, range, range_as, dot, var, field, quoted, num, eq, gt, len,
  Template, end, ◌⨾◌,
}

-- One image.
unfoldable pub image_entry : Template
image_entry =
    literal "\n  - name: fluxcd/"
    ⨾ print (field dot "Name")
    ⨾ literal "\n    newName: "
    ⨾ print (field dot "Repository")
    ⨾ literal "\n    newTag: "
    ⨾ print (field dot "Tag")
    ⨾ if_else (field dot "Digest") (literal "\n    digest: " ⨾ print (field dot "Digest") ⨾ end) end
    ⨾ end

-- The arguments of the notification controller.
unfoldable pub notification_patch : Template
notification_patch =
    literal "\n- target:"
    ⨾ literal "\n    group: apps"
    ⨾ literal "\n    version: v1"
    ⨾ literal "\n    kind: Deployment"
    ⨾ literal "\n    name: "
    ⨾ print (var "component")
    ⨾ literal "\n  patch: |-"
    ⨾ literal "\n    - op: replace"
    ⨾ literal "\n      path: /spec/template/spec/containers/0/args/0"
    ⨾ literal "\n      value: --watch-all-namespaces="
    ⨾ print (var "watchAllNamespaces")
    ⨾ literal "\n    - op: replace"
    ⨾ literal "\n      path: /spec/template/spec/containers/0/args/1"
    ⨾ literal "\n      value: --log-level="
    ⨾ print (var "logLevel")
    ⨾ end

-- The volume of the source controller.
unfoldable pub storage_patch : Template
storage_patch =
    literal "\n- target:"
    ⨾ literal "\n    group: apps"
    ⨾ literal "\n    version: v1"
    ⨾ literal "\n    kind: Deployment"
    ⨾ literal "\n    name: "
    ⨾ print (var "component")
    ⨾ literal "\n    annotationSelector: \"!sharding.fluxcd.io/role\""
    ⨾ literal "\n  patch: |-"
    ⨾ literal "\n    - op: add"
    ⨾ literal "\n      path: '/spec/template/spec/volumes/-'"
    ⨾ literal "\n      value:"
    ⨾ literal "\n        name: persistent-data"
    ⨾ literal "\n        persistentVolumeClaim:"
    ⨾ literal "\n          claimName: source-controller"
    ⨾ literal "\n    - op: replace"
    ⨾ literal "\n      path: '/spec/template/spec/containers/0/volumeMounts/0'"
    ⨾ literal "\n      value:"
    ⨾ literal "\n        name: persistent-data"
    ⨾ literal "\n        mountPath: /data"
    ⨾ end

-- The arguments of the source controller.
unfoldable pub source_patch : Template
source_patch =
    literal "\n- target:"
    ⨾ literal "\n    group: apps"
    ⨾ literal "\n    version: v1"
    ⨾ literal "\n    kind: Deployment"
    ⨾ literal "\n    name: "
    ⨾ print (var "component")
    ⨾ literal "\n  patch: |-"
    ⨾ literal "\n    - op: replace"
    ⨾ literal "\n      path: /spec/template/spec/containers/0/args/0"
    ⨾ literal "\n      value: --events-addr="
    ⨾ print (var "eventsAddr")
    ⨾ literal "\n    - op: replace"
    ⨾ literal "\n      path: /spec/template/spec/containers/0/args/1"
    ⨾ literal "\n      value: --watch-all-namespaces="
    ⨾ print (var "watchAllNamespaces")
    ⨾ literal "\n    - op: replace"
    ⨾ literal "\n      path: /spec/template/spec/containers/0/args/2"
    ⨾ literal "\n      value: --log-level="
    ⨾ print (var "logLevel")
    ⨾ literal "\n    - op: replace"
    ⨾ literal "\n      path: /spec/template/spec/containers/0/args/6"
    ⨾ literal "\n      value: --storage-adv-addr=source-controller.$(RUNTIME_NAMESPACE).svc."
    ⨾ print (var "clusterDomain")
    ⨾ literal "."
    ⨾ if_else (var "artifactStorage") storage_patch end
    ⨾ end

-- The arguments of another controller.
unfoldable pub other_patch : Template
other_patch =
    literal "\n- target:"
    ⨾ literal "\n    group: apps"
    ⨾ literal "\n    version: v1"
    ⨾ literal "\n    kind: Deployment"
    ⨾ literal "\n    name: "
    ⨾ print (var "component")
    ⨾ literal "\n  patch: |-"
    ⨾ literal "\n    - op: replace"
    ⨾ literal "\n      path: /spec/template/spec/containers/0/args/0"
    ⨾ literal "\n      value: --events-addr="
    ⨾ print (var "eventsAddr")
    ⨾ literal "\n    - op: replace"
    ⨾ literal "\n      path: /spec/template/spec/containers/0/args/1"
    ⨾ literal "\n      value: --watch-all-namespaces="
    ⨾ print (var "watchAllNamespaces")
    ⨾ literal "\n    - op: replace"
    ⨾ literal "\n      path: /spec/template/spec/containers/0/args/2"
    ⨾ literal "\n      value: --log-level="
    ⨾ print (var "logLevel")
    ⨾ end

-- The patch of one component.
unfoldable pub component_patch : Template
component_patch =
    if_else (eq (var "component") (quoted "notification-controller")) notification_patch
      (if_else (eq (var "component") (quoted "source-controller")) source_patch other_patch ⨾ end)
    ⨾ end

-- What the main controllers do not watch.
unfoldable pub shards_patch : Template
shards_patch =
    literal "\n- target:"
    ⨾ literal "\n    kind: Deployment"
    ⨾ literal "\n    name: \"(source-controller|kustomize-controller|helm-controller)\""
    ⨾ literal "\n    annotationSelector: \"!sharding.fluxcd.io/role\""
    ⨾ literal "\n  patch: |"
    ⨾ literal "\n    - op: add"
    ⨾ literal "\n      path: /spec/template/spec/containers/0/args/-"
    ⨾ literal "\n      value: --watch-label-selector=!"
    ⨾ print (field dot "ShardingKey")
    ⨾ end

-- The patches of a build.
unfoldable pub component_patches : Template
component_patches =
    literal "\n- path: node-selector.yaml"
    ⨾ literal "\n  target:"
    ⨾ literal "\n    kind: Deployment"
    ⨾ range_as "i" "component" (field dot "Components") component_patch
    ⨾ if_else (gt (len (field dot "Shards")) (num 0)) shards_patch end
    ⨾ literal "\n"
    ⨾ print (field dot "Patches")
    ⨾ literal "\n"
    ⨾ end

unfoldable pub kustomization_tmpl : Template
kustomization_tmpl =
    literal "---"
    ⨾ assign "eventsAddr" (field dot "EventsAddr")
    ⨾ assign "watchAllNamespaces" (field dot "WatchAllNamespaces")
    ⨾ assign "registry" (field dot "Registry")
    ⨾ assign "logLevel" (field dot "LogLevel")
    ⨾ assign "clusterDomain" (field dot "ClusterDomain")
    ⨾ assign "artifactStorage" (field dot "ArtifactStorage")
    ⨾ assign "sync" (field dot "Sync")
    ⨾ assign "namespace" (field dot "Namespace")
    ⨾ literal "\napiVersion: kustomize.config.k8s.io/v1beta1"
    ⨾ literal "\nkind: Kustomization"
    ⨾ literal "\nnamespace: "
    ⨾ print (var "namespace")
    ⨾ literal "\ntransformers:"
    ⨾ literal "\n  - annotations.yaml"
    ⨾ literal "\n  - labels.yaml"
    ⨾ literal "\nresources:"
    ⨾ literal "\n  - namespace.yaml"
    ⨾ if_else (field dot "NetworkPolicy") (literal "\n  - policies.yaml" ⨾ end) end
    ⨾ literal "\n  - roles"
    ⨾ range (field dot "Components") (literal "\n  - " ⨾ print dot ⨾ literal ".yaml" ⨾ end)
    ⨾ range (field dot "Shards") (literal "\n  - " ⨾ print dot ⨾ end)
    ⨾ if_else (var "artifactStorage") (literal "\n  - pvc.yaml" ⨾ end) end
    ⨾ if_else (var "sync") (literal "\n  - sync.yaml" ⨾ end) end
    ⨾ if_else (var "registry")
        (literal "\nimages:" ⨾ range (field dot "ComponentImages") image_entry ⨾ end) end
    ⨾ literal "\npatches:"
    ⨾ component_patches
