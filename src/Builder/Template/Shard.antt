-- ===== src/Builder/Template/Shard.antt =====
-- The kustomization of a shard, in internal/builder/templates.go.
use flux_operator.Builder.Template.Syntax.{
  literal, print, if_else, range_as, dot, var, field, quoted, eq, Template, end, ◌⨾◌,
}

-- The resource of one component, if the component is sharded.
unfoldable pub shard_resource : Template
shard_resource =
    if_else (eq (var "component") (quoted "source-controller"))
      (literal "\n  - ../" ⨾ print (var "component") ⨾ literal ".yaml" ⨾ end)
      (if_else (eq (var "component") (quoted "kustomize-controller"))
          (literal "\n  - ../" ⨾ print (var "component") ⨾ literal ".yaml" ⨾ end)
          (if_else (eq (var "component") (quoted "helm-controller"))
              (literal "\n  - ../" ⨾ print (var "component") ⨾ literal ".yaml" ⨾ end) end
            ⨾ end)
        ⨾ end)
    ⨾ end

-- What follows the resources.
unfoldable pub shard_patches : Template
shard_patches =
    literal "\nnameSuffix: \"-"
    ⨾ print (field dot "ShardName")
    ⨾ literal "\""
    ⨾ literal "\ncommonAnnotations:"
    ⨾ literal "\n  sharding.fluxcd.io/role: \"shard\""
    ⨾ literal "\npatches:"
    ⨾ literal "\n  - target:"
    ⨾ literal
        "\n      kind: (Namespace|CustomResourceDefinition|ClusterRole|ClusterRoleBinding|ServiceAccount|NetworkPolicy|ResourceQuota)"
    ⨾ literal "\n    patch: |"
    ⨾ literal "\n      apiVersion: v1"
    ⨾ literal "\n      kind: all"
    ⨾ literal "\n      metadata:"
    ⨾ literal "\n        name: all"
    ⨾ literal "\n      $patch: delete"
    ⨾ literal "\n  - target:"
    ⨾ literal "\n      kind: Service"
    ⨾ literal "\n      name: (source-controller)"
    ⨾ literal "\n    patch: |"
    ⨾ literal "\n      - op: replace"
    ⨾ literal "\n        path: /spec/selector/app"
    ⨾ literal "\n        value: source-controller-"
    ⨾ print (field dot "ShardName")
    ⨾ literal "\n  - target:"
    ⨾ literal "\n      kind: Deployment"
    ⨾ literal "\n      name: (source-controller)"
    ⨾ literal "\n    patch: |"
    ⨾ literal "\n      - op: replace"
    ⨾ literal "\n        path: /spec/selector/matchLabels/app"
    ⨾ literal "\n        value: source-controller-"
    ⨾ print (field dot "ShardName")
    ⨾ literal "\n      - op: replace"
    ⨾ literal "\n        path: /spec/template/metadata/labels/app"
    ⨾ literal "\n        value: source-controller-"
    ⨾ print (field dot "ShardName")
    ⨾ literal "\n      - op: add"
    ⨾ literal "\n        path: /spec/template/spec/containers/0/args/-"
    ⨾ literal "\n        value: --storage-adv-addr=source-controller-"
    ⨾ print (field dot "ShardName")
    ⨾ literal ".$(RUNTIME_NAMESPACE).svc."
    ⨾ print (field dot "ClusterDomain")
    ⨾ literal "."
    ⨾ literal "\n  - target:"
    ⨾ literal "\n      kind: Deployment"
    ⨾ literal "\n      name: (kustomize-controller)"
    ⨾ literal "\n    patch: |"
    ⨾ literal "\n      - op: replace"
    ⨾ literal "\n        path: /spec/selector/matchLabels/app"
    ⨾ literal "\n        value: kustomize-controller-"
    ⨾ print (field dot "ShardName")
    ⨾ literal "\n      - op: replace"
    ⨾ literal "\n        path: /spec/template/metadata/labels/app"
    ⨾ literal "\n        value: kustomize-controller-"
    ⨾ print (field dot "ShardName")
    ⨾ literal "\n  - target:"
    ⨾ literal "\n      kind: Deployment"
    ⨾ literal "\n      name: (helm-controller)"
    ⨾ literal "\n    patch: |"
    ⨾ literal "\n      - op: replace"
    ⨾ literal "\n        path: /spec/selector/matchLabels/app"
    ⨾ literal "\n        value: helm-controller-"
    ⨾ print (field dot "ShardName")
    ⨾ literal "\n      - op: replace"
    ⨾ literal "\n        path: /spec/template/metadata/labels/app"
    ⨾ literal "\n        value: helm-controller-"
    ⨾ print (field dot "ShardName")
    ⨾ literal "\n  - target:"
    ⨾ literal "\n      kind: Deployment"
    ⨾ literal "\n      name: (source-controller|kustomize-controller|helm-controller)"
    ⨾ literal "\n    patch: |"
    ⨾ literal "\n      - op: add"
    ⨾ literal "\n        path: /spec/template/spec/containers/0/args/-"
    ⨾ literal "\n        value: --watch-label-selector="
    ⨾ print (field dot "ShardingKey")
    ⨾ literal "="
    ⨾ print (field dot "ShardName")
    ⨾ literal "\n"
    ⨾ end

unfoldable pub kustomization_shard_tmpl : Template
kustomization_shard_tmpl =
    literal "---"
    ⨾ literal "\napiVersion: kustomize.config.k8s.io/v1beta1"
    ⨾ literal "\nkind: Kustomization"
    ⨾ literal "\nnamespace: "
    ⨾ print (field dot "Namespace")
    ⨾ literal "\nresources:"
    ⨾ range_as "i" "component" (field dot "Components") shard_resource
    ⨾ shard_patches
