-- ===== src/Builder/Template/Manifests.antt =====
-- The smaller templates of internal/builder/templates.go.
use flux_operator.Builder.Template.Syntax.{
  literal, print, if_else, range_as, dot, var, field, num, gt, len, Template, end, ◌⨾◌,
}

unfoldable pub kustomization_roles_tmpl : Template
kustomization_roles_tmpl =
    literal "---"
    ⨾ literal "\napiVersion: kustomize.config.k8s.io/v1beta1"
    ⨾ literal "\nkind: Kustomization"
    ⨾ literal "\nnamespace: "
    ⨾ print (field dot "Namespace")
    ⨾ literal "\nresources:"
    ⨾ literal "\n  - rbac.yaml"
    ⨾ literal "\nnameSuffix: -"
    ⨾ print (field dot "Namespace")
    ⨾ literal "\n"
    ⨾ end

unfoldable pub node_selector_tmpl : Template
node_selector_tmpl =
    literal "---"
    ⨾ literal "\napiVersion: apps/v1"
    ⨾ literal "\nkind: Deployment"
    ⨾ literal "\nmetadata:"
    ⨾ literal "\n  name: all"
    ⨾ literal "\nspec:"
    ⨾ literal "\n  template:"
    ⨾ literal "\n    spec:"
    ⨾ literal "\n      nodeSelector:"
    ⨾ literal "\n        kubernetes.io/os: linux"
    ⨾ if_else (field dot "ImagePullSecret")
        (literal "\n      imagePullSecrets:"
          ⨾ literal "\n       - name: "
          ⨾ print (field dot "ImagePullSecret")
          ⨾ end)
        end
    ⨾ literal "\n"
    ⨾ if_else (gt (len (field dot "TolerationKeys")) (num 0))
        (literal "\n      tolerations:"
          ⨾ range_as "i" "key" (field dot "TolerationKeys") (
              literal "\n       - key: \""
              ⨾ print (var "key")
              ⨾ literal "\""
              ⨾ literal "\n         operator: \"Exists\""
              ⨾ end)
          ⨾ end)
        end
    ⨾ literal "\n"
    ⨾ end

unfoldable pub labels_tmpl : Template
labels_tmpl =
    literal "---"
    ⨾ literal "\napiVersion: builtin"
    ⨾ literal "\nkind: LabelTransformer"
    ⨾ literal "\nmetadata:"
    ⨾ literal "\n  name: labels"
    ⨾ literal "\nlabels:"
    ⨾ literal "\n  app.kubernetes.io/managed-by: flux-operator"
    ⨾ literal "\n  app.kubernetes.io/instance: "
    ⨾ print (field dot "Namespace")
    ⨾ literal "\n  app.kubernetes.io/version: \""
    ⨾ print (field dot "Version")
    ⨾ literal "\""
    ⨾ literal "\n  app.kubernetes.io/part-of: flux"
    ⨾ literal "\nfieldSpecs:"
    ⨾ literal "\n  - path: metadata/labels"
    ⨾ literal "\n    create: true"
    ⨾ literal "\n"
    ⨾ end

unfoldable pub annotations_tmpl : Template
annotations_tmpl =
    literal "---"
    ⨾ literal "\napiVersion: builtin"
    ⨾ literal "\nkind: AnnotationsTransformer"
    ⨾ literal "\nmetadata:"
    ⨾ literal "\n  name: annotations"
    ⨾ literal "\nannotations:"
    ⨾ literal "\n  kustomize.toolkit.fluxcd.io/ssa: Ignore"
    ⨾ literal "\nfieldSpecs:"
    ⨾ literal "\n  - path: metadata/annotations"
    ⨾ literal "\n    create: true"
    ⨾ literal "\n"
    ⨾ end

unfoldable pub namespace_tmpl : Template
namespace_tmpl =
    literal "---"
    ⨾ literal "\napiVersion: v1"
    ⨾ literal "\nkind: Namespace"
    ⨾ literal "\nmetadata:"
    ⨾ literal "\n  name: "
    ⨾ print (field dot "Namespace")
    ⨾ literal "\n  labels:"
    ⨾ literal "\n    pod-security.kubernetes.io/warn: restricted"
    ⨾ literal "\n    pod-security.kubernetes.io/warn-version: latest"
    ⨾ literal "\n  annotations:"
    ⨾ literal "\n    fluxcd.controlplane.io/prune: disabled"
    ⨾ literal "\n"
    ⨾ end

unfoldable pub pvc_tmpl : Template
pvc_tmpl =
    literal "---"
    ⨾ literal "\napiVersion: v1"
    ⨾ literal "\nkind: PersistentVolumeClaim"
    ⨾ literal "\nmetadata:"
    ⨾ literal "\n  name: source-controller"
    ⨾ literal "\nspec:"
    ⨾ literal "\n  accessModes:"
    ⨾ literal "\n    - ReadWriteOnce"
    ⨾ literal "\n  storageClassName: "
    ⨾ print (field (field dot "ArtifactStorage") "Class")
    ⨾ literal "\n  resources:"
    ⨾ literal "\n    requests:"
    ⨾ literal "\n      storage: "
    ⨾ print (field (field dot "ArtifactStorage") "Size")
    ⨾ literal "\n"
    ⨾ end
