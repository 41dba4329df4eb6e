-- ===== src/Builder/Template/SyncTemplate.antt =====
-- The template of the sync, in internal/builder/templates.go.
use flux_operator.Builder.Template.Syntax.{
  literal, print, assign, if_else, dot, var, field, quoted, eq, Template, end, ◌⨾◌,
}

unfoldable pub sync_tmpl : Template
sync_tmpl =
    literal "---"
    ⨾ assign "sync" (field dot "Sync")
    ⨾ assign "name" (field (field dot "Sync") "Name")
    ⨾ assign "namespace" (field dot "Namespace")
    ⨾ if_else (eq (field (var "sync") "Kind") (quoted "GitRepository"))
        (literal "\napiVersion: source.toolkit.fluxcd.io/v1"
          ⨾ literal "\nkind: GitRepository"
          ⨾ end)
        (if_else (eq (field (var "sync") "Kind") (quoted "OCIRepository"))
            (literal "\napiVersion: source.toolkit.fluxcd.io/v1beta2"
              ⨾ literal "\nkind: OCIRepository"
              ⨾ end)
            (if_else (eq (field (var "sync") "Kind") (quoted "Bucket"))
                (literal "\napiVersion: source.toolkit.fluxcd.io/v1beta2"
                  ⨾ literal "\nkind: Bucket"
                  ⨾ end)
                end
              ⨾ end)
          ⨾ end)
    ⨾ literal "\nmetadata:"
    ⨾ literal "\n  name: "
    ⨾ print (var "name")
    ⨾ literal "\n  namespace: "
    ⨾ print (var "namespace")
    ⨾ literal "\nspec:"
    ⨾ literal "\n  interval: "
    ⨾ print (field (var "sync") "Interval")
    ⨾ if_else (eq (field (var "sync") "Kind") (quoted "GitRepository"))
        (literal "\n  ref:" ⨾ literal "\n    name: " ⨾ print (field (var "sync") "Ref") ⨾ end)
        (if_else (eq (field (var "sync") "Kind") (quoted "OCIRepository"))
            (literal "\n  ref:" ⨾ literal "\n    tag: " ⨾ print (field (var "sync") "Ref") ⨾ end)
            (if_else (eq (field (var "sync") "Kind") (quoted "Bucket"))
                (literal "\n  bucketName: " ⨾ print (field (var "sync") "Ref") ⨾ end) end
              ⨾ end)
          ⨾ end)
    ⨾ if_else (field (var "sync") "PullSecret")
        (literal "\n  secretRef:"
          ⨾ literal "\n    name: "
          ⨾ print (field (var "sync") "PullSecret")
          ⨾ end)
        end
    ⨾ literal "\n  url: "
    ⨾ print (field (var "sync") "URL")
    ⨾ literal "\n---"
    ⨾ literal "\napiVersion: kustomize.toolkit.fluxcd.io/v1"
    ⨾ literal "\nkind: Kustomization"
    ⨾ literal "\nmetadata:"
    ⨾ literal "\n  name: "
    ⨾ print (var "name")
    ⨾ literal "\n  namespace: "
    ⨾ print (var "namespace")
    ⨾ literal "\nspec:"
    ⨾ literal "\n  interval: 10m0s"
    ⨾ literal "\n  path: "
    ⨾ print (field (var "sync") "Path")
    ⨾ literal "\n  prune: true"
    ⨾ literal "\n  sourceRef:"
    ⨾ literal "\n    kind: "
    ⨾ print (field (var "sync") "Kind")
    ⨾ literal "\n    name: "
    ⨾ print (var "name")
    ⨾ literal "\n"
    ⨾ end
