-- ===== src/Builder/Profiles.antt =====
-- internal/builder/profiles.go: the patches of the cluster profiles, as texts.
use flux_operator.Base.{String, ◌<>◌, List, [], ◌∷◌, ◌==◌, if◌then◌else◌}

-- The lines of a text, each with its line end.
abbrev pub text : List String → String
text [] = ""
text (l ∷ ls) = l <> text ls

abbrev pub profile_open_shift : String
profile_open_shift = text (
    "\n" ∷ "- target:\n" ∷ "    kind: Deployment\n" ∷ "  patch: |-\n" ∷ "    - op: remove\n"
    ∷ "      path: /spec/template/spec/securityContext\n" ∷ "    - op: remove\n"
    ∷ "      path: /spec/template/spec/containers/0/securityContext/seccompProfile\n"
    ∷ "    - op: remove\n"
    ∷ "      path: /spec/template/spec/containers/0/securityContext/runAsNonRoot\n" ∷ "- target:\n"
    ∷ "    kind: Namespace\n" ∷ "  patch: |-\n" ∷ "    - op: remove\n"
    ∷ "      path: /metadata/labels/pod-security.kubernetes.io~1warn\n" ∷ "    - op: remove\n"
    ∷ "      path: /metadata/labels/pod-security.kubernetes.io~1warn-version\n" ∷ [])

-- The multi-tenancy profile, before and after the name of the service account.
abbrev pub multitenant_head : String
multitenant_head = text (
    "\n" ∷ "- target:\n" ∷ "    kind: Deployment\n"
    ∷ "    name: \"(kustomize-controller|helm-controller|notification-controller|image-reflector-controller|image-automation-controller)\"\n"
    ∷ "  patch: |-\n" ∷ "    - op: add\n" ∷ "      path: /spec/template/spec/containers/0/args/-\n"
    ∷ "      value: --no-cross-namespace-refs=true\n" ∷ "- target:\n" ∷ "    kind: Deployment\n"
    ∷ "    name: \"(kustomize-controller)\"\n" ∷ "  patch: |-\n" ∷ "    - op: add\n"
    ∷ "      path: /spec/template/spec/containers/0/args/-\n"
    ∷ "      value: --no-remote-bases=true\n" ∷ "- target:\n" ∷ "    kind: Deployment\n"
    ∷ "    name: \"(kustomize-controller|helm-controller)\"\n" ∷ "  patch: |-\n" ∷ "    - op: add\n"
    ∷ "      path: /spec/template/spec/containers/0/args/-\n"
    ∷ "      value: --default-service-account=" ∷ [])

abbrev pub multitenant_tail : String
multitenant_tail = text (
    "\n" ∷ "- target:\n" ∷ "    kind: Kustomization\n" ∷ "  patch: |-\n" ∷ "    - op: add\n"
    ∷ "      path: /spec/serviceAccountName\n" ∷ "      value: kustomize-controller\n" ∷ [])

unfoldable pub get_multitenant_profile : String → String
get_multitenant_profile default_sa =
    let name = if default_sa == "" then "default" else default_sa in
    multitenant_head <> (name <> multitenant_tail)

-- The patch of the notification API, before and after the namespace.
abbrev pub notification_head : String
notification_head = text (
    "\n" ∷ "- target:\n" ∷ "    kind: CustomResourceDefinition\n"
    ∷ "    name: alerts.notification.toolkit.fluxcd.io\n" ∷ "  patch: |-\n" ∷ "    - op: add\n"
    ∷ "      path: /spec/versions/0/schema/openAPIV3Schema/properties/spec/properties/eventSources/items/properties/kind/enum/-\n"
    ∷ "      value: FluxInstance\n" ∷ "    - op: add\n"
    ∷ "      path: /spec/versions/1/schema/openAPIV3Schema/properties/spec/properties/eventSources/items/properties/kind/enum/-\n"
    ∷ "      value: FluxInstance\n" ∷ "    - op: add\n"
    ∷ "      path: /spec/versions/2/schema/openAPIV3Schema/properties/spec/properties/eventSources/items/properties/kind/enum/-\n"
    ∷ "      value: FluxInstance\n" ∷ "- target:\n" ∷ "    kind: CustomResourceDefinition\n"
    ∷ "    name: receivers.notification.toolkit.fluxcd.io\n" ∷ "  patch: |-\n" ∷ "    - op: add\n"
    ∷ "      path: /spec/versions/0/schema/openAPIV3Schema/properties/spec/properties/resources/items/properties/kind/enum/-\n"
    ∷ "      value: FluxInstance\n" ∷ "    - op: add\n"
    ∷ "      path: /spec/versions/1/schema/openAPIV3Schema/properties/spec/properties/resources/items/properties/kind/enum/-\n"
    ∷ "      value: FluxInstance\n" ∷ "    - op: add\n"
    ∷ "      path: /spec/versions/2/schema/openAPIV3Schema/properties/spec/properties/resources/items/properties/kind/enum/-\n"
    ∷ "      value: FluxInstance\n" ∷ "- target:\n" ∷ "    kind: ClusterRole\n"
    ∷ "    name: crd-controller-" ∷ [])

abbrev pub notification_tail : String
notification_tail = text (
    "\n" ∷ "  patch: |-\n" ∷ "    - op: add\n" ∷ "      path: /rules/-\n" ∷ "      value:\n"
    ∷ "       apiGroups: [ 'fluxcd.controlplane.io' ]\n" ∷ "       resources: [ '*' ]\n"
    ∷ "       verbs: [ '*' ]\n" ∷ [])

unfoldable pub get_notification_patch : String → String
get_notification_patch namespace =
    let name = if namespace == "" then "flux-system" else namespace in
    notification_head <> (name <> notification_tail)
