-- ===== src/Builder/Images.antt =====
-- internal/builder/images.go: the container images of the components.
pub mod Laws
use flux_operator.Base.{
  String, ◌<>◌, Bool, true, false, Option, none, some, List, [], ◌∷◌, ◌++◌, ◌==◌, Result, ok, err,
  panic, ◌>>=◌, errorf, wrapping, if◌then◌else◌, after_last, trim_suffix, length, eqb,
}
use flux_operator.Builder.Options.{ComponentImage, Options, contain_element_string}

-- An entry of the `images` of a kustomization (fluxcd/pkg), by the fields that the program reads.
pub record KustomizeImage : Type 0 where
  pub name : String
  pub new_tag : String
  pub digest : String

-- The containers of an object, as `unstructured.NestedSlice` finds them. A container is the text at
-- its key `image`, or `none` where it is no map or has no text there.
pub record Manifest : Type 0 where
  pub kind : String
  pub name : String
  pub containers : Option (List (Option String))

-- What the program calls to join paths, to read files and to parse YAML and image names.
pub record Sources : Type 0 where
  pub join : List String → String
  pub read_file : String → Result String
  pub read_objects : String → Result (List Manifest)
  pub unmarshal_images : String → Result (List KustomizeImage)
  pub parse_tag : String → Result String

unfoldable pub registry_of : Options → String
unfolding trim_suffix
registry_of opts = trim_suffix b'/' opts.registry

-- The `switch` on the registry.
unfoldable pub distro_of : String → Option String
distro_of registry =
    if registry == "fluxcd"
    then some "upstream-alpine"
    else if registry == "ghcr.io/fluxcd"
    then some "upstream-alpine"
    else if registry == "ghcr.io/controlplaneio-fluxcd/alpine"
    then some "enterprise-alpine"
    else if registry == "ghcr.io/controlplaneio-fluxcd/distroless"
    then some "enterprise-distroless"
    else if registry == "709825985650.dkr.ecr.us-east-1.amazonaws.com/controlplane/fluxcd"
    then some "enterprise-distroless"
    else none

abbrev pub component_name : KustomizeImage → String
component_name img = after_last b'/' img.name

-- The loop over the images of the file.
unfoldable pub selected : List String → String → List KustomizeImage → List ComponentImage
selected components registry [] = []
selected components registry (img ∷ imgs) =
    let rest = selected components registry imgs in
    if contain_element_string components (component_name img)
    then record {
      name = component_name img;
      repository = registry <> ("/" <> component_name img);
      tag = img.new_tag;
      digest = img.digest;
    }
      ∷ rest
    else rest

-- The check after the loop. The error's text lists the components, which is left out.
unfoldable pub complete : List String → List ComponentImage → Result (List ComponentImage)
complete components images =
    if eqb (length images) (length components)
    then ok images
    else err (errorf "missing images for components")

module _ (src : Sources) where
  open src use {join, read_file, read_objects, unmarshal_images, parse_tag}

  unfoldable pub images_in_file :
      Options → String → Option String → String → Result (List ComponentImage)
  images_in_file opts registry none src_dir = err (errorf ("unsupported registry: " <> registry))
  images_in_file opts registry (some distro) src_dir = do
    d ←
        wrapping "read body: "
          (read_file (src_dir <> ("/" <> (opts.version <> ("/" <> (distro <> ".yaml"))))))
    imgs ← unmarshal_images d
    complete opts.components (selected opts.components registry imgs)

  unfoldable pub extract_component_images_with_digest :
      String → Options → Result (List ComponentImage)
  unfolding images_in_file
  extract_component_images_with_digest src_dir opts =
      images_in_file opts (registry_of opts) (distro_of (registry_of opts)) src_dir

  -- The loop over the containers of a deployment: the last one's tag stays.
  unfoldable pub image_of_containers :
      Options → String → List (Option String) → ComponentImage → Result ComponentImage
  image_of_containers opts component [] image = ok image
  image_of_containers opts component (none ∷ cs) image = panic
  image_of_containers opts component (some img ∷ cs) image =
      let rest = λ (t : String). image_of_containers opts component cs (record {
        name = component;
        repository = registry_of opts <> ("/" <> component);
        tag = t;
        digest = "";
      }) in
      parse_tag img >>= rest

  -- The loop over the objects of a component's file.
  unfoldable pub image_of_objects :
      Options → String → List Manifest → ComponentImage → Result ComponentImage
  unfolding image_of_containers
  image_of_objects opts component [] image = ok image
  image_of_objects opts component (obj ∷ objs) image =
      let rest = λ (i : ComponentImage). image_of_objects opts component objs i in
      if obj.kind == "Deployment"
      then elim (obj.containers) [
        | none ↦ err (errorf ("containers not found in " <> obj.name))
        | some cs ↦ image_of_containers opts component cs image >>= rest
      ]
      else rest image

  -- The loop over the components. `images` starts with zero values.
  unfoldable pub images_of_components :
      String → Options → List String → Result (List ComponentImage)
  unfolding image_of_objects
  images_of_components src_dir opts [] = ok []
  images_of_components src_dir opts (component ∷ components) =
      let rest = images_of_components src_dir opts components in
      do
        d ← read_file (join (src_dir ∷ ("/" <> (component <> ".yaml")) ∷ []))
        objects ← read_objects d
        image ←
            image_of_objects opts component objects
              (record { name = ""; repository = ""; tag = ""; digest = "" })
        images ← rest
        ok (image ∷ images)

  unfoldable pub extract_component_images : String → Options → Result (List ComponentImage)
  unfolding images_of_components
  extract_component_images src_dir opts = images_of_components src_dir opts opts.components
