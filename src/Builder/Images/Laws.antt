-- ===== src/Builder/Images/Laws.antt =====
-- What the extracted images hold.
use mathlib.Core.List.{Memᴰ}
use flux_operator.Base.{
  String, ◌<>◌, ◌≡◌, refl, sym, ap, ◌∙◌, ◌≢◌, true, Option, none, some, List, [], ◌∷◌, ◌==◌, map,
  ok, arith, Bool-cases, Result-cases, ok_injective, inl, inr, length, length-map, All, eq_iff,
}
use flux_operator.Base.Pigeonhole.{Distinct, pigeonhole}
use flux_operator.Builder.Options.{ComponentImage, Options, contain_element_string}
use flux_operator.Builder.Images.{
  KustomizeImage, Sources, registry_of, distro_of, component_name, selected, complete,
  images_in_file, extract_component_images_with_digest,
}

abbrev pub names : List ComponentImage → List String
names = map (λ i. i.name)

-- An image of one of the components, in the registry.
abbrev IsImageOf : List String → String → ComponentImage → Type 0
IsImageOf components registry i =
    (contain_element_string components i.name ≡ true) × (i.repository ≡ registry <> ("/" <> i.name))

contains-mem : (xs : List String) (a : String) → contain_element_string xs a ≡ true → Memᴰ a xs
unfolding contain_element_string
contains-mem [] a h = cc
contains-mem (x ∷ xs) a h = elim (Bool-cases (x == a)) [
  | inl y ↦ Memᴰ.head (sym ((eq_iff x a).0 y))
  | inr n ↦ Memᴰ.tail (contains-mem xs a (rw n at h))
]

selected-images :
    (components : List String) (registry : String) (imgs : List KustomizeImage)
    → All (IsImageOf components registry) (selected components registry imgs)
unfolding selected
selected-images components registry [] = tt
selected-images components registry (img ∷ imgs) =
    elim (Bool-cases (contain_element_string components (component_name img))) [
      | inl y ↦ rw y ((y, refl), selected-images components registry imgs)
      | inr n ↦ rw n (selected-images components registry imgs)
    ]

-- The component names of the file, as far as they are asked for.
selected-Distinct :
    (components : List String) (registry : String) (imgs : List KustomizeImage)
    → Distinct (map component_name imgs)
    → Distinct (names (selected components registry imgs))
unfolding selected
selected-Distinct components registry [] d = tt
selected-Distinct components registry (img ∷ imgs) d =
    elim (Bool-cases (contain_element_string components (component_name img))) [
      | inl y ↦ rw y (apart imgs d.0, selected-Distinct components registry imgs d.1)
      | inr n ↦ rw n (selected-Distinct components registry imgs d.1)
    ]
  where
    apart :
        (js : List KustomizeImage)
        → All (λ y. y ≢ component_name img) (map component_name js)
        → All (λ y. y ≢ component_name img) (names (selected components registry js))
    apart [] a = tt
    apart (j ∷ js) a = elim (Bool-cases (contain_element_string components (component_name j))) [
      | inl y ↦ rw (selected, y) (a.0, apart js a.1)
      | inr n ↦ rw (selected, n) (apart js a.1)
    ]

-- What a call with a result read.
pub record Extracted (src : Sources) (src_dir : String) (opts : Options)
    (images : List ComponentImage) : Type 0 where
  pub distro : String
  pub content : String
  pub listed : List KustomizeImage
  pub supported : distro_of (registry_of opts) ≡ some distro
  pub read :
      src.read_file (src_dir <> ("/" <> (opts.version <> ("/" <> (distro <> ".yaml")))))
      ≡ ok content
  pub parsed : src.unmarshal_images content ≡ ok listed
  pub chosen : images ≡ selected opts.components (registry_of opts) listed
  pub counted : length images ≡ length opts.components

some_injective : {A : Type 0} {a b : A} → some a ≡ some b → a ≡ b
some_injective h = cc

module _ (src : Sources) (src_dir : String) (opts : Options) {images : List ComponentImage} where
  read_images :
      (distro : Option String)
      → distro_of (registry_of opts) ≡ distro
      → images_in_file src opts (registry_of opts) distro src_dir ≡ ok images
      → Extracted src src_dir opts images
  unfolding images_in_file complete
  read_images none e h = absurd (ground arith)
  read_images (some d) e h =
      elim (Result-cases
        (src.read_file (src_dir <> ("/" <> (opts.version <> ("/" <> (d <> ".yaml"))))))) [
          | inl (content, r) ↦ elim (Result-cases (src.unmarshal_images content)) [
            | inl (imgs, u) ↦ record {
              distro = d;
              content = content;
              listed = imgs;
              supported = e;
              read = r;
              parsed = u;
              chosen = ground arith;
              counted = ground arith;
            }
            | inr (inl (x, u)) ↦ absurd (ground arith)
            | inr (inr u) ↦ absurd (ground arith)
          ]
          | inr (inl (x, r)) ↦ absurd (ground arith)
          | inr (inr r) ↦ absurd (ground arith)
        ]

  extracted :
      extract_component_images_with_digest src src_dir opts ≡ ok images
      → Extracted src src_dir opts images
  unfolding extract_component_images_with_digest
  extracted h = read_images (distro_of (registry_of opts)) refl h

  -- The file that was read is the one of the distribution.
  listed_unique :
      (x : Extracted src src_dir opts images) {distro content : String}
      {listed : List KustomizeImage}
      → distro_of (registry_of opts) ≡ some distro
      → src.read_file (src_dir <> ("/" <> (opts.version <> ("/" <> (distro <> ".yaml")))))
        ≡ ok content
      → src.unmarshal_images content ≡ ok listed
      → x.listed ≡ listed
  listed_unique x {distro} {content} {listed} supported read parsed =
      let same_distro : x.distro ≡ distro = some_injective (sym x.supported ∙ supported) in
      let same_content : x.content ≡ content = ok_injective (
        sym x.read
        ∙ (ap (λ d. src.read_file (src_dir <> ("/" <> (opts.version <> ("/" <> (d <> ".yaml"))))))
              same_distro
            ∙ read)) in
      ok_injective (sym x.parsed ∙ (ap src.unmarshal_images same_content ∙ parsed))

  -- The images that are returned are as many as the components, and each is the image of one of
  -- the components in the registry, whose address has lost one slash at its end.
  extract_with_digest-images :
      extract_component_images_with_digest src src_dir opts ≡ ok images
      → (length images ≡ length opts.components)
        × All (IsImageOf opts.components (registry_of opts)) images
  extract_with_digest-images h =
      let x = extracted h in
      (x.counted, rw x.chosen (selected-images opts.components (registry_of opts) x.listed))

mem-names :
    {components : List String} (registry : String) (images : List ComponentImage) {a : String}
    → All (IsImageOf components registry) images
    → Memᴰ a (names images)
    → Memᴰ a components
mem-names r [] h m = elim m [ ]
mem-names {components} r (i ∷ images) h (Memᴰ.head e) = rw e (contains-mem components i.name h.0.0)
mem-names r (i ∷ images) h (Memᴰ.tail m) = mem-names r images h.1 m

module _ (src : Sources) (src_dir : String) (opts : Options) {images : List ComponentImage} where
  -- If the images file that is read for the version and the registry names no component twice,
  -- then every component has an image among those that are returned.
  pub extract_with_digest-complete :
      {distro content : String} {listed : List KustomizeImage}
      → distro_of (registry_of opts) ≡ some distro
      → src.read_file (src_dir <> ("/" <> (opts.version <> ("/" <> (distro <> ".yaml")))))
        ≡ ok content
      → src.unmarshal_images content ≡ ok listed
      → Distinct (map component_name listed)
      → extract_component_images_with_digest src src_dir opts ≡ ok images
      → (a : String) → Memᴰ a opts.components
      → Memᴰ a (names images)
  extract_with_digest-complete supported read parsed distinct h a m =
      let x = extracted src src_dir opts h in
      let chosen =
        x.chosen
        ∙ ap (selected opts.components (registry_of opts))
            (listed_unique src src_dir opts x supported read parsed) in
      pigeonhole (names images) opts.components
        (rw chosen (selected-Distinct opts.components (registry_of opts) _ distinct))
        (λ b i.
          mem-names (registry_of opts) images (extract_with_digest-images src src_dir opts h).1 i)
        (omega (arith, x.counted, length-map {0, 0} (λ (i : ComponentImage). i.name) images)) a m

selected_doubled :
    (a b registry : String) (i j : KustomizeImage)
    → component_name i ≡ a
    → component_name j ≡ a
    → names (selected (a ∷ b ∷ []) registry (i ∷ j ∷ [])) ≡ a ∷ a ∷ []
unfolding selected contain_element_string
selected_doubled a b registry i j p q =
    ground (arith, eq_iff a (component_name i), eq_iff a (component_name j))

complete_counted :
    (components : List String) (images : List ComponentImage)
    → length images ≡ length components
    → complete components images ≡ ok images
unfolding complete
complete_counted components images h = ground arith

-- The check on the number of images is met by a file that names the first of two components twice
-- and the second never: both images are then the first component's.
pub extract_with_digest_doubled :
    (src : Sources) (src_dir : String) (opts : Options) {d : String} {distro : String}
    {i j : KustomizeImage} {a b : String}
    → opts.components ≡ a ∷ b ∷ []
    → distro_of (registry_of opts) ≡ some distro
    → src.read_file (src_dir <> ("/" <> (opts.version <> ("/" <> (distro <> ".yaml"))))) ≡ ok d
    → src.unmarshal_images d ≡ ok (i ∷ j ∷ [])
    → component_name i ≡ a
    → component_name j ≡ a
    → (images : List ComponentImage) × (extract_component_images_with_digest src src_dir opts
        ≡ ok images)
      × (names images ≡ a ∷ a ∷ [])
unfolding extract_component_images_with_digest images_in_file
extract_with_digest_doubled src src_dir opts {d} {i} {j} {a} {b} two found read parsed first
      second =
    (
      selected (a ∷ b ∷ []) (registry_of opts) (i ∷ j ∷ []),
      reads,
      selected_doubled a b (registry_of opts) i j first second,
    )
  where
    counted : length (selected (a ∷ b ∷ []) (registry_of opts) (i ∷ j ∷ [])) ≡ 2
    counted =
        sym (
          length-map (λ (k : ComponentImage). k.name)
            (selected (a ∷ b ∷ []) (registry_of opts) (i ∷ j ∷ [])))
        ∙ ap length (selected_doubled a b (registry_of opts) i j first second)

    reads :
        extract_component_images_with_digest src src_dir opts
        ≡ ok (selected (a ∷ b ∷ []) (registry_of opts) (i ∷ j ∷ []))
    reads =
        rw (extract_component_images_with_digest, found, images_in_file, read, parsed)
          (simp two (complete_counted (a ∷ b ∷ []) _ counted))
