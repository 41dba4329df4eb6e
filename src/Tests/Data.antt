-- ===== src/Tests/Data.antt =====
-- Versions and objects that keep the contracts of the libraries.
use mathlib.Core.List.{Memᴰ}
use mathlib.Core.List.Perm
use text.Mathlib.TextEquality.{eq_iff}
use flux_operator.Base.{
  String, ◌≡◌, refl, sym, ap, ◌∙◌, ◌↔◌, ℕ, ◌/◌, ◌%◌, Bool, true, false, not, ◌&&◌, List, [], ◌∷◌,
  Result, ok, err, errorf, ◌==◌, if◌then◌else◌, filter, Bool-cases, inl, inr, ltb, eqb,
}
use flux_operator.Builder.Semver.{Semver}
use flux_operator.Inventory.{ObjMetadata, Objects}
use flux_operator.Inventory.Laws.{IsObjects}

-- Versions by a hundred times the major version and the minor version.
abbrev pub version_code : String → Result ℕ
version_code s =
    if s == "2.3.0"
    then ok 203
    else if s == "2.4.0"
    then ok 204
    else if s == "3.1.0"
    then ok 301
    else err (errorf "invalid semantic version")

abbrev pub version_text : ℕ → String
version_text n = if eqb n 203 then "2.3.0" else if eqb n 204 then "2.4.0" else "3.1.0"

abbrev pub sample_semver : Semver
sample_semver = record {
  Version = ℕ;
  Constraint = ℕ;
  parse = version_code;
  major = λ v. v / 100;
  minor = λ v. v % 100;
  original = version_text;
  less = ltb;
  parse_constraint = λ s. if s == "2.x" then ok 2 else err (errorf "improper constraint");
  satisfies = λ c v. ltb v 300;
}

-- Objects are named by their name, and their identifiers are their names.
abbrev pub same_meta : ObjMetadata → ObjMetadata → Bool
same_meta m n =
    m.namespace == n.namespace && (m.name == n.name && (m.group == n.group && m.kind == n.kind))

abbrev pub meta_in : ObjMetadata → List ObjMetadata → Bool
meta_in m [] = false
meta_in m (n ∷ ns) = if same_meta m n then true else meta_in m ns

abbrev pub config_map : String → ObjMetadata
config_map name = record { namespace = "flux-system"; name = name; group = ""; kind = "ConfigMap" }

abbrev pub sample_objects : Objects
sample_objects = record {
  Object = String;
  reference = λ group version kind name namespace. name;
  get_kind = λ o. "ConfigMap";
  parse_id = λ s. if s == "" then err (errorf "unable to parse") else ok (config_map s);
  id_of = λ m. m.name;
  set_diff = λ a b. filter (λ m. not (meta_in m b)) a;
  sort = λ xs. xs;
}

and_true : (a b : Bool) → a && b ≡ true → (a ≡ true) × (b ≡ true)
and_true true true h = (refl, refl)
and_true true false h = absurd (cc)
and_true false b h = absurd (cc)

same_meta-eq : (m n : ObjMetadata) → same_meta m n ≡ true → m ≡ n
same_meta-eq m n h =
    let (a, h1) = and_true (m.namespace == n.namespace) _ h in
    let (b, h2) = and_true (m.name == n.name) _ h1 in
    let (c, d) = and_true (m.group == n.group) (m.kind == n.kind) h2 in
    let p = (eq_iff m.namespace n.namespace).0 a in
    let q = (eq_iff m.name n.name).0 b in
    let r = (eq_iff m.group n.group).0 c in let s = (eq_iff m.kind n.kind).0 d in cc

same_meta_refl : (m : ObjMetadata) → same_meta m m ≡ true
same_meta_refl m =
    rw
      (
        (eq_iff m.namespace m.namespace).1 refl,
        (eq_iff m.name m.name).1 refl,
        (eq_iff m.group m.group).1 refl,
        (eq_iff m.kind m.kind).1 refl,
      )
      refl

meta_in-mem : (m : ObjMetadata) (ns : List ObjMetadata) → meta_in m ns ≡ true → Memᴰ m ns
meta_in-mem m [] h = absurd (cc)
meta_in-mem m (n ∷ ns) h = elim (Bool-cases (same_meta m n)) [
  | inl e ↦ Memᴰ.head (same_meta-eq m n e)
  | inr e ↦ Memᴰ.tail (meta_in-mem m ns (rw e at h))
]

mem-meta_in : (m : ObjMetadata) (ns : List ObjMetadata) → Memᴰ m ns → meta_in m ns ≡ true
mem-meta_in m [] k = elim k [ ]
mem-meta_in m (n ∷ ns) (Memᴰ.head e) = rw (sym e) (rw (same_meta_refl m) refl)
mem-meta_in m (n ∷ ns) (Memᴰ.tail k) = elim (Bool-cases (same_meta m n)) [
  | inl e ↦ rw e refl
  | inr e ↦ rw e (mem-meta_in m ns k)
]

mem-filter_iff :
    {A : Type 0} (p : A → Bool) (m : A) (xs : List A)
    → Memᴰ m (filter p xs) ↔ (Memᴰ m xs × (p m ≡ true))
mem-filter_iff p m xs = (there xs, λ (a, b). back xs a b)
  where
    found :
        {x : _} {xs : List _}
        → p x ≡ true
        → (Memᴰ m (filter p xs) → Memᴰ m xs × (p m ≡ true))
        → Memᴰ m (x ∷ filter p xs)
        → Memᴰ m (x ∷ xs) × (p m ≡ true)
    found e ih (Memᴰ.head h) = (Memᴰ.head h, ap p h ∙ e)
    found e ih (Memᴰ.tail k) = (let (a, b) = ih k in (Memᴰ.tail a, b))

    there : (xs : List _) → Memᴰ m (filter p xs) → Memᴰ m xs × (p m ≡ true)
    there [] k = elim k [ ]
    there (x ∷ xs) k = elim (Bool-cases (p x)) [
      | inl e ↦ found e (there xs) (rw e at k)
      | inr e ↦ (let (a, b) = there xs (rw e at k) in (Memᴰ.tail a, b))
    ]

    back : (xs : List _) → Memᴰ m xs → p m ≡ true → Memᴰ m (filter p xs)
    back [] k b = elim k [ ]
    back (x ∷ xs) (Memᴰ.head h) b = rw (ap p (sym h) ∙ b) (Memᴰ.head h)
    back (x ∷ xs) (Memᴰ.tail k) b = elim (Bool-cases (p x)) [
      | inl e ↦ rw e (Memᴰ.tail (back xs k b))
      | inr e ↦ rw e (back xs k b)
    ]

pub sample_objects-laws : IsObjects sample_objects
sample_objects-laws = record {
  mem-set_diff = λ m a b.
      let f = mem-filter_iff (λ n. not (meta_in n b)) m a in
      (
        λ k. (let (x, y) = f.0 k in (x, λ j. (let q = mem-meta_in m b j in cc))),
        λ (x, y). f.1 (
          x,
          elim (Bool-cases (meta_in m b)) [
            | inl e ↦ absurd (y (meta_in-mem m b e))
            | inr e ↦ rw e refl
          ],
        ),
      );
  sort_perm = λ xs. Perm.refl xs;
}
