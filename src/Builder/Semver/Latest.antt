-- ===== src/Builder/Semver/Latest.antt =====
-- Which directory `MatchVersion` takes.
use mathlib.Core.List.{Mem, Memᴰ, mem-cons_self, not-mem-nil}
use mathlib.Core.List.Perm
use mathlib.Core.Path.{subst}
use mathlib.Core.Logic.{∥∥₁_map}
use flux_operator.Base.{
  String, ◌<>◌, ◌≡◌, sym, ◌∙◌, ok, panic, arith, inl, inr, List-cases, false, List, [], ◌∷◌, none,
}
use flux_operator.Base.Sort.{IsSort, head-least}
use flux_operator.Builder.Semver.{
  Semver, Directory, base_name, directories, matching_versions, latest, match_version,
}
use flux_operator.Builder.Semver.Matches.{
  Candidate, Readable, directories-mem, matching_versions-mem, mem-directories,
  mem-matching_versions,
}

module _ (sv : Semver) (sort : List sv.Version → List sv.Version)
    (s : IsSort (λ a b. sv.less b a) sort) (fs : Directory) (data_dir range : String)
    {c : sv.Constraint} {matches dirs : List String}
    (readable : Readable sv fs data_dir range c matches dirs) where
  match_version-latest :
      match_version sv sort fs data_dir range ≡ latest sv range (sort (matching_versions sv c dirs))
  unfolding match_version
  match_version-latest = rw (readable.found, readable.globbed, readable.statted, readable.parsed)

  candidate_kept :
      {v : sv.Version} → Candidate sv fs c matches v → Mem v (matching_versions sv c dirs)
  candidate_kept {v} k =
      ∣ mem-matching_versions sv fs c dirs (base_name k.path) v
        (mem-directories sv fs c matches dirs k.path readable.statted k.listed k.is_dir) k.parses
        k.satisfies ∣₁

  kept-Candidate :
      {v : sv.Version} → Memᴰ v (matching_versions sv c dirs) → Candidate sv fs c matches v
  kept-Candidate {v} m =
      let (t, listed, parses, fits) = matching_versions-mem sv fs c dirs v m in
      let (p, found, is_dir, named) =
        directories-mem sv fs c matches dirs t readable.statted listed in
      record {
        path = p;
        listed = found;
        is_dir = is_dir;
        parses = rw (← named) parses;
        satisfies = fits;
      }

  -- From a readable listing the code returns the name of a version that some listed directory is
  -- named after and the range admits, and no other such version is later.
  pub match_version_max :
      ((v : sv.Version) → sv.less v v ≡ false)
      → {name : String} → match_version sv sort fs data_dir range ≡ ok name
      → (v : sv.Version) × (sv.original v ≡ name)
        × ∥ Candidate sv fs c matches v ∥₁
        × ((w : sv.Version) → Candidate sv fs c matches w → sv.less v w ≡ false)
  unfolding latest
  match_version_max irrefl {name} h = elim (List-cases (sort (matching_versions sv c dirs))) [
    | inl e ↦ absurd (ground (arith, match_version-latest))
    | inr (v, (r, e)) ↦ (
      v,
      ground (arith, match_version-latest),
      ∥∥₁_map ((Perm.mem_iff (s.perm _)).0 (subst (Mem v) (sym e) mem-cons_self)) kept-Candidate,
      λ w k. head-least s irrefl _ e (candidate_kept k),
    )
  ]

  -- From a readable listing with at least one admitted version the code does return one.
  pub match_version_found :
      {v : sv.Version}
      → Candidate sv fs c matches v
      → (name : String) × (match_version sv sort fs data_dir range ≡ ok name)
  unfolding latest
  match_version_found k = elim (List-cases (sort (matching_versions sv c dirs))) [
    | inl e ↦ absurd (not-mem-nil (rw e at ((Perm.mem_iff (s.perm _)).1 (candidate_kept k))))
    | inr (v, (r, e)) ↦ (sv.original v, match_version-latest ∙ rw e)
  ]

directories_dangling :
    (sv : Semver) (fs : Directory) (ms : List String) {p : String}
    → Memᴰ p ms
    → fs.is_dir p ≡ none
    → directories sv fs ms ≡ panic
unfolding directories
directories_dangling sv fs [] m g = elim m [ ]
directories_dangling sv fs (m ∷ ms) (Memᴰ.head e) g = rw (directories, ← e, g)
directories_dangling sv fs (m ∷ ms) (Memᴰ.tail i) g =
    ground (arith, directories_dangling sv fs ms i g)

-- A match that is listed and cannot be read, such as a link without a target, makes the code panic.
pub match_version_dangling :
    (sv : Semver) (sort : List sv.Version → List sv.Version) (fs : Directory)
    (data_dir range : String) (matches : List String) {p : String}
    → fs.is_missing data_dir ≡ false
    → fs.glob (data_dir <> "/*") ≡ ok matches
    → Memᴰ p matches
    → fs.is_dir p ≡ none
    → match_version sv sort fs data_dir range ≡ panic
unfolding match_version
match_version_dangling sv sort fs data_dir range matches found globbed listed gone =
    rw (found, globbed, directories_dangling sv fs matches listed gone)
