-- ===== src/Builder/Semver/Matches.antt =====
-- What the loop over the matches keeps.
use mathlib.Core.List.{Memᴰ}
use mathlib.Core.List.Memᴰ
use mathlib.Core.Path.{subst}
use flux_operator.Base.{
  String, ◌<>◌, ◌≡◌, refl, ap, ok, arith, Bool-cases, inl, inr, ◌⊎◌, Option-cases, Result-cases,
  true, false, List, [], ◌∷◌, some,
}
use flux_operator.Builder.Semver.{Semver, Directory, base_name, directories, matching_versions}

-- A version that the range admits, and the directory among the matches that is named after it.
pub record Candidate (sv : Semver) (fs : Directory) (c : sv.Constraint) (matches : List String)
    (v : sv.Version) : Type 0 where
  pub path : String
  pub listed : Memᴰ path matches
  pub is_dir : fs.is_dir path ≡ some true
  pub parses : sv.parse (base_name path) ≡ ok v
  pub satisfies : sv.satisfies c v ≡ true

-- A listing that can be read: the directory is there, its glob and the range parse, and no match
-- vanishes between the glob and its `os.Stat`.
pub record Readable (sv : Semver) (fs : Directory) (data_dir range : String) (c : sv.Constraint)
    (matches dirs : List String) : Type 0 where
  pub found : fs.is_missing data_dir ≡ false
  pub globbed : fs.glob (data_dir <> "/*") ≡ ok matches
  pub statted : directories sv fs matches ≡ ok dirs
  pub parsed : sv.parse_constraint range ≡ ok c

module _ (sv : Semver) (fs : Directory) (c : sv.Constraint) where
  -- What a round of the loop over the matches does.
  pub directories-cons :
      (m : String) (ms dirs : List String)
      → directories sv fs (m ∷ ms) ≡ ok dirs
      → ((fs.is_dir m ≡ some true)
          × ((rest : List String) × (directories sv fs ms ≡ ok rest) × (dirs ≡ base_name m ∷ rest)))
        ⊎ ((fs.is_dir m ≡ some false) × (directories sv fs ms ≡ ok dirs))
  unfolding directories
  directories-cons m ms dirs h = elim (Result-cases (directories sv fs ms)) [
    | inl (rest, e) ↦ elim (Option-cases (fs.is_dir m)) [
      | inl n ↦ absurd (ground arith)
      | inr (true, y) ↦ inl (y, (rest, e, ground arith))
      | inr (false, y) ↦ inr (y, ground arith)
    ]
    | inr (inl (x, e)) ↦ absurd (ground arith)
    | inr (inr e) ↦ absurd (ground arith)
  ]

  pub mem-directories :
      (matches dirs : List String) (p : String)
      → directories sv fs matches ≡ ok dirs
      → Memᴰ p matches
      → fs.is_dir p ≡ some true
      → Memᴰ (base_name p) dirs
  mem-directories [] dirs p h q d = elim q [ ]
  mem-directories (m ∷ ms) dirs p h (Memᴰ.head e) d = elim (directories-cons m ms dirs h) [
    | inl (y, (rest, k, g)) ↦ rw g (Memᴰ.head (ap base_name e))
    | inr (n, k) ↦ absurd (cc)
  ]
  mem-directories (m ∷ ms) dirs p h (Memᴰ.tail q) d = elim (directories-cons m ms dirs h) [
    | inl (y, (rest, k, g)) ↦ rw g (Memᴰ.tail (mem-directories ms rest p k q d))
    | inr (n, k) ↦ mem-directories ms dirs p k q d
  ]

  pub directories-mem :
      (matches dirs : List String) (t : String)
      → directories sv fs matches ≡ ok dirs
      → Memᴰ t dirs
      → (p : String) × Memᴰ p matches × (fs.is_dir p ≡ some true) × (t ≡ base_name p)
  directories-mem [] dirs t h q = absurd (Memᴰ.not-nil (subst (Memᴰ t) (nothing-listed dirs h) q))
    where
      nothing-listed : (l : List String) → directories sv fs [] ≡ ok l → l ≡ []
      nothing-listed l e = unfold directories in cc
  directories-mem (m ∷ ms) dirs t h q = elim (directories-cons m ms dirs h) [
    | inl (y, (rest, k, g)) ↦ first_listed (rw g at q) y (directories-mem ms rest t k)
    | inr (n, k) ↦ later_listed (directories-mem ms dirs t k q)
  ]
    where
      later_listed :
          (p : String) × Memᴰ p ms × (fs.is_dir p ≡ some true) × (t ≡ base_name p)
          → (p : String) × Memᴰ p (m ∷ ms) × (fs.is_dir p ≡ some true) × (t ≡ base_name p)
      later_listed (p, i, d, e) = (p, Memᴰ.tail i, d, e)

      first_listed :
          {rest : List String}
          → Memᴰ t (base_name m ∷ rest)
          → fs.is_dir m ≡ some true
          → (Memᴰ t rest → (p : String) × Memᴰ p ms × (fs.is_dir p ≡ some true) × (t ≡ base_name p))
          → (p : String) × Memᴰ p (m ∷ ms) × (fs.is_dir p ≡ some true) × (t ≡ base_name p)
      first_listed (Memᴰ.head e) y more = (m, Memᴰ.head refl, y, e)
      first_listed (Memᴰ.tail i) y more = later_listed (more i)

  pub mem-matching_versions :
      (dirs : List String) (t : String) (v : sv.Version)
      → Memᴰ t dirs
      → sv.parse t ≡ ok v
      → sv.satisfies c v ≡ true
      → Memᴰ v (matching_versions sv c dirs)
  unfolding matching_versions
  mem-matching_versions [] t v q p s = elim q [ ]
  mem-matching_versions (u ∷ dirs) t v (Memᴰ.head e) p s =
      rw (matching_versions, ← e, p, s) (Memᴰ.head refl)
  mem-matching_versions (u ∷ dirs) t v (Memᴰ.tail q) p s =
      kept (mem-matching_versions dirs t v q p s)
    where
      kept : Memᴰ v (matching_versions sv c dirs) → Memᴰ v (matching_versions sv c (u ∷ dirs))
      kept i = elim (Result-cases (sv.parse u)) [
        | inl (w, e) ↦ elim (Bool-cases (sv.satisfies c w)) [
          | inl y ↦ rw (matching_versions, e, y) (Memᴰ.tail i)
          | inr n ↦ rw (matching_versions, e, n) i
        ]
        | inr (inl (x, e)) ↦ rw (matching_versions, e) i
        | inr (inr e) ↦ rw (matching_versions, e) i
      ]

  pub matching_versions-mem :
      (dirs : List String) (v : sv.Version)
      → Memᴰ v (matching_versions sv c dirs)
      → (t : String) × Memᴰ t dirs × (sv.parse t ≡ ok v) × (sv.satisfies c v ≡ true)
  unfolding matching_versions
  matching_versions-mem [] v q = elim q [ ]
  matching_versions-mem (t ∷ dirs) v q = elim (Result-cases (sv.parse t)) [
    | inl (w, e) ↦ elim (Bool-cases (sv.satisfies c w)) [
      | inl y ↦ chosen e y (rw (matching_versions, e, y) at q) (matching_versions-mem dirs v)
      | inr n ↦ passed (matching_versions-mem dirs v (rw (matching_versions, e, n) at q))
    ]
    | inr (inl (x, e)) ↦ passed (matching_versions-mem dirs v (rw (matching_versions, e) at q))
    | inr (inr e) ↦ passed (matching_versions-mem dirs v (rw (matching_versions, e) at q))
  ]
    where
      passed :
          (t : String) × Memᴰ t dirs × (sv.parse t ≡ ok v) × (sv.satisfies c v ≡ true)
          → (u : String) × Memᴰ u (t ∷ dirs) × (sv.parse u ≡ ok v) × (sv.satisfies c v ≡ true)
      passed (u, i, p, s) = (u, Memᴰ.tail i, p, s)

      chosen :
          {w : sv.Version} {vs : List sv.Version}
          → sv.parse t ≡ ok w
          → sv.satisfies c w ≡ true
          → Memᴰ v (w ∷ vs)
          → (Memᴰ v vs
              → (u : String) × Memᴰ u dirs × (sv.parse u ≡ ok v) × (sv.satisfies c v ≡ true))
          → (u : String) × Memᴰ u (t ∷ dirs) × (sv.parse u ≡ ok v) × (sv.satisfies c v ≡ true)
      chosen e y (Memᴰ.head h) more = (t, Memᴰ.head refl, rw h e, rw h y)
      chosen e y (Memᴰ.tail i) more = passed (more i)
