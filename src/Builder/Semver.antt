-- ===== src/Builder/Semver.antt =====
-- internal/builder/semver.go: which upgrades are allowed, and which version directory is taken.
-- The library Masterminds/semver and the file system are parameters.
pub mod Compatible
pub mod Matches
pub mod Latest
use flux_operator.Base.{
  String, ◌<>◌, ℕ, Bool, true, false, Option, none, some, List, [], ◌∷◌, ◌||◌, not, Result, ok, err,
  panic, ◌>>=◌, Error, errorf, wrapping, if◌then◌else◌, ltb, has_char, before, after_last, failing,
}

-- What the program calls of Masterminds/semver.
pub record Semver : Type 1 where
  pub Version : Type 0
  pub Constraint : Type 0
  pub parse : String → Result Version
  pub major : Version → ℕ
  pub minor : Version → ℕ
  pub original : Version → String
  pub less : Version → Version → Bool
  pub parse_constraint : String → Result Constraint
  pub satisfies : Constraint → Version → Bool

-- What the program calls of the file system. `is_dir` is `none` where `os.Stat` fails.
pub record Directory : Type 0 where
  pub is_missing : String → Bool
  pub glob : String → Result (List String)
  pub is_dir : String → Option Bool

-- A revision without its digest, `2.3.0` for `2.3.0@sha256:…`.
unfoldable pub without_digest : String → String
unfolding has_char before
without_digest s = if has_char b'@' s then before b'@' s else s

-- `filepath.Base` of a match of the glob, which has no slash at its end.
abbrev pub base_name : String → String
base_name = after_last b'/'

abbrev pub downgrade : String → String → Error
downgrade from_ver to_ver = errorf (
    "downgrading from "
    <> (from_ver <> (" to " <> (to_ver <> " is not supported, reinstall needed"))))

module _ (sv : Semver) where
  open sv use {Version, Constraint, parse, major, minor, original, parse_constraint, satisfies}

  unfoldable pub is_compatible_version : String → String → Result (Unit {0})
  is_compatible_version from_ver to_ver = do
    let from_ver' = without_digest from_ver
    from ← wrapping ("from version '" <> (from_ver' <> "' parse error: ")) (parse from_ver')
    let to_ver' = without_digest to_ver
    to ← wrapping ("to version '" <> (to_ver' <> "' parse error: ")) (parse to_ver')
    if ltb (major to) (major from) || ltb (minor to) (minor from)
        then err (downgrade from_ver' to_ver')
        else ok tt

  -- The loop over the matches. A match that cannot be read is a nil `FileInfo`, whose use panics.
  unfoldable pub directories : Directory → List String → Result (List String)
  directories fs [] = ok []
  directories fs (m ∷ ms) =
      let rest = directories fs ms in
      elim (fs.is_dir m) [
        | none ↦ panic
        | some true ↦ rest >>= λ dirs. ok (base_name m ∷ dirs)
        | some false ↦ rest
      ]

  -- The loop over the directories: a name that is no version is passed over.
  unfoldable pub matching_versions : Constraint → List String → List Version
  matching_versions c [] = []
  matching_versions c (t ∷ dirs) =
      let rest = matching_versions c dirs in
      elim (parse t) [ ok v ↦ if satisfies c v then v ∷ rest else rest | _ ↦ rest ]

  -- The test after the loop. `versions` is sorted already, the latest first.
  unfoldable pub latest : String → List Version → Result String
  latest range [] = err (errorf ("no match found for semver: " <> range))
  latest range (v ∷ vs) = ok (original v)

  -- `sort` is `sort.Sort(sort.Reverse(semver.Collection(versions)))`.
  unfoldable pub match_version :
      (List Version → List Version) → Directory → String → String → Result String
  unfolding directories matching_versions latest
  match_version sort fs data_dir range =
      if fs.is_missing data_dir then err (errorf (data_dir <> " directory not found")) else do
        matches ← fs.glob (data_dir <> "/*")
        dirs ← directories fs matches
        c ← wrapping ("semver '" <> (range <> "' parse error: ")) (parse_constraint range)
        latest range (sort (matching_versions c dirs))
