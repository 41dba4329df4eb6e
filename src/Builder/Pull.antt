-- ===== src/Builder/Pull.antt =====
-- internal/builder/pull.go, digest.go and `MkdirTempAbs` of semver.go.
use flux_operator.Base.{
  String, ◌<>◌, Option, List, [], ◌∷◌, Error, errorf, is_prefix, drop_chars, count_chars,
  if◌then◌else◌,
}
use flux_operator.Base.Effect.{M, ◌>>=◌, ◌>>◌, act, fail, prefixed, return}

-- What the program calls of crane and tar, and of the file system for its temporary directories.
pub record Registry (World : Type 0) : Type 1 where
  pub Image : Type 0
  pub Layer : Type 0
  pub Blob : Type 0
  pub pull : String → M World Image
  pub image_digest : Image → M World String
  pub layers : Image → M World (List Layer)
  pub compressed : Layer → M World Blob
  pub untar : Blob → String → World → Option Error × World
  pub remote_digest : String → M World String
  pub mkdir_temp : M World String
  pub eval_symlinks : String → M World String

-- `strings.TrimPrefix(url, "oci://")`.
unfoldable pub without_scheme : String → String
unfolding is_prefix drop_chars count_chars
without_scheme url = if is_prefix "oci://" url then drop_chars 6 url else url

module _ {W : Type 0} (reg : Registry W) where
  open reg use {Image, Layer, pull, image_digest, layers, compressed, untar, remote_digest}

  unfoldable pub get_artifact_digest : String → M W String
  get_artifact_digest url =
      prefixed ("fetching digest for artifact " <> (url <> " failed: "))
        (remote_digest (without_scheme url))

  -- The check for a layer, and the extraction of the first.
  unfoldable pub extract_first : String → String → List Layer → M W (Unit {0})
  extract_first url dst_dir [] = fail (errorf ("no layers found in artifact " <> url))
  extract_first url dst_dir (layer ∷ ls) = do
    let extracting = "extracting layer from artifact " <> (url <> " failed: ")
    blob ← prefixed extracting (compressed layer)
    prefixed extracting (act (untar blob dst_dir))

  unfoldable pub pull_artifact : String → String → M W String
  unfolding extract_first
  pull_artifact url dst_dir = do
    img ← prefixed ("pulling artifact " <> (url <> " failed: ")) (pull (without_scheme url))
    digest ← prefixed ("parsing digest for artifact " <> (url <> " failed: ")) (image_digest img)
    ls ← prefixed ("listing layers in artifact " <> (url <> " failed: ")) (layers img)
    extract_first url dst_dir ls
    return digest

  unfoldable pub mkdir_temp_abs : M W String
  mkdir_temp_abs = do
    tmp_dir ← reg.mkdir_temp
    prefixed "error evaluating symlink: " (reg.eval_symlinks tmp_dir)
