-- ===== src/Builder/Files.antt =====
-- The file system and the libraries that internal/builder/build.go and templates.go call.
use flux_operator.Base.{String, Option, Error, List}
use flux_operator.Base.Effect.{M}

-- The calls, over a state of the world. `secure_build` is kustomize's build together with its
-- conversion to YAML. `join` is `path.Join` and `filepath.Join`, which are the same function where
-- files are separated by a slash.
pub record Files (World : Type 0) : Type 0 where
  pub join : List String → String
  pub create : String → World → Option Error × World
  pub write_string : String → String → World → Option Error × World
  pub sync : String → World → Option Error × World
  pub close : String → World → Option Error × World
  pub copy : String → String → World → Option Error × World
  pub mkdir_all : String → World → Option Error × World
  pub write_file : String → String → World → Option Error × World
  pub read_file : String → M World String
  pub secure_build : String → M World String
