-- ===== src/Builder/Template.antt =====
-- `execTemplate` of internal/builder/templates.go: a template is written to a file.
pub mod Syntax
pub mod Value
pub mod Run
pub mod Data
pub mod Typing
pub mod Renders
pub mod Resources
pub mod Listed
pub mod Kustomization
pub mod Shard
pub mod Manifests
pub mod SyncTemplate
use flux_operator.Base.{
  String, ◌≡◌, refl, Option, none, some, Error, Result, ok, err, panic, failing, ◌⊎◌, inl, inr,
}
use flux_operator.Base.Effect.{M, ◌>>◌, act}
use flux_operator.Builder.Options.{Options}
use flux_operator.Builder.Files.{Files}
use flux_operator.Builder.Template.Syntax.{Template}
use flux_operator.Builder.Template.Data.{render}

-- The deferred call: it assigns the named result, so its own error replaces what was returned.
unfoldable pub closing :
    {W : Type 0} → (W → Option Error × W) → Result (Unit {0}) × W → Result (Unit {0}) × W
closing close (ok tt, w) = let (e, w') = close w in (failing e, w')
closing close (err _, w) = let (e, w') = close w in (failing e, w')
closing close (panic, w) = (panic, (close w).1)

-- What is done once the file is open.
unfoldable pub filled : {W : Type 0} (fs : Files W) → String → String → M W (Unit {0})
filled fs filename data_ = do act (fs.write_string filename data_); act (fs.sync filename)

unfoldable pub opened :
    {W : Type 0} (fs : Files W) → String → String → Option Error × W → Result (Unit {0}) × W
unfolding closing filled
opened fs filename data_ (some e, w) = (err e, w)
opened fs filename data_ (none, w) = closing (fs.close filename) (filled fs filename data_ w)

-- What is done with the outcome of the execution.
unfoldable pub executed :
    {W : Type 0} (fs : Files W) → String → W → Result String → Result (Unit {0}) × W
unfolding opened
executed fs filename w (ok data_) = opened fs filename data_ (fs.create filename w)
executed fs filename w (err e) = (err e, w)
executed fs filename w panic = (panic, w)

unfoldable pub exec_template :
    {W : Type 0} (fs : Files W) → Options → Template → String → M W (Unit {0})
unfolding executed
exec_template fs options tmpl filename w = executed fs filename w (render tmpl options)

-- Once the file is created, a write that fails, or a sync that fails after the write, goes
-- unnoticed: the result is that of closing the file, which is the next call.
pub exec_template_lost :
    {W : Type 0} (fs : Files W) (options : Options) (tmpl : Template) (filename : String)
    {d : String} {e : Error} {w v : W}
    → render tmpl options ≡ ok d
    → (fs.create filename w).0 ≡ none
    → (fs.write_string filename d (fs.create filename w).1 ≡ (some e, v))
      ⊎ ((u : W) × (fs.write_string filename d (fs.create filename w).1 ≡ (none, u))
          × (fs.sync filename u ≡ (some e, v)))
    → exec_template fs options tmpl filename w
      ≡ (failing (fs.close filename v).0, (fs.close filename v).1)
unfolding exec_template
exec_template_lost fs options tmpl filename rendered made (inl broken) =
    rw (rendered, made, broken) refl
exec_template_lost fs options tmpl filename rendered made (inr (u, written, broken)) =
    rw (rendered, made, written, broken) refl
