-- ===== src/Builder.antt =====
-- Package internal/builder: versions, images and the options of a build.
pub mod Semver
pub mod Options
pub mod Profiles
pub mod Images
pub mod Files
pub mod Template
pub mod Build
pub mod Pull
