-- ===== src/PodBuilder.antt =====
-- podbuilder/podbuilder.go: the pods of a test's driver, servers and clients. A pod is built or the
-- pool is unknown; a dereferenced nil pointer panics.
pub mod Ready
pub mod Worker
pub mod Base
pub mod Built
pub mod Labels
pub mod Mounts
pub use Base.{PodBuilder}
