-- ===== src/Podutils.antt =====
-- internal/podutils/env.go: the environment of the containers of a pod.
mod Output
pub mod Sources
pub mod Values
pub mod Populate
pub mod Laws
pub mod Resolved
pub mod Total
mod Examples
pub use Output.*
