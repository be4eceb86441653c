-- ===== src/PodController.antt =====
-- node/pod.go and node/podcontroller.go: the controller that brings the provider and the API server
-- in line with one another.
pub mod Compare
pub mod State
pub mod Provide
pub mod Sync
pub mod Status
pub mod Informer
pub mod Invariant
pub mod KeepsPods
pub mod KeepsStatus
pub mod Reachable
pub mod Images
pub mod Terminal
pub mod Repeat
mod Examples
