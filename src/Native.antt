-- ===== src/Native.antt =====
-- cmd/virtual-kubelet/internal/provider/native: the provider that runs the containers of a pod as
-- processes of the host.
pub mod Status
pub mod Sized
pub mod Keeps
pub mod Attempts
pub mod Process
pub mod Manager
pub mod Env
pub mod Environ
pub mod Absent
pub mod Download
pub mod Wanted
pub mod Start
pub mod KeepsWorld
pub mod Parts
pub mod Steps
pub mod Ends
pub mod Keys
pub mod Trace
pub mod Views
pub mod Refines
pub mod Chain
pub mod Loop
pub mod Restart
mod Examples
mod ManagerExamples
