-- ===== src/ModControl.antt =====
-- src/core/ModControl.cpp: loading, unloading and reloading mods at run time, and the command for it.
pub mod Names
pub mod Args
pub mod Printed
pub mod Manifest
pub mod Accepted
pub mod Graph
pub mod Closure
pub mod Counts
pub mod Kahn
pub mod Order
pub mod Dependents
pub mod Console
pub mod Load
pub mod Unload
pub mod Reload
pub mod Dispatch
pub mod Guarded
pub mod Gated
pub mod Reloaded
pub mod Answers
pub mod Liveness
