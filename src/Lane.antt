-- ===== src/Lane.antt =====
-- src/bridge/core/Lane.cpp: the lanes that Rust mods publish to one another, the leases on them, and
-- the flags that outlive the providers. What the source does under its lock is one state change, and
-- the calls into a provider's dylib are recorded, newest first; what these call of the loader is a further
-- call, or a parameter of the clean-up.
pub mod Tables
pub mod Publish
pub mod Leases
pub mod Calls
pub mod Gone
pub mod Invariant
pub mod Keeps
pub mod Left
pub mod Stays
pub mod History
pub mod Granted
pub mod Safety
pub mod Unload
