-- ===== src/Services.antt =====
-- src/bridge/core/Services.cpp: the registry of named services, one provider to a name, and the calls
-- of one mod into another, which may call back in.
pub mod Tables
pub mod Call
pub mod Invariant
pub mod Sweep
pub mod Total
pub mod Names
