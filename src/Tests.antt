-- ===== src/Tests.antt =====
-- Runs of the models on small inputs, and each property at one.
mod Lanes
mod Registry
mod Topics
mod Interceptors
mod Tasks
mod Plots
mod Areas
mod Limits
mod Loading
mod Commands
mod Names
