-- ===== src/Rules.antt =====
-- src/more_dimensions/dim/DimensionRules.cpp: the rules of a dimension and the hooks that ask them.
pub mod Table
pub mod Counted
pub mod Hooks
pub mod Denied
pub mod Crossing
