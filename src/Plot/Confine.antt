-- ===== src/Plot/Confine.antt =====
-- src/more_dimensions/plot/PlotConfine.cpp: who owns a column of a plot world, which plots are merged
-- into one area, and what may cross its edge.
pub mod Graph
pub mod Owner
pub mod Grids
pub mod Fuel
pub mod Geometry
pub mod Linked
pub mod Roots
pub mod Sound
pub mod Honest
pub mod MoveHook
