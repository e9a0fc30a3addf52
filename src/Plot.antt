-- ===== src/Plot.antt =====
-- src/more_dimensions: the plot worlds, their geometry, their generator and the border rules.
pub mod Grid
pub mod Layout
pub mod LayoutBounds
pub mod Generator
pub mod Filled
pub mod Column
pub mod Confine
