-- ===== src/Plot/Confine/Geometry.antt =====
-- src/more_dimensions/plot/PlotConfine.cpp against PlotGenerator.cpp: the plots that own columns are
-- those that the generator draws.
use levilamina_rust_loader.Base.{
  ℕ, ◌<◌, ◌≡◌, refl, false, ◌||◌, none, some, [], arith, if◌then◌else◌,
}
use levilamina_rust_loader.Base.Int.{ℤ, pos, ◌+ℤ◌, ◌*ℤ◌, ◌<ℤ◌, leb_ℤ, pos_part}
use levilamina_rust_loader.Base.Assoc.{find}
use levilamina_rust_loader.Plot.Grid.{
  floor_div, positive_mod, floor_mod, floor_parts, positive_mod_local-eq,
}
use levilamina_rust_loader.Plot.Layout.{
  PlotLayout, PlotArea, plot, border, road, classify_1d, combine_2d, is_road, cell_size,
}
use levilamina_rust_loader.Plot.LayoutBounds.{IsSafe}
use levilamina_rust_loader.Plot.Generator.{PlotGenerator, axis_area}
use levilamina_rust_loader.Plot.Confine.Graph.{PlotXz, DimGrid, connected, claims}
use levilamina_rust_loader.Plot.Confine.Owner.{cell_of, on_road, base_plot, owning_plot_locked}

-- The grid of a dimension has the geometry of its generator's layout.
pub record Matches (g : DimGrid) (l : PlotLayout) : Type 0 where
  pub size : g.plot_size ≡ l.plot_size
  pub width : g.road_width ≡ l.road_width

combine_road : (a b : PlotArea) → is_road (combine_2d a b) ≡ (is_road a || is_road b)
unfolding combine_2d
combine_road plot plot = refl
combine_road plot border = refl
combine_road plot road = refl
combine_road border plot = refl
combine_road border border = refl
combine_road border road = refl
combine_road road b = refl

road_at : (offset : ℤ) (l : PlotLayout) → is_road (classify_1d offset l) ≡ leb_ℤ l.plot_size offset
unfolding classify_1d
road_at offset l = ground arith

axis_road :
    (p : PlotGenerator) (g : DimGrid) (v : ℤ)
    → Matches g p.layout
    → is_road (axis_area p v) ≡ on_road g v
unfolding axis_area on_road cell_size
axis_road p g v m =
    rw (m.size, m.width, positive_mod_local-eq)
      (road_at (positive_mod v (pos_part (p.layout.plot_size +ℤ p.layout.road_width))) p.layout)

unconnected : (g : DimGrid) (a : PlotXz) (dir : ℕ) → g.merges ≡ [] → connected g a dir ≡ false
unfolding connected claims find
unconnected g a dir h = rw h refl

cell_positive :
    (g : DimGrid) (l : PlotLayout) → Matches g l → IsSafe l → leb_ℤ (cell_of g) (pos 0) ≡ false
unfolding ◌+ℤ◌
cell_positive g l m s = rw (m.size, m.width) (ground (arith, s.plot_low, s.road_low))

-- A coordinate is in the cell of an index: at an offset, of less than a cell, from its start.
abbrev pub InCell : PlotLayout → ℤ → ℤ → Type 0
InCell l v k = (offset : ℕ) × (pos offset <ℤ cell_size l) × (k *ℤ cell_size l +ℤ pos offset ≡ v)

cell_number :
    (g : DimGrid) (l : PlotLayout)
    → Matches g l
    → IsSafe l
    → (cell_size l ≡ pos (pos_part (cell_of g))) × (0 < pos_part (cell_of g))
unfolding ◌+ℤ◌ cell_size
cell_number g l m s =
    rw (m.size, m.width)
      (ground (arith, s.plot_low, s.road_low), ground (arith, s.plot_low, s.road_low))

in_cell :
    (g : DimGrid) (l : PlotLayout) (v : ℤ)
    → Matches g l
    → IsSafe l
    → InCell l v (floor_div v (pos_part (cell_of g)))
in_cell g l v m s =
    let (whole, positive) = cell_number g l m s in
    let (parts, small, rest) = floor_parts v (pos_part (cell_of g)) positive in
    let d = pos_part (cell_of g) in
    (floor_mod v d, rw whole (omega (arith, small)), rw (whole, ← rest) parts)

-- For a safe layout, and a grid of its geometry in which no plot is merged: a column has an owner
-- where the generator draws no road, and has none where it does; the owner is the plot whose cell
-- the column is in, along both axes.
pub owner_is_drawn :
    (p : PlotGenerator) (g : DimGrid) (x z : ℤ)
    → IsSafe p.layout
    → Matches g p.layout
    → g.merges ≡ []
    → (own : PlotXz) × (owning_plot_locked g x z
        ≡ (if is_road (combine_2d (axis_area p x) (axis_area p z)) then none else some own))
      × InCell p.layout x own.x
      × InCell p.layout z own.z
unfolding owning_plot_locked base_plot
owner_is_drawn p g x z s m h = (
  base_plot g x z,
  rw
      (
        cell_positive g p.layout m s,
        combine_road (axis_area p x) (axis_area p z),
        axis_road p g x m,
        axis_road p g z m,
      )
      (ground (arith, unconnected g (base_plot g x z) 1 h, unconnected g (base_plot g x z) 2 h)),
  in_cell g p.layout x m s,
  in_cell g p.layout z m s,
)
