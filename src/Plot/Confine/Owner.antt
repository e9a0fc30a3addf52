-- ===== src/Plot/Confine/Owner.antt =====
-- src/more_dimensions/plot/PlotConfine.cpp: the plot that owns a column.
use levilamina_rust_loader.Base.{Bool, not, ◌&&◌, Option, none, some, if◌then◌else◌}
use levilamina_rust_loader.Base.Int.{ℤ, pos, pos_part, ◌+ℤ◌, leb_ℤ}
use levilamina_rust_loader.Plot.Grid.{floor_div, positive_mod_local}
use levilamina_rust_loader.Plot.Confine.Graph.{PlotXz, at_plot, DimGrid, neighbour_of, connected}

abbrev pub cell_of : DimGrid → ℤ
cell_of g = g.plot_size +ℤ g.road_width

-- `positiveModLocal(v, cell) >= g.plotSize`
unfoldable pub on_road : DimGrid → ℤ → Bool
on_road g v = leb_ℤ g.plot_size (positive_mod_local v (pos_part (cell_of g)))

unfoldable pub base_plot : DimGrid → ℤ → ℤ → PlotXz
base_plot g x z = at_plot (floor_div x (pos_part (cell_of g))) (floor_div z (pos_part (cell_of g)))

-- `owningPlotLocked`
unfoldable pub owning_plot_locked : DimGrid → ℤ → ℤ → Option PlotXz
owning_plot_locked g x z =
    if leb_ℤ (cell_of g) (pos 0)
    then none
    else let base = base_plot g x z in
      let on_road_x = on_road g x in
      let on_road_z = on_road g z in
      if not on_road_x && not on_road_z
      then some base
      else if on_road_x && not on_road_z
      then (if not (connected g base 1) then none else some base)
      else if not on_road_x && on_road_z
      then (if not (connected g base 2) then none else some base)
      else if not (
          connected g base 1
          && connected g base 2
          && connected g (neighbour_of base 1) 2
          && connected g (neighbour_of base 2) 1)
      then none
      else some base
