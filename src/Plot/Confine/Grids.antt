-- ===== src/Plot/Confine/Grids.antt =====
-- src/more_dimensions/plot/PlotConfine.cpp: the grids of all dimensions, behind the functions of
-- PlotConfine.h.
use levilamina_rust_loader.Base.{
  ℕ, ◌%◌, Bool, true, false, not, ◌||◌, Option, none, some, List, [], ◌∷◌, if◌then◌else◌, ◌==◌,
  nat_eq,
}
use Prim.Native.Nat.{bit_or}
use levilamina_rust_loader.Base.Int.{ℤ, pos, ◌+ℤ◌, ◌-ℤ◌, leb_ℤ, ltb_ℤ, int_eq, word32}
use levilamina_rust_loader.Base.Assoc.{find, put, erase}
use levilamina_rust_loader.Plot.Confine.Graph.{PlotXz, at_plot, same_plot, pk, DimGrid, group_root}
use levilamina_rust_loader.Plot.Confine.Owner.{owning_plot_locked}

-- `grids()` and `gGridCount`.
pub record Grids : Type 0 where
  pub grids : List (ℤ × DimGrid)
  pub grid_count : ℤ

-- The grid that `try_emplace` makes.
abbrev pub empty_grid : DimGrid
empty_grid = record {
  plot_size = pos 0;
  road_width = pos 0;
  merges = [];
  roots = [];
  oversized = [];
}

-- `clearPlotGrid`
unfoldable pub clear_plot_grid : ℤ → Grids → Grids
clear_plot_grid dimension s = elim (find dimension s.grids) [
  | none ↦ record s { grids = erase dimension s.grids }
  | some _ ↦ record { grids = erase dimension s.grids; grid_count = s.grid_count -ℤ pos 1 }
]

-- A grid of another geometry forgets what it remembered.
abbrev pub with_geometry : ℤ → ℤ → DimGrid → DimGrid
with_geometry plot_size road_width g =
    if not (g.plot_size == plot_size) || not (g.road_width == road_width)
    then record g { plot_size = plot_size; road_width = road_width; roots = []; oversized = [] }
    else g

-- `setPlotGrid`
unfoldable pub set_plot_grid : ℤ → ℤ → ℤ → Grids → Grids
set_plot_grid dimension plot_size road_width s =
    if leb_ℤ plot_size (pos 0)
    then clear_plot_grid dimension s
    else let r = if ltb_ℤ road_width (pos 0) then pos 0 else road_width in
      let p = if ltb_ℤ (pos 512) plot_size then pos 512 else plot_size in
      let w = if ltb_ℤ (pos 64) r then pos 64 else r in
      elim (find dimension s.grids) [
        | none ↦ record {
          grids = put dimension (with_geometry p w empty_grid) s.grids;
          grid_count = s.grid_count +ℤ pos 1;
        }
        | some g ↦ record s { grids = put dimension (with_geometry p w g) s.grids }
      ]

-- One entry of a merge table: x, z and the mask.
pub record MergeEntry : Type 0 where
  pub x : ℤ
  pub z : ℤ
  pub mask : ℤ

-- What `g.merges[k]` reads: a key that is missing has 0.
abbrev pub mask_at : ℕ → List (ℕ × ℕ) → ℕ
mask_at k m = elim (find k m) [ none ↦ 0 | some v ↦ v ]

-- `for (int32_t i = 0; i < count; ++i)`
unfoldable pub add_merges : List MergeEntry → List (ℕ × ℕ) → List (ℕ × ℕ)
add_merges [] m = m
add_merges (e ∷ es) m =
    let mask = word32 e.mask % 16 in
    let k = pk (at_plot e.x e.z) in
    add_merges es (if mask == 0 then m else put k (bit_or (mask_at k m) mask) m)

-- `setPlotMerges`, on the entries that the caller hands over.
unfoldable pub set_plot_merges : ℤ → List MergeEntry → Grids → Grids
set_plot_merges dimension entries s = elim (find dimension s.grids) [
  | none ↦ s
  | some g ↦
      let h : DimGrid = record g { merges = add_merges entries []; roots = []; oversized = [] } in
      record s { grids = put dimension h s.grids }
]

-- `hasPlotGrid`
unfoldable pub has_plot_grid : ℤ → Grids → Bool
has_plot_grid dimension s =
    if s.grid_count == pos 0
    then false
    else elim (find dimension s.grids) [ none ↦ false | some g ↦ ltb_ℤ (pos 0) g.plot_size ]

-- `owningPlot`
unfoldable pub owning_plot : ℤ → ℤ → ℤ → Grids → Option PlotXz
owning_plot dimension x z s =
    if s.grid_count == pos 0
    then none
    else elim (find dimension s.grids) [ none ↦ none | some g ↦ owning_plot_locked g x z ]

-- The last lines of `sameArea`: the roots of two plots that are not the same.
abbrev pub against : PlotXz → Option (Option PlotXz × DimGrid) → Option (Bool × DimGrid)
against ra none = none
against ra (some (none, i)) = some (false, i)
against ra (some (some rb, i)) = some (same_plot ra rb, i)

abbrev pub then_root : PlotXz → Option (Option PlotXz × DimGrid) → Option (Bool × DimGrid)
then_root b none = none
then_root b (some (none, h)) = some (false, h)
then_root b (some (some ra, h)) = against ra (group_root h b)

unfoldable pub same_root : DimGrid → PlotXz → PlotXz → Option (Bool × DimGrid)
same_root g a b = then_root b (group_root g a)

-- What `sameArea` decides of the owners of two columns.
unfoldable pub same_owner : DimGrid → Option PlotXz → Option PlotXz → Option (Bool × DimGrid)
same_owner g none none = some (true, g)
same_owner g none (some b) = some (false, g)
same_owner g (some a) none = some (false, g)
same_owner g (some a) (some b) = if same_plot a b then some (true, g) else same_root g a b

-- The grid's roots are remembered in place.
abbrev pub remember : ℤ → Grids → Option (Bool × DimGrid) → Option (Bool × Grids)
remember dimension s none = none
remember dimension s (some (ok, h)) = some (ok, record s { grids = put dimension h s.grids })

-- `sameArea`: none where the scan's fuel was not enough.
unfoldable pub same_area : ℤ → ℤ → ℤ → ℤ → ℤ → Grids → Option (Bool × Grids)
same_area dimension x1 z1 x2 z2 s =
    if s.grid_count == pos 0 then some (true, s) else elim (find dimension s.grids) [
      | none ↦ some (true, s)
      | some g ↦
          remember dimension s
            (same_owner g (owning_plot_locked g x1 z1) (owning_plot_locked g x2 z2))
    ]
