-- ===== src/Plot/Confine/Honest.antt =====
-- src/more_dimensions/plot/PlotConfine.cpp: the functions that change the grids keep what they remember
-- honest.
use levilamina_rust_loader.Base.{
  ◌≡◌, refl, not, ◌||◌, some, List, [], inl, inr, arith, Bool-cases, Option-cases, if◌then◌else◌,
  ◌==◌,
}
use mathlib.Core.Path.{subst}
use levilamina_rust_loader.Base.Int.{ℤ, pos, ◌+ℤ◌, ltb_ℤ, leb_ℤ, int_eq}
use levilamina_rust_loader.Base.Assoc.{find, put, find-put, find-erase}
use levilamina_rust_loader.Plot.Confine.Graph.{DimGrid}
use levilamina_rust_loader.Plot.Confine.Grids.{
  Grids, MergeEntry, empty_grid, with_geometry, clear_plot_grid, set_plot_grid, add_merges,
  set_plot_merges,
}
use levilamina_rust_loader.Plot.Confine.Sound.{IsHonest}

-- Every grid remembers only roots that its plots are linked to.
abbrev pub AllHonest : Grids → Type 0
AllHonest s = (dimension : ℤ) (g : DimGrid) → find dimension s.grids ≡ some g → IsHonest g

-- A grid without remembered roots does.
fresh-IsHonest : (g : DimGrid) → g.roots ≡ [] → IsHonest g
unfolding find
fresh-IsHonest g e k r f = absurd (ground (arith, e, f))

put-AllHonest :
    (dimension : ℤ) (g : DimGrid) (s : Grids)
    → AllHonest s
    → IsHonest g
    → (n : ℤ) → AllHonest (record { grids = put dimension g s.grids; grid_count = n })
put-AllHonest dimension g s h k n d i f = elim (Bool-cases (dimension == d)) [
  | inl e ↦
      let is : g ≡ i = ground (arith, find-put dimension d g s.grids, e, f) in subst IsHonest is k
  | inr e ↦ h d i (ground (arith, find-put dimension d g s.grids, e, f))
]

with_geometry-IsHonest : (p w : ℤ) (g : DimGrid) → IsHonest g → IsHonest (with_geometry p w g)
with_geometry-IsHonest p w g h =
    elim (Bool-cases (not (g.plot_size == p) || not (g.road_width == w))) [
      | inl c ↦ rw c (
          fresh-IsHonest (record g { plot_size = p; road_width = w; roots = []; oversized = [] })
            refl)
      | inr c ↦ rw c h
    ]

clear-AllHonest :
    (dimension : ℤ) (s : Grids) → AllHonest s → AllHonest (clear_plot_grid dimension s)
unfolding clear_plot_grid
clear-AllHonest dimension s h d i f = h d i (ground (arith, find-erase dimension d s.grids, f))

-- Registering, changing and clearing a grid and handing over its merge table keep every grid one that
-- remembers only roots that its plots are linked to.
pub set_plot-AllHonest :
    (dimension p w : ℤ) (entries : List MergeEntry) (s : Grids)
    → AllHonest s
    → AllHonest (set_plot_grid dimension p w s)
      × AllHonest (set_plot_merges dimension entries s)
      × AllHonest (clear_plot_grid dimension s)
unfolding set_plot_grid set_plot_merges
set_plot-AllHonest dimension p w entries s h =
    let road = if ltb_ℤ w (pos 0) then pos 0 else w in
    let size = if ltb_ℤ (pos 512) p then pos 512 else p in
    let width = if ltb_ℤ (pos 64) road then pos 64 else road in
    (
      elim (Bool-cases (leb_ℤ p (pos 0))) [
        | inl a ↦ rw a (clear-AllHonest dimension s h)
        | inr a ↦ elim (Option-cases (find dimension s.grids)) [
          | inl b ↦
              rw (a, b)
                (put-AllHonest dimension (with_geometry size width empty_grid) s h
                  (with_geometry-IsHonest size width empty_grid (fresh-IsHonest empty_grid refl))
                  (s.grid_count +ℤ pos 1))
          | inr (g, b) ↦
              rw (a, b)
                (put-AllHonest dimension (with_geometry size width g) s h
                  (with_geometry-IsHonest size width g (h dimension g b)) s.grid_count)
        ]
      ],
      elim (Option-cases (find dimension s.grids)) [
        | inl b ↦ rw (b, set_plot_merges) h
        | inr (g, b) ↦
            let merged : DimGrid = record g {
              merges = add_merges entries [];
              roots = [];
              oversized = [];
            } in
            rw (b, set_plot_merges)
              (put-AllHonest dimension merged s h (fresh-IsHonest merged refl) s.grid_count)
      ],
      clear-AllHonest dimension s h,
    )
