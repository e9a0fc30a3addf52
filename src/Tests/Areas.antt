-- ===== src/Tests/Areas.antt =====
-- src/more_dimensions/plot/PlotConfine.cpp on a plot world.
use levilamina_rust_loader.Base.{
  ℕ, String, ◌≡◌, refl, Bool, true, false, none, some, [], ◌∷◌, arith, if◌then◌else◌,
}
use levilamina_rust_loader.Base.Int.{pos, negsuc, ◌+ℤ◌, ◌-ℤ◌, ◌/ℤ◌, ◌%ℤ◌, pack, int_eq}
use levilamina_rust_loader.Base.Assoc.{find, put}
use levilamina_rust_loader.Plot.Grid.{floor_div, positive_mod_local}
use levilamina_rust_loader.Plot.Layout.{default_layout, clamp, combine_2d, is_road}
use levilamina_rust_loader.Plot.LayoutBounds.{IsSafe, from_nbt-to_nbt}
use levilamina_rust_loader.Plot.Generator.{PlotGenerator, new_generator, axis_area}
use levilamina_rust_loader.Plot.Confine.Graph.{
  PlotXz, DimGrid, connected, claims, neighbour_of, pk, group_root, scan, look_around, look, unpk,
}
use levilamina_rust_loader.Plot.Confine.Owner.{owning_plot_locked, on_road, base_plot}
use levilamina_rust_loader.Plot.Confine.Grids.{
  Grids, set_plot_grid, set_plot_merges, clear_plot_grid, same_owner, same_root, same_area,
  has_plot_grid,
}
use levilamina_rust_loader.Plot.Confine.Fuel.{same_area_total}
use levilamina_rust_loader.Plot.Confine.Sound.{IsHonest, Means, OwnerIn, same_area-Means}
use levilamina_rust_loader.Plot.Confine.Honest.{AllHonest, set_plot-AllHonest}
use levilamina_rust_loader.Plot.Confine.Geometry.{InCell, Matches, owner_is_drawn}
use levilamina_rust_loader.Plot.Confine.MoveHook.{MovingActor, vertical, move_hook}
use levilamina_rust_loader.Rules.Table.{
  Rules, set_dimension_rule, get_dimension_rule, no_rules, allowed, rule_number, piston_cross_plot,
  any_rule_for, key,
}
use levilamina_rust_loader.Rules.Hooks.{Piston, managed, check_attached, piston_hook}

abbrev no_blocks : String → ℕ
no_blocks name = 0

abbrev world : PlotGenerator
world = new_generator no_blocks 1 default_layout

abbrev unmerged : DimGrid
unmerged = record {
  plot_size = pos 64;
  road_width = pos 7;
  merges = [];
  roots = [];
  oversized = [];
}

-- One plot world, in dimension 3.
abbrev one_world : Grids
one_world = record { grids = (pos 3, unmerged) ∷ []; grid_count = pos 1 }

-- The rules of dimension 3 forbid to cross a plot's edge.
abbrev walled : Rules
walled =
    set_dimension_rule (pos 3) (pos 12) false (set_dimension_rule (pos 3) (pos 11) false no_rules)

layout-IsSafe : IsSafe world.layout
unfolding new_generator
layout-IsSafe = (from_nbt-to_nbt default_layout (omega arith)).0

world-Matches : Matches unmerged world.layout
unfolding new_generator clamp
world-Matches = record { size = refl; width = refl }

owner_is_drawn_example :
    (own : PlotXz) × (owning_plot_locked unmerged (pos 70) (negsuc 5) ≡ (
      if is_road (combine_2d (axis_area world (pos 70)) (axis_area world (negsuc 5)))
      then none
      else some own))
    × InCell world.layout (pos 70) own.x
    × InCell world.layout (negsuc 5) own.z
owner_is_drawn_example =
    owner_is_drawn world unmerged (pos 70) (negsuc 5) layout-IsSafe world-Matches refl

same_area_total_example :
    (r : Bool × Grids) × (same_area (pos 3) (pos 1) (pos 1) (pos 80) (pos 1) one_world ≡ some r)
same_area_total_example = same_area_total (pos 3) (pos 1) (pos 1) (pos 80) (pos 1) one_world

abbrev piston : Piston
piston = record {
  self = record { x = pos 5; z = pos 5 };
  facing = record { x = pos 1; z = pos 0 };
  attached = (record { x = pos 6; z = pos 5 }) ∷ [];
}

walled_is_managed : managed (pos 3) walled ≡ true
unfolding any_rule_for set_dimension_rule no_rules find put key pack
walled_is_managed = refl

walled_rules :
    (allowed (pos 3) piston_cross_plot walled ≡ false)
    × (get_dimension_rule (pos 3) (pos 12) walled ≡ some false)
unfolding set_dimension_rule no_rules find put allowed get_dimension_rule key pack rule_number
walled_rules = (refl, refl)

one_world_has : has_plot_grid (pos 3) one_world ≡ true
unfolding has_plot_grid find
one_world_has = refl

-- The block beside the piston moves within the plot.
piston_moves :
    piston_hook (some (pos 3)) true (some piston) walled one_world ≡ some (true, one_world)
unfolding any_rule_for set_dimension_rule no_rules find put allowed get_dimension_rule key pack
    rule_number piston_hook has_plot_grid check_attached same_area same_owner owning_plot_locked
    on_road base_plot floor_div positive_mod_local ◌+ℤ◌ ◌-ℤ◌ ◌/ℤ◌ ◌%ℤ◌
piston_moves = refl

-- An item that slides from a plot onto the road.
abbrev item : MovingActor
item = record {
  is_player = false;
  dim = pos 3;
  has_passenger = false;
  is_removed = false;
  from_x = pos 63;
  from_z = pos 5;
  to_x = pos 64;
  to_z = pos 5;
}

item_held : move_hook true (some item) walled one_world ≡ some (vertical, one_world)
unfolding any_rule_for set_dimension_rule no_rules find put get_dimension_rule key pack rule_number
    move_hook has_plot_grid same_area same_owner owning_plot_locked on_road base_plot connected
    claims neighbour_of floor_div positive_mod_local ◌+ℤ◌ ◌-ℤ◌ ◌/ℤ◌ ◌%ℤ◌ pk
item_held = refl

-- Two plots that are merged across their seam: the plot 0;0 has the eastern mark.
abbrev merged : DimGrid
merged = record {
  plot_size = pos 64;
  road_width = pos 7;
  merges = (0, 2) ∷ [];
  roots = [];
  oversized = [];
}

abbrev merged_world : Grids
merged_world = record { grids = (pos 3, merged) ∷ []; grid_count = pos 1 }

-- After the first question both plots remember the root 0;0.
abbrev asked_world : Grids
asked_world = record {
  grids = (pos 3, record merged { roots = (4294967296, 0) ∷ (0, 0) ∷ [] }) ∷ [];
  grid_count = pos 1;
}

merged-IsHonest : IsHonest merged
unfolding find
merged-IsHonest k r f = absurd (cc f)

merged_found : find (pos 3) merged_world.grids ≡ some merged
unfolding find
merged_found = refl

west_owner : owning_plot_locked merged (pos 1) (pos 1) ≡ some (record { x = pos 0; z = pos 0 })
unfolding owning_plot_locked on_road base_plot floor_div positive_mod_local ◌+ℤ◌ ◌-ℤ◌ ◌/ℤ◌ ◌%ℤ◌
west_owner = refl

east_owner : owning_plot_locked merged (pos 75) (pos 1) ≡ some (record { x = pos 1; z = pos 0 })
unfolding owning_plot_locked on_road base_plot floor_div positive_mod_local ◌+ℤ◌ ◌-ℤ◌ ◌/ℤ◌ ◌%ℤ◌
east_owner = refl

same_area_merged :
    same_area (pos 3) (pos 1) (pos 1) (pos 75) (pos 1) merged_world ≡ some (true, asked_world)
unfolding find put same_area same_owner same_root group_root scan look_around look connected claims
    neighbour_of pk unpk pack owning_plot_locked on_road base_plot floor_div positive_mod_local ◌+ℤ◌
    ◌-ℤ◌ ◌/ℤ◌ ◌%ℤ◌
same_area_merged = refl

in_range :
    OwnerIn (owning_plot_locked merged (pos 1) (pos 1))
    × OwnerIn (owning_plot_locked merged (pos 75) (pos 1))
in_range =
    rw (west_owner, east_owner)
      (
        ((omega arith, omega arith), (omega arith, omega arith)),
        ((omega arith, omega arith), (omega arith, omega arith)),
      )

same_area-Means_example :
    Means merged
      (owning_plot_locked merged (pos 1) (pos 1))
      (owning_plot_locked merged (pos 75) (pos 1))
      true
    × (h : DimGrid) × (find (pos 3) asked_world.grids ≡ some h)
    × IsHonest h
same_area-Means_example =
    same_area-Means (pos 3) (pos 1) (pos 1) (pos 75) (pos 1) merged_world asked_world merged true
      refl merged_found merged-IsHonest in_range.0 in_range.1 same_area_merged

abbrev no_grids : Grids
no_grids = record { grids = []; grid_count = pos 0 }

no_grids-AllHonest : AllHonest no_grids
unfolding find
no_grids-AllHonest dimension g f = absurd (cc f)

set_plot-AllHonest_example :
    AllHonest (set_plot_grid (pos 3) (pos 64) (pos 7) no_grids)
    × AllHonest (set_plot_merges (pos 3) [] no_grids)
    × AllHonest (clear_plot_grid (pos 3) no_grids)
set_plot-AllHonest_example =
    set_plot-AllHonest (pos 3) (pos 64) (pos 7) [] no_grids no_grids-AllHonest
