-- ===== src/Plot/Confine/MoveHook.antt =====
-- src/more_dimensions/plot/PlotConfine.cpp: the hook on the engine's `Actor::move`. The columns are
-- those of the actor's position and of the position it would move to, rounded down.
use levilamina_rust_loader.Base.{
  Bool, true, false, not, ◌&&◌, ◌||◌, Option, none, some, if◌then◌else◌, ◌==◌,
}
use levilamina_rust_loader.Base.Int.{ℤ, pos, ltb_ℤ, int_eq}
use levilamina_rust_loader.Rules.Table.{Rules, rule_number, entity_cross_plot, get_dimension_rule}
use levilamina_rust_loader.Plot.Confine.Grids.{Grids, has_plot_grid, same_area}

pub record MovingActor : Type 0 where
  pub is_player : Bool
  pub dim : ℤ
  pub has_passenger : Bool
  pub is_removed : Bool
  pub from_x : ℤ
  pub from_z : ℤ
  pub to_x : ℤ
  pub to_z : ℤ

-- How `origin` is called: with the whole displacement, or with its vertical part alone, after which
-- the actor's horizontal speed is cleared.
pub data Moved : Type 0 where
  whole vertical : Moved

-- Whether the rule is set and forbids the crossing.
abbrev pub forbids : Option Bool → Bool
forbids none = false
forbids (some allow) = not allow

abbrev pub moved_if : Option (Bool × Grids) → Option (Moved × Grids)
moved_if none = none
moved_if (some (true, s)) = some (whole, s)
moved_if (some (false, s)) = some (vertical, s)

-- PlotConfineActorMoveHook, on a displacement with or without a horizontal part and on what is read of
-- the actor, none where that throws.
unfoldable pub move_hook : Bool → Option MovingActor → Rules → Grids → Option (Moved × Grids)
move_hook horizontal actor t s =
    if s.grid_count == pos 0
    then some (whole, s)
    else if not horizontal
    then some (whole, s)
    else elim actor [
      | none ↦ some (whole, s)
      | some a ↦
          if a.is_player || (a.has_passenger || a.is_removed) || ltb_ℤ a.dim (pos 0)
          then some (whole, s)
          else if not (forbids (get_dimension_rule a.dim (pos (rule_number entity_cross_plot)) t))
              || not (has_plot_grid a.dim s)
          then some (whole, s)
          else if (a.from_x == a.to_x) && (a.from_z == a.to_z)
          then some (whole, s)
          else moved_if (same_area a.dim a.from_x a.from_z a.to_x a.to_z s)
    ]
