-- ===== src/Rules/Hooks.antt =====
-- src/more_dimensions/dim/DimensionRules.cpp: the hooks that ask the rules, each a function of what
-- the engine hands it. `origin` is the engine's own function; what it returns is an argument.
use levilamina_rust_loader.Base.{
  ℕ, Bool, true, false, not, ◌&&◌, ◌||◌, Option, none, some, List, [], ◌∷◌, if◌then◌else◌, nat_eq,
}
use levilamina_rust_loader.Base.Int.{ℤ, pos, ◌+ℤ◌, ltb_ℤ, leb_ℤ}
use levilamina_rust_loader.Rules.Table.{
  Rules, DimRule, spawn_monster, spawn_animal, spawn_spawner, explode_blocks, fire_spread,
  mob_griefing, projectile, piston_push, liquid_flow, farmland_decay, ride, piston_cross_plot,
  any_rule_for, allowed, dim_of,
}
use levilamina_rust_loader.Plot.Confine.Grids.{Grids, has_plot_grid, same_area}

-- Whether the hook's first test sends it on: a dimension that can be read and has rules.
abbrev pub managed : ℤ → Rules → Bool
managed dim t = leb_ℤ (pos 0) dim && any_rule_for dim t

-- The hooks that either call `origin` or leave it: DimRuleSpawnProjectileHook, DimRuleFireSpreadHook,
-- DimRuleLiquidFlowHook, DimRuleFarmlandHook and DimRuleRideHook, true where `origin` is called.
unfoldable pub calls_origin : DimRule → Option ℤ → Rules → Bool
calls_origin rule region t = not (managed (dim_of region) t && not (allowed (dim_of region) rule t))

abbrev pub spawn_projectile_hook : Option ℤ → Rules → Bool
spawn_projectile_hook = calls_origin projectile

abbrev pub fire_spread_hook : Option ℤ → Rules → Bool
fire_spread_hook = calls_origin fire_spread

abbrev pub liquid_flow_hook : Option ℤ → Rules → Bool
liquid_flow_hook = calls_origin liquid_flow

abbrev pub farmland_hook : Option ℤ → Rules → Bool
farmland_hook = calls_origin farmland_decay

abbrev pub ride_hook : Option ℤ → Rules → Bool
ride_hook = calls_origin ride

-- A mob that `origin` spawned: whether it has the category Monster.
pub record Mob : Type 0 where
  pub address : ℕ
  pub hostile : Bool

-- What became of a spawn: whether `origin` was called, the mob that was taken away again, and the
-- mob that is returned.
pub record Spawned : Type 0 where
  pub called : Bool
  pub despawned : Option Mob
  pub mob : Option Mob

abbrev unhindered : Option Mob → Spawned
unhindered mob = record { called = true; despawned = none; mob = mob }

-- DimRuleSpawnMobHook
unfoldable pub spawn_mob_hook : Option ℤ → Bool → Bool → Option Mob → Rules → Spawned
spawn_mob_hook region natural_spawn from_spawner origin t =
    let dim = dim_of region in
    if ltb_ℤ dim (pos 0) || not (any_rule_for dim t)
    then unhindered origin
    else if from_spawner && not (allowed dim spawn_spawner t)
    then record { called = false; despawned = none; mob = none }
    else if natural_spawn
    then elim origin [
      | none ↦ unhindered none
      | some mob ↦
          let ok =
            if mob.hostile then allowed dim spawn_monster t else allowed dim spawn_animal t in
          if not ok
          then record { called = true; despawned = some mob; mob = none }
          else unhindered (some mob)
    ]
    else unhindered origin

-- What set off an explosion: nothing, or an actor whose categories are Mob and Player or cannot be read.
pub data Source : Type 0 where
  no_actor unreadable : Source
  actor : (mob player : Bool) → Source

abbrev pub is_mob_source : Source → Bool
is_mob_source no_actor = false
is_mob_source unreadable = false
is_mob_source (actor mob player) = mob && not player

-- DimRuleExplodeHook: the `breaksBlocks` with which `origin` is called.
unfoldable pub explode_hook : Option ℤ → Source → Bool → Rules → Bool
explode_hook region source breaks_blocks t =
    let dim = dim_of region in
    if ltb_ℤ dim (pos 0) || not (any_rule_for dim t) || not breaks_blocks
    then breaks_blocks
    else let allow_break = allowed dim explode_blocks t in
      if allow_break && is_mob_source source && not (allowed dim mob_griefing t)
      then false
      else allow_break

-- A column, as x and z.
pub record Column : Type 0 where
  pub x : ℤ
  pub z : ℤ

-- What the piston's hook reads of it: its own column, the way it faces, and the attached blocks.
pub record Piston : Type 0 where
  pub self : Column
  pub facing : Column
  pub attached : List Column

abbrev pub if_same : Option (Bool × Grids) → (Grids → Option (Bool × Grids)) → Option (Bool × Grids)
if_same none next = none
if_same (some (false, t)) next = some (false, t)
if_same (some (true, t)) next = next t

-- The loop over the attached blocks: where each stands and where it would be moved.
unfoldable pub check_attached : ℤ → Column → Column → List Column → Grids → Option (Bool × Grids)
check_attached dim self facing [] s = some (true, s)
check_attached dim self facing (b ∷ bs) s = if_same (same_area dim self.x self.z b.x b.z s) (λ t.
    if_same (same_area dim self.x self.z (b.x +ℤ facing.x) (b.z +ℤ facing.z) t)
      (λ u. check_attached dim self facing bs u))

-- DimRulePistonHook, on what `origin` answers and on what is read of the piston, none where that throws.
unfoldable pub piston_hook : Option ℤ → Bool → Option Piston → Rules → Grids → Option (Bool × Grids)
piston_hook region origin piston t s =
    let dim = dim_of region in
    let is_managed = managed dim t in
    if is_managed && not (allowed dim piston_push t)
    then some (false, s)
    else if not origin
    then some (false, s)
    else if not is_managed || allowed dim piston_cross_plot t || not (has_plot_grid dim s)
    then some (true, s)
    else elim piston [
      | none ↦ some (false, s)
      | some p ↦ check_attached dim p.self p.facing p.attached s
    ]
