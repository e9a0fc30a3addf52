-- ===== src/Tests/Limits.antt =====
-- src/more_dimensions/dim/DimensionRules.cpp on a dimension that forbids spawning and explosions.
use levilamina_rust_loader.Base.{
  ◌≡◌, refl, true, false, not, ◌&&◌, none, some, arith, if◌then◌else◌, ◌==◌, nat_eq,
}
use levilamina_rust_loader.Base.Int.{pos, leb_ℤ, ltb_ℤ, int_eq, pack}
use levilamina_rust_loader.Base.Assoc.{find, put}
use levilamina_rust_loader.Rules.Table.{
  Rules, explode_blocks, mob_griefing, fire_spread, no_rules, set_dimension_rule,
  get_dimension_rule, clear_dimension_rules, dim_rule_count, any_rule_for, allowed, key,
  rule_number,
}
use levilamina_rust_loader.Rules.Counted.{Counted, get_after}
use levilamina_rust_loader.Rules.Hooks.{
  calls_origin, explode_hook, spawn_mob_hook, Mob, actor, is_mob_source,
}
use levilamina_rust_loader.Rules.Denied.{Reach, start, set, Reach-Counted, denied, explode-denied}

abbrev no_monsters : Rules
no_monsters = set_dimension_rule (pos 3) (pos 0) false no_rules

abbrev peaceful : Rules
peaceful = set_dimension_rule (pos 3) (pos 3) false no_monsters

peaceful_reached : Reach peaceful
peaceful_reached =
    set no_monsters (pos 3) (pos 3) false
      (set no_rules (pos 3) (pos 0) false start (omega arith, omega arith)
        (omega arith, omega arith))
      (omega arith, omega arith) (omega arith, omega arith)

Reach-Counted_example : Counted peaceful
Reach-Counted_example = Reach-Counted peaceful_reached

explode-denied_example :
    (calls_origin fire_spread (some (pos 3)) peaceful
      ≡ not (denied (some (pos 3)) fire_spread peaceful))
    × (explode_hook (some (pos 3)) (actor true false) true peaceful ≡ (
        true
        && not (denied (some (pos 3)) explode_blocks peaceful)
        && not (is_mob_source (actor true false) && denied (some (pos 3)) mob_griefing peaceful)))
explode-denied_example =
    explode-denied (some (pos 3)) peaceful (Reach-Counted peaceful_reached)
      (omega arith, omega arith) fire_spread (actor true false) true

abbrev zombie : Mob
zombie = record { address = 1; hostile = true }

zombie_removed :
    spawn_mob_hook (some (pos 3)) true false (some zombie) peaceful
    ≡ record { called = true; despawned = some zombie; mob = none }
unfolding spawn_mob_hook any_rule_for allowed get_dimension_rule set_dimension_rule no_rules find
    put key pack rule_number
zombie_removed = refl

get_after_example :
    (get_dimension_rule (pos 3) (pos 12) (set_dimension_rule (pos 3) (pos 0) false peaceful) ≡ (
      if (pos 3 == pos 3) && (pos 0 == pos 12)
      then some false
      else get_dimension_rule (pos 3) (pos 12) peaceful))
    × (get_dimension_rule (pos 3) (pos 12) (clear_dimension_rules (pos 3) peaceful) ≡ (
        if (pos 3 == pos 3) && leb_ℤ (pos 0) (pos 12) && ltb_ℤ (pos 12) (pos dim_rule_count)
        then none
        else get_dimension_rule (pos 3) (pos 12) peaceful))
get_after_example =
    get_after (pos 3) (pos 3) (pos 0) (pos 12) false peaceful (omega arith, omega arith)
      (omega arith, omega arith) (omega arith, omega arith) (omega arith, omega arith)
