-- ===== src/Rules/Denied.antt =====
-- src/more_dimensions/dim/DimensionRules.cpp: what the hooks decide, told without the counts that let
-- them return early.
use levilamina_rust_loader.Base.{
  ◌≡◌, ap, Bool, true, false, not, ◌&&◌, Option, none, some, if◌then◌else◌, arith, Option-cases,
  inl, inr,
}
use levilamina_rust_loader.Base.Int.{ℤ, pos, leb_ℤ, IsInt32}
use levilamina_rust_loader.Base.Assoc.{find}
use levilamina_rust_loader.Rules.Table.{
  Rules, DimRule, rule_number, no_rules, set_dimension_rule, get_dimension_rule,
  clear_dimension_rules, allowed, dim_of, spawn_monster, spawn_animal, spawn_spawner,
  explode_blocks, mob_griefing,
}
use levilamina_rust_loader.Rules.Counted.{Counted, set-Counted, clear-Counted}
use levilamina_rust_loader.Rules.Hooks.{
  managed, calls_origin, Mob, spawn_mob_hook, Source, is_mob_source, explode_hook,
}

-- The tables that the functions of DimensionRules.h can make.
pub data Reach : Rules → Type 0 where
  start : Reach no_rules
  set :
      (t : Rules) (d r : ℤ) (allow : Bool)
      → Reach t
      → IsInt32 d
      → IsInt32 r
      → Reach (set_dimension_rule d r allow t)
  clear : (t : Rules) (d : ℤ) → Reach t → IsInt32 d → Reach (clear_dimension_rules d t)

-- In every table that can be reached, a dimension that has one of the thirteen rules is counted, so
-- that no hook passes it by.
pub Reach-Counted : {t : Rules} → Reach t → Counted t
unfolding no_rules get_dimension_rule find
Reach-Counted start = λ d r allow h e. absurd (cc e)
Reach-Counted (set t d r allow h hd hr) = set-Counted d hd r allow t hr (Reach-Counted h)
Reach-Counted (clear t d h hd) = clear-Counted d hd t (Reach-Counted h)

-- A rule is denied in a dimension that can be read and has the rule set to false.
abbrev is_false : Option Bool → Bool
is_false none = false
is_false (some allow) = not allow

abbrev pub denied : Option ℤ → DimRule → Rules → Bool
denied region rule t =
    leb_ℤ (pos 0) (dim_of region)
    && is_false (get_dimension_rule (dim_of region) (pos (rule_number rule)) t)

-- Whether a mob's kind is denied: a monster or an animal.
abbrev pub takes_away : Option ℤ → Rules → Option Mob → Bool
takes_away region t none = false
takes_away region t (some mob) =
    if mob.hostile then denied region spawn_monster t else denied region spawn_animal t

abbrev pub InRange : Option ℤ → Type 0
InRange region = IsInt32 (dim_of region)

module _ (region : Option ℤ) (t : Rules) (counted : Counted t) (in_range : InRange region) where
  -- The two tests of a hook are one question.
  managed-denied :
      (rule : DimRule)
      → (managed (dim_of region) t && not (allowed (dim_of region) rule t)) ≡ denied region rule t
  unfolding allowed
  managed-denied rule =
      elim (Option-cases (get_dimension_rule (dim_of region) (pos (rule_number rule)) t)) [
        | inl o ↦ rw o (ground arith)
        | inr (b, o) ↦ rw o (ground (arith, counted (dim_of region) rule b in_range o))
      ]

  -- In a table that counts its rules, for a dimension of 32 bits: the hooks that call `origin` or
  -- leave it do so exactly where their rule is not denied, and an explosion breaks blocks where it
  -- would have, no rule against breaking them is set, and, if a mob set it off, none against mob
  -- griefing either.
  pub explode-denied :
      (rule : DimRule) (source : Source) (breaks_blocks : Bool)
      → (calls_origin rule region t ≡ not (denied region rule t))
        × (explode_hook region source breaks_blocks t ≡ (
            breaks_blocks
            && not (denied region explode_blocks t)
            && not (is_mob_source source && denied region mob_griefing t)))
  unfolding calls_origin explode_hook
  explode-denied rule source breaks_blocks = (
    ap not (managed-denied rule),
    ground (arith, managed-denied explode_blocks, managed-denied mob_griefing),
  )

  -- In a table that counts its rules, for a dimension of 32 bits: a spawner's mob is refused
  -- before it is made where that is denied; a natural one is made and taken away again where its
  -- kind is denied; any other is the engine's own.
  pub spawn_mob-denied :
      (natural_spawn from_spawner : Bool) (origin : Option Mob)
      → spawn_mob_hook region natural_spawn from_spawner origin t ≡ (
          if from_spawner && denied region spawn_spawner t
          then record { called = false; despawned = none; mob = none }
          else if natural_spawn && takes_away region t origin
          then record { called = true; despawned = origin; mob = none }
          else record { called = true; despawned = none; mob = origin })
  unfolding spawn_mob_hook
  spawn_mob-denied natural_spawn from_spawner none = ground (arith, managed-denied spawn_spawner)
  spawn_mob-denied natural_spawn from_spawner (some mob) = ground (
    arith,
    managed-denied spawn_spawner,
    managed-denied spawn_monster,
    managed-denied spawn_animal,
  )
