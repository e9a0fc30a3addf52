-- ===== src/Rules/Crossing.antt =====
-- The hooks that ask the plot grid: src/more_dimensions/dim/DimensionRules.cpp's piston and
-- src/more_dimensions/plot/PlotConfine.cpp's moving actor.
use levilamina_rust_loader.Base.{
  ◌≡◌, refl, ap, Bool, true, false, not, ◌&&◌, ◌||◌, Option, none, some, List, [], ◌∷◌, arith,
  Bool-cases, inl, inr,
}
use levilamina_rust_loader.Base.Int.{ℤ, pos, ◌+ℤ◌, int_eq}
use levilamina_rust_loader.Rules.Table.{
  Rules, allowed, piston_push, piston_cross_plot, dim_of, get_dimension_rule, rule_number,
  entity_cross_plot,
}
use levilamina_rust_loader.Rules.Hooks.{
  Column, Piston, if_same, check_attached, piston_hook, managed,
}
use levilamina_rust_loader.Plot.Confine.Grids.{Grids, has_plot_grid, same_area}
use levilamina_rust_loader.Plot.Confine.Fuel.{same_area_total}
use levilamina_rust_loader.Plot.Confine.MoveHook.{
  MovingActor, vertical, move_hook, moved_if, forbids,
}

abbrev Decides : Option (Bool × Grids) → Type 0
Decides o = (r : Bool × Grids) × (o ≡ some r)

if_same_total :
    (o : Option (Bool × Grids)) (next : Grids → Option (Bool × Grids))
    → Decides o
    → ((t : Grids) → Decides (next t))
    → Decides (if_same o next)
if_same_total none next (r, e) k = absurd (cc e)
if_same_total (some (false, t)) next h k = ((false, t), refl)
if_same_total (some (true, t)) next h k = k t

-- The pistons that may move: every attached block stands and lands in the piston's own area, asked one
-- after the other.
pub data Passed (dim : ℤ) (self facing : Column) : List Column → Grids → Grids → Type 0 where
  none_left : {s t : Grids} → s ≡ t → Passed dim self facing [] s t
  next_block :
      {b : Column} {bs : List Column} {s t u v : Grids}
      → same_area dim self.x self.z b.x b.z s ≡ some (true, t)
      → same_area dim self.x self.z (b.x +ℤ facing.x) (b.z +ℤ facing.z) t ≡ some (true, u)
      → Passed dim self facing bs u v
      → Passed dim self facing (b ∷ bs) s v

if_same_passed :
    (o : Option (Bool × Grids)) (next : Grids → Option (Bool × Grids)) (v : Grids)
    → if_same o next ≡ some (true, v)
    → (t : Grids) × (o ≡ some (true, t)) × (next t ≡ some (true, v))
if_same_passed none next v e = absurd (cc e)
if_same_passed (some (false, t)) next v e = absurd (cc e)
if_same_passed (some (true, t)) next v e = (t, refl, e)

abbrev grids_or : Grids → Option (Bool × Grids) → Grids
grids_or s none = s
grids_or s (some (_, t)) = t

module _ (dim : ℤ) (self facing : Column) where
  check_attached_total :
      (bs : List Column) (s : Grids) → Decides (check_attached dim self facing bs s)
  unfolding check_attached
  check_attached_total [] s = ((true, s), refl)
  check_attached_total (b ∷ bs) s =
      if_same_total (same_area dim self.x self.z b.x b.z s)
        (λ t.
          if_same (same_area dim self.x self.z (b.x +ℤ facing.x) (b.z +ℤ facing.z) t)
            (λ u. check_attached dim self facing bs u))
        (same_area_total dim self.x self.z b.x b.z s)
        (λ t.
          if_same_total (same_area dim self.x self.z (b.x +ℤ facing.x) (b.z +ℤ facing.z) t)
            (λ u. check_attached dim self facing bs u)
            (same_area_total dim self.x self.z (b.x +ℤ facing.x) (b.z +ℤ facing.z) t)
            (λ u. check_attached_total bs u))

  check_attached-Passed :
      (bs : List Column) (s v : Grids)
      → check_attached dim self facing bs s ≡ some (true, v)
      → Passed dim self facing bs s v
  unfolding check_attached
  check_attached-Passed [] s v e = none_left (ap (grids_or s) e)
  check_attached-Passed (b ∷ bs) s v e =
      let (t, e1, rest) =
        if_same_passed (same_area dim self.x self.z b.x b.z s)
          (λ t.
            if_same (same_area dim self.x self.z (b.x +ℤ facing.x) (b.z +ℤ facing.z) t)
              (λ u. check_attached dim self facing bs u))
          v e in
      let (u, e2, rest2) =
        if_same_passed (same_area dim self.x self.z (b.x +ℤ facing.x) (b.z +ℤ facing.z) t)
          (λ u. check_attached dim self facing bs u) v rest in
      next_block e1 e2 (check_attached-Passed bs u v rest2)

-- The piston's hook always decides.
pub piston_hook_total :
    (region : Option ℤ) (origin : Bool) (piston : Option Piston) (t : Rules) (s : Grids)
    → (r : Bool × Grids) × (piston_hook region origin piston t s ≡ some r)
unfolding piston_hook
piston_hook_total region origin piston t s =
    elim (Bool-cases (managed (dim_of region) t && not (allowed (dim_of region) piston_push t))) [
      | inl a ↦ ((false, s), rw a refl)
      | inr a ↦ elim (Bool-cases (not origin)) [
        | inl b ↦ ((false, s), rw (a, b) refl)
        | inr b ↦
            elim (Bool-cases (
              not (managed (dim_of region) t)
              || allowed (dim_of region) piston_cross_plot t
              || not (has_plot_grid (dim_of region) s))) [
                | inl c ↦ ((true, s), rw (a, b, c) refl)
                | inr c ↦ rw (a, b, c) (read piston)
              ]
      ]
    ]
  where
    read :
        (p : Option Piston)
        → Decides (elim p [
          | none ↦ some (false, s)
          | some q ↦ check_attached (dim_of region) q.self q.facing q.attached s
        ])
    read none = ((false, s), refl)
    read (some q) = check_attached_total (dim_of region) q.self q.facing q.attached s

-- Where a dimension with a plot grid forbids pistons to push across plots, a piston moves only if the
-- engine lets it, pushing is not forbidden, its blocks can be read, and each of them stands and lands
-- in the piston's own area.
pub piston_hook-Passed :
    (region : Option ℤ) (origin : Bool) (piston : Option Piston) (t : Rules) (s v : Grids)
    → managed (dim_of region) t ≡ true
    → allowed (dim_of region) piston_cross_plot t ≡ false
    → has_plot_grid (dim_of region) s ≡ true
    → piston_hook region origin piston t s ≡ some (true, v)
    → (origin ≡ true)
      × (allowed (dim_of region) piston_push t ≡ true)
      × (p : Piston) × (piston ≡ some p)
      × Passed (dim_of region) p.self p.facing p.attached s v
unfolding piston_hook
piston_hook-Passed region origin none t s v m c g e = absurd (ground (arith, m, c, g, e))
piston_hook-Passed region origin (some p) t s v m c g e =
    elim (Bool-cases (allowed (dim_of region) piston_push t)) [
      | inl a ↦ elim (Bool-cases origin) [
        | inl b ↦ (
          b,
          a,
          p,
          refl,
          check_attached-Passed (dim_of region) p.self p.facing p.attached s v
              (ground (arith, a, b, m, c, g, e)),
        )
        | inr b ↦ absurd (ground (arith, a, b, m, c, g, e))
      ]
      | inr a ↦ absurd (ground (arith, a, m, c, g, e))
    ]

moved_if-cases :
    (o : Option (Bool × Grids)) (v : Grids) → moved_if o ≡ some (vertical, v) → o ≡ some (false, v)
moved_if-cases none v e = absurd (cc e)
moved_if-cases (some (true, s)) v e = absurd (cc e)
moved_if-cases (some (false, s)) v e = cc e

-- An actor is held at an edge only where all of this holds: it can be read, it is no player, it carries
-- nobody and has not been removed, its dimension has a plot grid and forbids actors to cross plots, and
-- the two columns are not of one area.
pub move_hook_held :
    (horizontal : Bool) (actor : Option MovingActor) (t : Rules) (s v : Grids)
    → move_hook horizontal actor t s ≡ some (vertical, v)
    → (a : MovingActor) × (actor ≡ some a)
      × (horizontal ≡ true)
      × (a.is_player ≡ false)
      × (a.has_passenger ≡ false)
      × (a.is_removed ≡ false)
      × (get_dimension_rule a.dim (pos (rule_number entity_cross_plot)) t ≡ some false)
      × (has_plot_grid a.dim s ≡ true)
      × (same_area a.dim a.from_x a.from_z a.to_x a.to_z s ≡ some (false, v))
unfolding move_hook
move_hook_held horizontal none t s v e = absurd (ground (arith, e))
move_hook_held horizontal (some a) t s v e = (
  a,
  refl,
  ground (arith, e),
  ground (arith, e),
  ground (arith, e),
  ground (arith, e),
  rule_set (get_dimension_rule a.dim (pos (rule_number entity_cross_plot)) t) (ground (arith, e)),
  ground (arith, e),
  moved_if-cases (same_area a.dim a.from_x a.from_z a.to_x a.to_z s) v (ground (arith, e)),
)
  where
    rule_set : (o : Option Bool) → forbids o ≡ true → o ≡ some false
    rule_set none h = absurd (cc h)
    rule_set (some true) h = absurd (cc h)
    rule_set (some false) h = refl
