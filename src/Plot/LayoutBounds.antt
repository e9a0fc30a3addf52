-- ===== src/Plot/LayoutBounds.antt =====
-- src/more_dimensions/include/plot/PlotLayout.h: what `clamp` guarantees.
use levilamina_rust_loader.Base.{ℕ, ◌+◌, ◌^◌, ◌<◌, ◌≡◌, refl, ◌∙◌, String, len, arith, some}
use levilamina_rust_loader.Base.Int.{ℤ, pos, negsuc, ◌+ℤ◌, ◌*ℤ◌, ◌≤ℤ◌, ◌<ℤ◌}
use levilamina_rust_loader.Plot.Layout.{
  PlotLayout, clamp, clamp_border, clamp_floor, wrap_int, from_nbt, to_nbt, at_least, at_most,
  or_default, str_or, min_y,
}

-- What the generator needs of a layout.
pub record IsSafe (l : PlotLayout) : Type 0 where
  pub plot_low : pos 4 ≤ℤ l.plot_size
  pub plot_high : l.plot_size ≤ℤ pos 512
  pub road_low : pos 0 ≤ℤ l.road_width
  pub road_high : l.road_width ≤ℤ pos 64
  pub border_low : pos 0 ≤ℤ l.border_width
  pub border_high : l.border_width +ℤ l.border_width <ℤ l.plot_size
  pub floor_low : min_y <ℤ l.floor_y
  pub floor_high : l.floor_y ≤ℤ pos 318
  pub blocks_named :
      (0 < len l.floor_block)
      × (0 < len l.fill_block)
      × (0 < len l.road_block)
      × (0 < len l.border_block)
      × (0 < len l.biome)

-- A width below 2^30 is not overflown when it is doubled.
wrap_double : (n : ℕ) → n < 2 ^ 30 → wrap_int (pos n *ℤ pos 2) ≡ pos (n + n)
unfolding wrap_int ◌*ℤ◌
wrap_double n h = ground arith

border_fits :
    (p b : ℤ)
    → pos 4 ≤ℤ p
    → b <ℤ pos (2 ^ 30)
    → (pos 0 ≤ℤ clamp_border p b) × (clamp_border p b +ℤ clamp_border p b <ℤ p)
unfolding clamp_border ◌+ℤ◌
border_fits (negsuc p) b h k = absurd (omega arith)
border_fits (pos p) (negsuc b) h k = ground (arith, wrap_double 0)
border_fits (pos p) (pos b) h k = ground (arith, wrap_double b)

pub floor_fits : (y : ℤ) → (min_y <ℤ clamp_floor y) × (clamp_floor y ≤ℤ pos 318)
unfolding clamp_floor
floor_fits y = ground arith

or_default-named : (s d : String) → 0 < len d → 0 < len (or_default s d)
or_default-named s d h = ground arith

-- Where a border's width is below 2^30, a clamped layout is safe to generate with.
pub clamp-IsSafe : (l : PlotLayout) → l.border_width <ℤ pos (2 ^ 30) → IsSafe (clamp l)
unfolding clamp
clamp-IsSafe l h =
    let size = at_most (pos 512) (at_least (pos 4) l.plot_size) in
    let size_low : pos 4 ≤ℤ size = ground arith in
    let b = border_fits size l.border_width size_low h in
    record {
      plot_low = size_low;
      plot_high = ground arith;
      road_low = ground arith;
      road_high = ground arith;
      border_low = b.0;
      border_high = b.1;
      floor_low = (floor_fits l.floor_y).0;
      floor_high = (floor_fits l.floor_y).1;
      blocks_named = (
        or_default-named l.floor_block "minecraft:grass_block" (omega arith),
        or_default-named l.fill_block "minecraft:dirt" (omega arith),
        or_default-named l.road_block "minecraft:birch_planks" (omega arith),
        or_default-named l.border_block "minecraft:stone_block_slab" (omega arith),
        or_default-named l.biome "minecraft:plains" (omega arith),
      );
    }

size_kept : (s : ℤ) → pos 4 ≤ℤ s → s ≤ℤ pos 512 → at_most (pos 512) (at_least (pos 4) s) ≡ s
size_kept s h k = ground arith

road_kept : (w : ℤ) → pos 0 ≤ℤ w → w ≤ℤ pos 64 → at_most (pos 64) (at_least (pos 0) w) ≡ w
road_kept w h k = ground arith

border_kept : (p b : ℤ) → p ≤ℤ pos 512 → pos 0 ≤ℤ b → b +ℤ b <ℤ p → clamp_border p b ≡ b
unfolding clamp_border ◌+ℤ◌
border_kept p (negsuc b) h k l = absurd (omega arith)
border_kept p (pos b) h k l = ground (arith, wrap_double b)

floor_kept : (y : ℤ) → min_y <ℤ y → y ≤ℤ pos 318 → clamp_floor y ≡ y
unfolding clamp_floor
floor_kept y h k = ground arith

name_kept : (s d : String) → 0 < len s → or_default s d ≡ s
name_kept s d h = ground arith

-- A safe layout is one that clamping leaves.
pub clamp_safe : (l : PlotLayout) → IsSafe l → clamp l ≡ l
unfolding clamp
clamp_safe l h =
    let (floor, fill, road, border, biome) = h.blocks_named in
    rw
      (
        size_kept l.plot_size h.plot_low h.plot_high,
        road_kept l.road_width h.road_low h.road_high,
        border_kept l.plot_size l.border_width h.plot_high h.border_low h.border_high,
        floor_kept l.floor_y h.floor_low h.floor_high,
        name_kept l.floor_block "minecraft:grass_block" floor,
        name_kept l.fill_block "minecraft:dirt" fill,
        name_kept l.road_block "minecraft:birch_planks" road,
        name_kept l.border_block "minecraft:stone_block_slab" border,
        name_kept l.biome "minecraft:plains" biome,
      )
      refl

name_stored : (s d : String) → 0 < len d → or_default (str_or (some s) d) d ≡ or_default s d
name_stored s d h = ground arith

stored_lem : (l : PlotLayout) → from_nbt (to_nbt l) ≡ clamp l
unfolding from_nbt to_nbt clamp
stored_lem l =
    rw
      (
        name_stored l.floor_block "minecraft:grass_block" (omega arith),
        name_stored l.fill_block "minecraft:dirt" (omega arith),
        name_stored l.road_block "minecraft:birch_planks" (omega arith),
        name_stored l.border_block "minecraft:stone_block_slab" (omega arith),
        name_stored l.biome "minecraft:plains" (omega arith),
      )
      refl

-- Where a border's width is below 2^30: clamping a layout gives a safe one, a layout that is written to
-- NBT and read back is the clamped one, and a clamped layout is read back as it was.
pub from_nbt-to_nbt :
    (l : PlotLayout)
    → l.border_width <ℤ pos (2 ^ 30)
    → IsSafe (clamp l) × (from_nbt (to_nbt l) ≡ clamp l) × (from_nbt (to_nbt (clamp l)) ≡ clamp l)
from_nbt-to_nbt l h =
    let safe = clamp-IsSafe l h in
    (safe, stored_lem l, stored_lem (clamp l) ∙ clamp_safe (clamp l) safe)
