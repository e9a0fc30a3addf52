-- ===== src/Plot/Layout.antt =====
-- src/more_dimensions/include/plot/PlotLayout.h over DimensionHeight.h.
use levilamina_rust_loader.Base.{
  ℕ, ◌-◌, ◌%◌, ◌^◌, String, len, Bool, true, false, ◌||◌, ◌&&◌, Option, none, some, if◌then◌else◌,
  ltb, ◌==◌, nat_eq, string_eq,
}
use levilamina_rust_loader.Base.Int.{ℤ, pos, negsuc, ◌+ℤ◌, ◌-ℤ◌, ◌*ℤ◌, ltb_ℤ, leb_ℤ}

-- kWorldMinY, kWorldMaxY and kBedrockY.
abbrev pub min_y : ℤ
min_y = negsuc 511

abbrev pub max_y : ℤ
max_y = pos 320

abbrev pub bedrock_y : ℤ
bedrock_y = negsuc 63

abbrev pub total_height : ℕ
total_height = 832

abbrev pub chunk_width : ℕ
chunk_width = 16

pub record PlotLayout : Type 0 where
  pub plot_size : ℤ
  pub road_width : ℤ
  pub border_width : ℤ
  pub floor_y : ℤ
  pub floor_block : String
  pub fill_block : String
  pub road_block : String
  pub border_block : String
  pub biome : String

abbrev pub default_layout : PlotLayout
default_layout = record {
  plot_size = pos 64;
  road_width = pos 7;
  border_width = pos 1;
  floor_y = pos 64;
  floor_block = "minecraft:grass_block";
  fill_block = "minecraft:dirt";
  road_block = "minecraft:birch_planks";
  border_block = "minecraft:stone_block_slab";
  biome = "minecraft:plains";
}

unfoldable pub cell_size : PlotLayout → ℤ
unfolding ◌+ℤ◌
cell_size l = l.plot_size +ℤ l.road_width

-- What a 32-bit int holds of an integer. (C++ leaves the overflow of `borderWidth * 2` undefined;
-- this is what the machine instruction gives.)
unfoldable pub wrap_int : ℤ → ℤ
wrap_int (pos n) = let r = n % 2 ^ 32 in if ltb r (2 ^ 31) then pos r else negsuc (2 ^ 32 - 1 - r)
wrap_int (negsuc n) =
    let r = n % 2 ^ 32 in if ltb r (2 ^ 31) then negsuc r else pos (2 ^ 32 - 1 - r)

abbrev pub at_least : ℤ → ℤ → ℤ
at_least lo v = if ltb_ℤ v lo then lo else v

abbrev pub at_most : ℤ → ℤ → ℤ
at_most hi v = if ltb_ℤ hi v then hi else v

abbrev pub or_default : String → String → String
or_default name fallback = if len name == 0 then fallback else name

unfoldable pub clamp_border : ℤ → ℤ → ℤ
unfolding wrap_int ◌*ℤ◌
clamp_border plot_size border =
    let b = at_least (pos 0) border in if leb_ℤ plot_size (wrap_int (b *ℤ pos 2)) then pos 0 else b

unfoldable pub clamp_floor : ℤ → ℤ
clamp_floor y =
    let f = if leb_ℤ y min_y then negsuc 510 else y in if leb_ℤ (pos 319) f then pos 318 else f

-- `PlotLayout::clamp`
unfoldable pub clamp : PlotLayout → PlotLayout
unfolding clamp_border clamp_floor
clamp l = record {
  plot_size = at_most (pos 512) (at_least (pos 4) l.plot_size);
  road_width = at_most (pos 64) (at_least (pos 0) l.road_width);
  border_width = clamp_border (at_most (pos 512) (at_least (pos 4) l.plot_size)) l.border_width;
  floor_y = clamp_floor l.floor_y;
  floor_block = or_default l.floor_block "minecraft:grass_block";
  fill_block = or_default l.fill_block "minecraft:dirt";
  road_block = or_default l.road_block "minecraft:birch_planks";
  border_block = or_default l.border_block "minecraft:stone_block_slab";
  biome = or_default l.biome "minecraft:plains";
}

-- An NBT compound, as far as `fromNbt` reads it: its numbers and its texts by key. A key that
-- `contains` does not find is none.
pub record Nbt : Type 0 where
  pub num : String → Option ℤ
  pub str : String → Option String

abbrev pub num_or : Option ℤ → ℤ → ℤ
num_or none fallback = fallback
num_or (some v) fallback = v

abbrev pub str_or : Option String → String → String
str_or none fallback = fallback
str_or (some s) fallback = if len s == 0 then fallback else s

-- `PlotLayout::fromNbt`
unfoldable pub from_nbt : Nbt → PlotLayout
unfolding clamp
from_nbt t =
    let d = default_layout in
    let l : PlotLayout = record {
      plot_size = num_or (t.num "plotSize") d.plot_size;
      road_width = num_or (t.num "roadWidth") d.road_width;
      border_width = num_or (t.num "borderWidth") d.border_width;
      floor_y = num_or (t.num "floorY") d.floor_y;
      floor_block = str_or (t.str "floorBlock") d.floor_block;
      fill_block = str_or (t.str "fillBlock") d.fill_block;
      road_block = str_or (t.str "roadBlock") d.road_block;
      border_block = str_or (t.str "borderBlock") d.border_block;
      biome = str_or (t.str "biome") d.biome;
    } in
    clamp l

-- `PlotLayout::fromSnbt`, on what `CompoundTag::fromSnbt` makes of the text.
unfoldable pub from_snbt : Option Nbt → PlotLayout
unfolding from_nbt clamp
from_snbt none = clamp default_layout
from_snbt (some tag) = from_nbt tag

-- `PlotLayout::toNbt`
unfoldable pub to_nbt : PlotLayout → Nbt
to_nbt l = record {
  num = λ k.
      if k == "plotSize"
      then some l.plot_size
      else if k == "roadWidth"
      then some l.road_width
      else if k == "borderWidth"
      then some l.border_width
      else if k == "floorY"
      then some l.floor_y
      else none;
  str = λ k.
      if k == "floorBlock"
      then some l.floor_block
      else if k == "fillBlock"
      then some l.fill_block
      else if k == "roadBlock"
      then some l.road_block
      else if k == "borderBlock"
      then some l.border_block
      else if k == "biome"
      then some l.biome
      else none;
}

-- PlotArea1D
pub data PlotArea : Type 0 where
  plot border road : PlotArea

-- `classify1D`
unfoldable pub classify_1d : ℤ → PlotLayout → PlotArea
unfolding ◌-ℤ◌
classify_1d offset l =
    if leb_ℤ l.plot_size offset
    then road
    else if ltb_ℤ (pos 0) l.border_width
        && (ltb_ℤ offset l.border_width || leb_ℤ (l.plot_size -ℤ l.border_width) offset)
    then border
    else plot

abbrev pub is_road : PlotArea → Bool
is_road road = true
is_road _ = false

abbrev is_plot : PlotArea → Bool
is_plot plot = true
is_plot _ = false

-- `combine2D`
unfoldable pub combine_2d : PlotArea → PlotArea → PlotArea
combine_2d x z =
    if is_road x || is_road z then road else if is_plot x && is_plot z then plot else border
