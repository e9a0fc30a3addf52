-- ===== src/Plot/Generator.antt =====
-- src/more_dimensions/plot/PlotGenerator.cpp: the generator of a plot world. The chunk's height map,
-- biomes and state change are the engine's; what is modelled is the block buffer that it is handed.
use levilamina_rust_loader.Base.{ℕ, zero, suc, ◌+◌, ◌-◌, ◌*◌, String, if◌then◌else◌, ◌==◌, nat_eq}
use levilamina_rust_loader.Base.Int.{ℤ, pos, pos_part, ◌+ℤ◌, ◌-ℤ◌, ◌*ℤ◌}
use levilamina_rust_loader.Plot.Grid.{positive_mod}
use levilamina_rust_loader.Plot.Layout.{
  PlotLayout, clamp, cell_size, min_y, total_height, chunk_width, PlotArea, plot, border, road,
  classify_1d, combine_2d,
}

abbrev pub columns : ℕ
columns = 256

abbrev pub buffer_size : ℕ
buffer_size = 212_992

-- A buffer of block pointers, by index.
abbrev pub Buffer : Type 0
Buffer = ℕ → ℕ

unfoldable pub write : ℕ → ℕ → Buffer → Buffer
write i b buf k = if k == i then b else buf k

-- `bufferIndex`
unfoldable pub buffer_index : ℕ → ℕ → ℕ → ℕ
buffer_index x y_idx z = (x * chunk_width + z) * total_height + y_idx

-- `for (int i = 0; i < kColumns; ++i) buf[yIdx + i * kTotalHeight] = block;`, n rounds from i.
unfoldable pub fill_columns : ℕ → ℕ → ℕ → ℕ → Buffer → Buffer
fill_columns zero i b y buf = buf
fill_columns (suc n) i b y buf = fill_columns n (i + 1) b y (write (y + i * total_height) b buf)

-- `fillLayer`
unfoldable pub fill_layer : ℕ → ℕ → Buffer → Buffer
fill_layer b y buf = fill_columns columns 0 b y buf

unfoldable pub fill_layers : ℕ → ℕ → ℕ → Buffer → Buffer
fill_layers zero from b buf = buf
fill_layers (suc n) from b buf = fill_layers n (from + 1) b (fill_layer b from buf)

-- `fillRange`
unfoldable pub fill_range : ℕ → ℕ → ℕ → Buffer → Buffer
fill_range b from to buf = fill_layers (to - from) from b buf

-- The generator's own address stands for `this`, by which a buffer remembers its owner.
pub record PlotGenerator : Type 0 where
  pub self : ℕ
  pub layout : PlotLayout
  pub air_block : ℕ
  pub bedrock_block : ℕ
  pub floor_block : ℕ
  pub fill_block : ℕ
  pub road_block : ℕ
  pub border_block : ℕ
  pub floor_index_y : ℕ
  pub border_index_y : ℕ

-- The constructor, over the block registry's lookup by name.
unfoldable pub new_generator : (String → ℕ) → ℕ → PlotLayout → PlotGenerator
new_generator lookup_block self layout =
    let l = clamp layout in
    let floor = pos_part (l.floor_y -ℤ min_y) in
    record {
      self = self;
      layout = l;
      air_block = lookup_block "minecraft:air";
      bedrock_block = lookup_block "minecraft:bedrock";
      floor_block = lookup_block l.floor_block;
      fill_block = lookup_block l.fill_block;
      road_block = lookup_block l.road_block;
      border_block = lookup_block l.border_block;
      floor_index_y = floor;
      border_index_y = floor + 1;
    }

-- One thread's buffer; a null owner is 0.
pub record ThreadBuffer : Type 0 where
  pub owner : ℕ
  pub size : ℕ
  pub blocks : Buffer

abbrev pub bedrock_index : ℕ
bedrock_index = 448

-- `refillStatic`: air, bedrock, filling, air.
unfoldable pub refill_static : PlotGenerator → Buffer → Buffer
refill_static g buf = fill_range g.air_block g.floor_index_y total_height (
    fill_range g.fill_block (bedrock_index + 1) g.floor_index_y
      (fill_layer g.bedrock_block bedrock_index (fill_range g.air_block 0 bedrock_index buf)))

-- `blocks.assign(kBufferSize, nullptr)` where the size is another, and the owner is forgotten.
unfoldable pub resize : ThreadBuffer → ThreadBuffer
resize b =
    if b.size == buffer_size then b else record { owner = 0; size = buffer_size; blocks = λ k. 0 }

-- `acquireBuffer`
unfoldable pub acquire_buffer : PlotGenerator → ThreadBuffer → ThreadBuffer
acquire_buffer g b =
    let r = resize b in
    if r.owner == g.self then r else record r { owner = g.self; blocks = refill_static g r.blocks }

-- The body of the two loops of `loadChunk`, at one column.
unfoldable pub paint_column : PlotGenerator → ℕ → ℕ → PlotArea → Buffer → Buffer
paint_column g x z road buf = write (buffer_index x g.floor_index_y z) g.road_block buf
paint_column g x z border buf = write (buffer_index x g.border_index_y z) g.border_block buf
paint_column g x z plot buf = buf

-- The area of one world coordinate, and of a column at an offset from the chunk's corner.
unfoldable pub axis_area : PlotGenerator → ℤ → PlotArea
axis_area g w = classify_1d (positive_mod w (pos_part (cell_size g.layout))) g.layout

unfoldable pub column_area : PlotGenerator → ℤ → ℤ → ℕ → ℕ → PlotArea
column_area g start_x start_z x z =
    combine_2d (axis_area g (start_x +ℤ pos x)) (axis_area g (start_z +ℤ pos z))

-- `for (int z = 0; z < kChunkWidth; ++z)`, n rounds from z.
unfoldable pub paint_row : PlotGenerator → ℤ → ℤ → ℕ → ℕ → ℕ → Buffer → Buffer
paint_row g start_x start_z x zero z buf = buf
paint_row g start_x start_z x (suc n) z buf =
    paint_row g start_x start_z x n (z + 1)
      (paint_column g x z (column_area g start_x start_z x z) buf)

-- `for (int x = 0; x < kChunkWidth; ++x)`, n rounds from x.
unfoldable pub paint_rows : PlotGenerator → ℤ → ℤ → ℕ → ℕ → Buffer → Buffer
paint_rows g start_x start_z zero x buf = buf
paint_rows g start_x start_z (suc n) x buf =
    paint_rows g start_x start_z n (x + 1) (paint_row g start_x start_z x chunk_width 0 buf)

-- `loadChunk` at the chunk's position: the two layers that change are reset, then the columns are
-- painted. The chunk gets what the buffer then holds.
unfoldable pub load_chunk : PlotGenerator → ℤ → ℤ → ThreadBuffer → ThreadBuffer
load_chunk g chunk_x chunk_z b =
    let a = acquire_buffer g b in
    let reset =
      fill_layer g.air_block g.border_index_y (fill_layer g.floor_block g.floor_index_y a.blocks) in
    record a {
      blocks =
          paint_rows g (chunk_x *ℤ pos chunk_width) (chunk_z *ℤ pos chunk_width) chunk_width 0
            reset;
    }
