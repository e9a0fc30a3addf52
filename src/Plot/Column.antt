-- ===== src/Plot/Column.antt =====
-- src/more_dimensions/plot/PlotGenerator.cpp: what a loaded chunk holds, whatever the thread's buffer
-- held before.
use levilamina_rust_loader.Base.{
  ℕ, ◌+◌, ◌/◌, ◌%◌, ◌<◌, ◌≡◌, ◌≢◌, refl, sym, ap, ◌∙◌, if◌then◌else◌, ltb, leb, ◌==◌, nat_eq, arith,
  nat_same, lt→ltb, beq_of, ◌⊎◌, inl, inr, String,
}
use levilamina_rust_loader.Base.Int.{ℤ, pos, ◌*ℤ◌, ◌-ℤ◌}
use levilamina_rust_loader.Plot.Layout.{
  PlotLayout, PlotArea, plot, border, road, total_height, chunk_width, clamp,
}
use levilamina_rust_loader.Plot.Generator.{
  Buffer, fill_layer, fill_range, buffer_size, bedrock_index, PlotGenerator, ThreadBuffer,
  column_area, buffer_index, refill_static, resize, acquire_buffer, load_chunk, new_generator,
}
use levilamina_rust_loader.Plot.LayoutBounds.{floor_fits}
use levilamina_rust_loader.Plot.Filled.{
  fill_layer_lem, fill_range_lem, index_parts, painted, paint_rows_lem,
}

-- The block at a height below, at or above the floor, before a chunk is painted.
abbrev pub static_block : PlotGenerator → ℕ → ℕ
static_block g y =
    if leb g.floor_index_y y
    then g.air_block
    else if y == bedrock_index
    then g.bedrock_block
    else if ltb bedrock_index y
    then g.fill_block
    else g.air_block

abbrev floor_of : PlotGenerator → PlotArea → ℕ
floor_of g road = g.road_block
floor_of g border = g.floor_block
floor_of g plot = g.floor_block

abbrev above_of : PlotGenerator → PlotArea → ℕ
above_of g border = g.border_block
above_of g road = g.air_block
above_of g plot = g.air_block

-- The block at a height of a column of an area.
abbrev pub block_of : PlotGenerator → PlotArea → ℕ → ℕ
block_of g area y =
    if y == g.floor_index_y
    then floor_of g area
    else if y == g.border_index_y
    then above_of g area
    else static_block g y

-- A generator has an address, the border stands on the floor, and both are inside the world.
pub record IsBuilt (g : PlotGenerator) : Type 0 where
  pub addressed : 0 < g.self
  pub on_floor : g.border_index_y ≡ g.floor_index_y + 1
  pub below_top : g.border_index_y < total_height

-- A buffer that names the generator as its owner holds its static layers.
abbrev pub Kept : PlotGenerator → ThreadBuffer → Type 0
Kept g b =
    b.owner ≡ g.self
    → b.size ≡ buffer_size
    → (k : ℕ) → k < buffer_size
    → k % total_height ≢ g.floor_index_y
    → k % total_height ≢ g.border_index_y
    → b.blocks k ≡ static_block g (k % total_height)

refill_static_lem :
    (g : PlotGenerator) (buf : Buffer) (k : ℕ)
    → g.floor_index_y < total_height
    → k < buffer_size
    → refill_static g buf k ≡ static_block g (k % total_height)
unfolding refill_static
refill_static_lem g buf k h l =
    let under = fill_range g.air_block 0 bedrock_index buf in
    let laid = fill_layer g.bedrock_block bedrock_index under in
    let filled = fill_range g.fill_block (bedrock_index + 1) g.floor_index_y laid in
    rw
      (
        fill_range_lem g.air_block g.floor_index_y total_height filled k (omega arith)
            (omega arith),
        fill_range_lem g.fill_block (bedrock_index + 1) g.floor_index_y laid k (omega arith)
            (omega arith),
        fill_layer_lem g.bedrock_block bedrock_index under k (omega arith),
        fill_range_lem g.air_block 0 bedrock_index buf k (omega arith) (omega arith),
      )
      (ground arith)

resize-cases : (b : ThreadBuffer) → (resize b ≡ b) × (b.size ≡ buffer_size) ⊎ ((resize b).owner ≡ 0)
unfolding resize
resize-cases b = elim (nat_same b.size buffer_size) [
  | inl e ↦ inl (rw (beq_of e) refl, e)
  | inr e ↦ inr (rw e refl)
]

acquire_buffer_lem :
    (g : PlotGenerator) (b : ThreadBuffer) (k : ℕ)
    → IsBuilt g
    → Kept g b
    → k < buffer_size
    → k % total_height ≢ g.floor_index_y
    → k % total_height ≢ g.border_index_y
    → (acquire_buffer g b).blocks k ≡ static_block g (k % total_height)
unfolding acquire_buffer
acquire_buffer_lem g b k w h l f t = elim (nat_same (resize b).owner g.self) [
  | inl e ↦ elim (resize-cases b) [
    | inl (r, z) ↦ rw (beq_of e, r) (h (sym (ap (λ (t : ThreadBuffer). t.owner) r) ∙ e) z k l f t)
    | inr z ↦ absurd (omega (arith, e, z, w.addressed))
  ]
  | inr e ↦
      rw e (refill_static_lem g (resize b).blocks k (omega (arith, w.on_floor, w.below_top)) l)
]

acquire_buffer_owner :
    (g : PlotGenerator) (b : ThreadBuffer)
    → ((acquire_buffer g b).owner ≡ g.self) × ((acquire_buffer g b).size ≡ buffer_size)
unfolding acquire_buffer resize
acquire_buffer_owner g b = ground arith

-- The two layers that are reset and painted, over a block that is right at every other height.
repaint_lem :
    (g : PlotGenerator) (area : PlotArea) (y old : ℕ)
    → IsBuilt g
    → (y ≢ g.floor_index_y → y ≢ g.border_index_y → old ≡ static_block g y)
    → painted g area y (
        if y == g.border_index_y
        then g.air_block
        else if y == g.floor_index_y
        then g.floor_block
        else old)
      ≡ block_of g area y
repaint_lem g plot y old w h = ground (arith, w.on_floor)
repaint_lem g border y old w h = ground (arith, w.on_floor)
repaint_lem g road y old w h = ground (arith, w.on_floor)

-- For a generator that is built, and a buffer that keeps to the static layers of its owner: a
-- loaded chunk has at every height of every column the block of the column's area, whatever else
-- the buffer held.
pub load_chunk-block_of :
    (g : PlotGenerator) (cx cz : ℤ) (b : ThreadBuffer) (x y z : ℕ)
    → IsBuilt g
    → Kept g b
    → x < chunk_width
    → y < total_height
    → z < chunk_width
    → (load_chunk g cx cz b).blocks (buffer_index x y z)
      ≡ block_of g (column_area g (cx *ℤ pos chunk_width) (cz *ℤ pos chunk_width) x z) y
unfolding load_chunk
load_chunk-block_of g cx cz b x y z w h k l m =
    let i = index_parts x y z k m l in
    let a = acquire_buffer g b in
    let laid = fill_layer g.floor_block g.floor_index_y a.blocks in
    rw
      (
        paint_rows_lem g (omega (arith, w.on_floor, w.below_top)) w.below_top x z y m l
            (cx *ℤ pos chunk_width) (cz *ℤ pos chunk_width) chunk_width 0
            (fill_layer g.air_block g.border_index_y laid),
        fill_layer_lem g.air_block g.border_index_y laid (buffer_index x y z) w.below_top,
        fill_layer_lem g.floor_block g.floor_index_y a.blocks (buffer_index x y z)
            (omega (arith, w.on_floor, w.below_top)),
        i.0,
        lt→ltb (buffer_index x y z) buffer_size i.1,
        lt→ltb x chunk_width k,
      )
      (ground (
        arith,
        repaint_lem g (column_area g (cx *ℤ pos chunk_width) (cz *ℤ pos chunk_width) x z) y
            (a.blocks (buffer_index x y z)) w
            (λ f t.
              acquire_buffer_lem g b (buffer_index x y z) w h i.1 (λ e. f (sym i.0 ∙ e))
                (λ e. t (sym i.0 ∙ e))
              ∙ ap (static_block g) i.0),
      ))

index_of_parts :
    (k : ℕ)
    → buffer_index
        (k / total_height / chunk_width)
        (k % total_height)
        (k / total_height % chunk_width)
      ≡ k
unfolding buffer_index
index_of_parts k = omega arith

load_chunk_owner :
    (g : PlotGenerator) (cx cz : ℤ) (b : ThreadBuffer)
    → ((load_chunk g cx cz b).owner ≡ g.self) × ((load_chunk g cx cz b).size ≡ buffer_size)
unfolding load_chunk
load_chunk_owner g cx cz b = acquire_buffer_owner g b

-- A block of an area at a height that is neither the floor's nor the border's is a static one.
block_of-static :
    (g : PlotGenerator) (area : PlotArea) (y : ℕ)
    → y ≢ g.floor_index_y
    → y ≢ g.border_index_y
    → block_of g area y ≡ static_block g y
block_of-static g area y f t = ground arith

-- For a generator that is built: a buffer keeps to its owner's static layers over the loading of a
-- chunk, which makes the generator its owner.
pub load_chunk-Kept :
    (g : PlotGenerator) (cx cz : ℤ) (b : ThreadBuffer)
    → IsBuilt g
    → Kept g b
    → ((load_chunk g cx cz b).owner ≡ g.self)
      × ((load_chunk g cx cz b).size ≡ buffer_size)
      × Kept g (load_chunk g cx cz b)
load_chunk-Kept g cx cz b w h =
    let o = load_chunk_owner g cx cz b in
    (
      o.0,
      o.1,
      λ _ _ k l f t.
          let x = k / total_height / chunk_width in
          let z = k / total_height % chunk_width in
          ap (load_chunk g cx cz b).blocks (sym (index_of_parts k))
          ∙ load_chunk-block_of g cx cz b x (k % total_height) z w h (omega arith) (omega arith)
              (omega arith)
          ∙ block_of-static g (column_area g (cx *ℤ pos chunk_width) (cz *ℤ pos chunk_width) x z)
              (k % total_height) f t,
    )

-- At an address that is not null, the constructor builds a generator from any layout with its
-- floor and its border inside the world.
pub new_generator-IsBuilt :
    (lookup : String → ℕ) (self : ℕ) (l : PlotLayout)
    → 0 < self
    → IsBuilt (new_generator lookup self l)
unfolding new_generator clamp ◌-ℤ◌
new_generator-IsBuilt lookup self l h = record {
  addressed = h;
  on_floor = refl;
  below_top = grind (arith, (floor_fits l.floor_y).0, (floor_fits l.floor_y).1);
}
