-- ===== src/Plot/Filled.antt =====
-- src/more_dimensions/plot/PlotGenerator.cpp: what the loops write, index by index.
use levilamina_rust_loader.Base.{
  ℕ, zero, suc, ◌+◌, ◌-◌, ◌*◌, ◌%◌, ◌<◌, ◌≤◌, ◌≡◌, ◌&&◌, if◌then◌else◌, ltb, leb, ◌==◌, nat_eq,
  nat_same, inl, inr, arith,
}
use levilamina_rust_loader.Base.Int.{ℤ}
use levilamina_rust_loader.Plot.Layout.{PlotArea, plot, border, road, total_height, chunk_width}
use levilamina_rust_loader.Plot.Generator.{
  Buffer, write, fill_columns, fill_layer, fill_layers, fill_range, buffer_size, columns,
  PlotGenerator, paint_column, column_area, paint_row, paint_rows, buffer_index,
}

fill_columns_lem :
    (n i b y : ℕ) (buf : Buffer) (k : ℕ)
    → y < total_height
    → fill_columns n i b y buf k ≡ (
        if k % total_height == y && leb (i * total_height) k && ltb k ((i + n) * total_height)
        then b
        else buf k)
unfolding fill_columns write
fill_columns_lem zero i b y buf k h = ground arith
fill_columns_lem (suc n) i b y buf k h =
    ground (arith, fill_columns_lem n (i + 1) b y (write (y + i * total_height) b buf) k h)

pub fill_layer_lem :
    (b y : ℕ) (buf : Buffer) (k : ℕ)
    → y < total_height
    → fill_layer b y buf k ≡ (if k % total_height == y && ltb k buffer_size then b else buf k)
unfolding fill_layer
fill_layer_lem b y buf k h = ground (arith, fill_columns_lem columns 0 b y buf k h)

fill_layers_lem :
    (n from b : ℕ) (buf : Buffer) (k : ℕ)
    → from + n ≤ total_height
    → fill_layers n from b buf k ≡ (
        if leb from (k % total_height) && ltb (k % total_height) (from + n) && ltb k buffer_size
        then b
        else buf k)
unfolding fill_layers
fill_layers_lem zero from b buf k h = ground arith
fill_layers_lem (suc n) from b buf k h = ground (
  arith,
  fill_layers_lem n (from + 1) b (fill_layer b from buf) k (omega arith),
  fill_layer_lem b from buf k,
)

pub fill_range_lem :
    (b from to : ℕ) (buf : Buffer) (k : ℕ)
    → to ≤ total_height
    → from ≤ total_height
    → fill_range b from to buf k ≡ (
        if leb from (k % total_height) && ltb (k % total_height) to && ltb k buffer_size
        then b
        else buf k)
unfolding fill_range
fill_range_lem b from to buf k h l = ground (arith, fill_layers_lem (to - from) from b buf k)

-- Two columns share no index, and no two heights of one column do.
index_beq :
    (x y z a b c : ℕ)
    → z < chunk_width
    → c < chunk_width
    → y < total_height
    → b < total_height
    → (buffer_index x y z == buffer_index a b c) ≡ (x == a && z == c && y == b)
unfolding buffer_index
index_beq x y z a b c h k l m = ground arith

pub index_parts :
    (x y z : ℕ)
    → x < chunk_width
    → z < chunk_width
    → y < total_height
    → (buffer_index x y z % total_height ≡ y) × (buffer_index x y z < buffer_size)
unfolding buffer_index
index_parts x y z h k l = (omega arith, omega arith)

-- What painting a column of an area does to the block at a height.
abbrev pub painted : PlotGenerator → PlotArea → ℕ → ℕ → ℕ
painted g plot y old = old
painted g border y old = if y == g.border_index_y then g.border_block else old
painted g road y old = if y == g.floor_index_y then g.road_block else old

module _ (g : PlotGenerator) (floor_in : g.floor_index_y < total_height)
    (border_in : g.border_index_y < total_height) (qx qz y : ℕ) (qz_in : qz < chunk_width)
    (y_in : y < total_height) where
  paint_column_lem :
      (x z : ℕ) (area : PlotArea) (buf : Buffer)
      → z < chunk_width
      → paint_column g x z area buf (buffer_index qx y qz) ≡ (
          if x == qx && z == qz
          then painted g area y (buf (buffer_index qx y qz))
          else buf (buffer_index qx y qz))
  unfolding paint_column write
  paint_column_lem x z plot buf h = ground arith
  paint_column_lem x z border buf h =
      ground (arith, index_beq qx y qz x g.border_index_y z qz_in h y_in border_in)
  paint_column_lem x z road buf h =
      ground (arith, index_beq qx y qz x g.floor_index_y z qz_in h y_in floor_in)

  module _ (sx sz : ℤ) where
    paint_row_lem :
        (n z x : ℕ) (buf : Buffer)
        → z + n ≤ chunk_width
        → paint_row g sx sz x n z buf (buffer_index qx y qz) ≡ (
            if x == qx && leb z qz && ltb qz (z + n)
            then painted g (column_area g sx sz qx qz) y (buf (buffer_index qx y qz))
            else buf (buffer_index qx y qz))
    unfolding paint_row
    paint_row_lem zero z x buf h = ground arith
    paint_row_lem (suc n) z x buf h =
        rw
          (
            paint_row_lem n (z + 1) x (paint_column g x z (column_area g sx sz x z) buf)
                (omega arith),
            paint_column_lem x z (column_area g sx sz x z) buf (omega arith),
          )
          (elim (nat_same x qx) [
            | inl e ↦ elim (nat_same z qz) [
              | inl f ↦ rw (e, f) (ground arith)
              | inr f ↦ ground arith
            ]
            | inr e ↦ ground arith
          ])

    pub paint_rows_lem :
        (n x : ℕ) (buf : Buffer)
        → paint_rows g sx sz n x buf (buffer_index qx y qz) ≡ (
            if leb x qx && ltb qx (x + n)
            then painted g (column_area g sx sz qx qz) y (buf (buffer_index qx y qz))
            else buf (buffer_index qx y qz))
    unfolding paint_rows
    paint_rows_lem zero x buf = ground arith
    paint_rows_lem (suc n) x buf =
        rw
          (
            paint_rows_lem n (x + 1) (paint_row g sx sz x chunk_width 0 buf),
            paint_row_lem chunk_width 0 x buf (omega arith),
          )
          (elim (nat_same x qx) [ inl e ↦ rw e (ground arith) | inr e ↦ ground arith ])
