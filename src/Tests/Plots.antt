-- ===== src/Tests/Plots.antt =====
-- src/more_dimensions/plot on the layout that a world has by default.
use levilamina_rust_loader.Base.{ℕ, ◌≡◌, refl, String, arith}
use levilamina_rust_loader.Base.Int.{pos, negsuc, ◌*ℤ◌}
use levilamina_rust_loader.Plot.Layout.{clamp, default_layout, from_nbt, to_nbt, chunk_width}
use levilamina_rust_loader.Plot.LayoutBounds.{IsSafe, from_nbt-to_nbt}
use levilamina_rust_loader.Plot.Generator.{
  PlotGenerator, ThreadBuffer, new_generator, load_chunk, column_area, buffer_index,
}
use levilamina_rust_loader.Plot.Column.{
  IsBuilt, Kept, block_of, load_chunk-block_of, new_generator-IsBuilt,
}

abbrev blocks : String → ℕ
blocks name = 0

abbrev flat : PlotGenerator
flat = new_generator blocks 1 default_layout

flat-IsBuilt : IsBuilt flat
flat-IsBuilt = new_generator-IsBuilt blocks 1 default_layout (omega arith)

-- A thread's buffer before its first chunk.
abbrev untouched : ThreadBuffer
untouched = record { owner = 0; size = 0; blocks = λ k. 0 }

flat_self : flat.self ≡ 1
unfolding new_generator
flat_self = refl

untouched-Kept : Kept flat untouched
untouched-Kept = λ o. absurd (omega (arith, o, flat_self))

from_nbt-to_nbt_example :
    IsSafe (clamp default_layout)
    × (from_nbt (to_nbt default_layout) ≡ clamp default_layout)
    × (from_nbt (to_nbt (clamp default_layout)) ≡ clamp default_layout)
from_nbt-to_nbt_example = from_nbt-to_nbt default_layout (omega arith)

load_chunk-block_of_example :
    (load_chunk flat (pos 4) (negsuc 0) untouched).blocks (buffer_index 3 576 5)
    ≡ block_of flat
        (column_area flat (pos 4 *ℤ pos chunk_width) (negsuc 0 *ℤ pos chunk_width) 3 5)
        576
load_chunk-block_of_example =
    load_chunk-block_of flat (pos 4) (negsuc 0) untouched 3 576 5 flat-IsBuilt untouched-Kept
      (omega arith) (omega arith) (omega arith)
