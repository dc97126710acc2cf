-- ===== src/Wire/Bitmap.antt =====
-- Bitmaps: their size for a number of columns, and the count of set bits.
use database_flashback.Base.{ℕ, zero, suc, ◌+◌, ◌/◌, ◌^◌, ◌≤◌, ◌<◌, ◌≡◌, arith, Bytes}
use database_flashback.Wire.{bitmap_byte_size, pop_loop, pop_count}

-- Below 2 ^ 63 - 7 columns the size is the number of bytes that hold a bit for each column.
bitmap_byte_size_lem : (n : ℕ) → n + 7 < 2 ^ 63 → bitmap_byte_size n ≡ (n + 7) / 8
unfolding bitmap_byte_size
bitmap_byte_size_lem n h = ground arith

pop_loop_bounds :
    (bitmap : Bytes) (left i count : ℕ)
    → (count ≤ pop_loop bitmap left i count) × (pop_loop bitmap left i count ≤ count + left)
unfolding pop_loop
pop_loop_bounds bitmap zero i count = omega arith
pop_loop_bounds bitmap (suc left) i count = ground (
  arith,
  pop_loop_bounds bitmap left (i + 1) count,
  pop_loop_bounds bitmap left (i + 1) (count + 1),
)

pub pop_count-le : (bitmap : Bytes) (n : ℕ) → pop_count bitmap n ≤ n
unfolding pop_count
pop_count-le bitmap n = omega (arith, pop_loop_bounds bitmap n 0 0)
