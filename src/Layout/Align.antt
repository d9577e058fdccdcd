-- ===== src/Layout/Align.antt =====
-- `align_up` in arithmetic, and the block sizes that it gives.
use disagg_shmem_allocator.Base.{ℕ, ◌+◌, ◌-◌, ◌*◌, ◌/◌, ◌%◌, ◌^◌, ◌<◌, ◌≡◌, arith}
use disagg_shmem_allocator.Word.Bits.{bit_and_mask_shifted, bit_and_low}
use disagg_shmem_allocator.Layout.{align_up}

-- Where `n + 8` does not wrap around, `align_up n 8` is the least multiple of 8 from `n` on.
pub align_up_eight : (n : ℕ) → n + 8 < 2 ^ 64 → align_up n 8 ≡ (n + 7) / 8 * 8
unfolding align_up
align_up_eight n small =
    let x = (n + 8) % 2 ^ 64 in
    omega (
      arith,
      bit_and_mask_shifted 3 ((x + (2 ^ 64 - 1)) % 2 ^ 64) (2 ^ 61 - 1),
      bit_and_low 61 ((x + (2 ^ 64 - 1)) % 2 ^ 64 / 2 ^ 3),
    )
