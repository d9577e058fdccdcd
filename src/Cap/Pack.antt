-- ===== src/Cap/Pack.antt =====
-- The fields of the packed meta word.
use disagg_shmem_allocator.Base.{
  ℕ, ◌+◌, ◌-◌, ◌*◌, ◌/◌, ◌%◌, ◌^◌, ◌<◌, ◌≡◌, ap, ◌∙◌, arith, bit_and, bit_or,
}
use disagg_shmem_allocator.Word.{shl64, not64}
use disagg_shmem_allocator.Word.Bits.{
  bit_or_shifted, bit_or_comm, bit_and_mask_shifted, bit_and_low,
}
use disagg_shmem_allocator.Cap.{cap_meta_pack, meta_perms, meta_epoch, meta_bounds, perms_mask}

-- The fields do not overlap, so `|` adds them up.
pub pack_sum :
    (perms owner_lo epoch bounds : ℕ)
    → perms < 2 ^ 8
    → owner_lo < 2 ^ 8
    → epoch < 2 ^ 16
    → bounds < 2 ^ 32
    → cap_meta_pack perms owner_lo epoch bounds
      ≡ perms * 2 ^ 56 + owner_lo * 2 ^ 48 + epoch * 2 ^ 32 + bounds
unfolding cap_meta_pack
pack_sum p o e b hp ho he hb =
    let s0 : shl64 p 56 ≡ p * 2 ^ 56 = omega arith in
    let s1 : shl64 o 48 ≡ o * 2 ^ 48 = omega arith in
    let s2 : shl64 e 32 ≡ e * 2 ^ 32 = omega arith in
    let s3 : shl64 b 0 ≡ b = omega arith in
    let j1 : bit_or (p * 2 ^ 56) (o * 2 ^ 48) ≡ (p * 2 ^ 8 + o) * 2 ^ 48 =
      bit_or_shifted 56 p (o * 2 ^ 48) (omega arith) ∙ omega arith in
    let j2 : bit_or ((p * 2 ^ 8 + o) * 2 ^ 48) (e * 2 ^ 32)
        ≡ (p * 2 ^ 24 + o * 2 ^ 16 + e) * 2 ^ 32 =
      bit_or_shifted 48 (p * 2 ^ 8 + o) (e * 2 ^ 32) (omega arith) ∙ omega arith in
    let j3 : bit_or ((p * 2 ^ 24 + o * 2 ^ 16 + e) * 2 ^ 32) b
        ≡ (p * 2 ^ 24 + o * 2 ^ 16 + e) * 2 ^ 32 + b =
      bit_or_shifted 32 (p * 2 ^ 24 + o * 2 ^ 16 + e) b hb in
    rw (s0, s1, s2, s3, j1, j2, j3) (omega arith)

pub meta_perms_div : (meta : ℕ) → meta_perms meta ≡ meta / 2 ^ 56 % 2 ^ 8
unfolding meta_perms
meta_perms_div meta =
    omega (arith, bit_and_mask_shifted 56 meta 0xFF, bit_and_low 8 (meta / 2 ^ 56))

pub meta_epoch_div : (meta : ℕ) → meta_epoch meta ≡ meta / 2 ^ 32 % 2 ^ 16
unfolding meta_epoch
meta_epoch_div meta =
    omega (arith, bit_and_mask_shifted 32 meta 0xFFFF, bit_and_low 16 (meta / 2 ^ 32))

pub meta_bounds_mod : (meta : ℕ) → meta_bounds meta ≡ meta % 2 ^ 32
unfolding meta_bounds
meta_bounds_mod meta = omega (arith, bit_and_low 32 meta)

-- For fields that fit their widths, the packed word is read back: the permissions, the epoch and the
-- bounds by the functions that unpack them, the owner's byte, which the code has no function for, as
-- the bits 48 to 55 where include/shm_cap.h documents it; and the word has no other bits.
pub unpack-pack :
    (perms owner_lo epoch bounds : ℕ)
    → perms < 2 ^ 8
    → owner_lo < 2 ^ 8
    → epoch < 2 ^ 16
    → bounds < 2 ^ 32
    → let meta = cap_meta_pack perms owner_lo epoch bounds in
      (meta_perms meta ≡ perms)
      × (meta / 2 ^ 48 % 2 ^ 8 ≡ owner_lo)
      × (meta_epoch meta ≡ epoch)
      × (meta_bounds meta ≡ bounds)
      × (meta < 2 ^ 64)
unpack-pack p o e b hp ho he hb =
    let sum = pack_sum p o e b hp ho he hb in
    (
      meta_perms_div _ ∙ ap (λ t. t / 2 ^ 56 % 2 ^ 8) sum ∙ omega arith,
      ap (λ t. t / 2 ^ 48 % 2 ^ 8) sum ∙ omega arith,
      meta_epoch_div _ ∙ ap (λ t. t / 2 ^ 32 % 2 ^ 16) sum ∙ omega arith,
      meta_bounds_mod _ ∙ ap (λ t. t % 2 ^ 32) sum ∙ omega arith,
      omega (arith, sum),
    )

-- Clearing the permission byte, and putting another in.
pub narrow_sum :
    (meta perms : ℕ)
    → meta < 2 ^ 64
    → perms < 2 ^ 8
    → bit_or (bit_and meta (not64 perms_mask)) (shl64 perms 56) ≡ perms * 2 ^ 56 + meta % 2 ^ 56
narrow_sum meta perms hm hp =
    let low : bit_and meta (2 ^ 56 - 1) ≡ meta % 2 ^ 56 = bit_and_low 56 meta in
    let high : shl64 perms 56 ≡ perms * 2 ^ 56 = omega arith in
    rw (low, high)
      (bit_or_comm (meta % 2 ^ 56) (perms * 2 ^ 56)
        ∙ bit_or_shifted 56 perms (meta % 2 ^ 56) (omega arith))
