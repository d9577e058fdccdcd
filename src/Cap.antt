-- ===== src/Cap.antt =====
-- The software capabilities of src/shm_cap.c and include/shm_cap.h: two 64-bit words, the second
-- packed from permissions, the owner's low byte, the epoch and the bounds.
pub mod Pack
pub mod Access
pub mod Revoke
pub mod Typed
pub mod Macros
use disagg_shmem_allocator.Base.{
  ℕ, ◌+◌, ◌-◌, ◌*◌, ◌/◌, ◌%◌, ◌^◌, Bool, true, false, not, ◌&&◌, ◌||◌, Option, none, some, bit_and,
  bit_or, ltb, leb, ◌==◌, if◌then◌else◌,
}
use disagg_shmem_allocator.Word.{add64, shl64, shr, not64}
use disagg_shmem_allocator.Layout.{BlockHdr, Region, magic_block, sizeof_block_hdr, hoff_of_poff}
use disagg_shmem_allocator.Access.{is_admin, grants}
use disagg_shmem_allocator.Blocks.{blk_of_poff}

pub record Cap : Type 0 where
  pub addr : ℕ
  pub meta : ℕ

abbrev pub cap_null : Cap
cap_null = record { addr = 0; meta = 0 }

unfoldable pub cap_is_null : Cap → Bool
cap_is_null c = (c.addr == 0) && (c.meta == 0)

abbrev pub perms_shift : ℕ
perms_shift = 56

abbrev pub owner_shift : ℕ
owner_shift = 48

abbrev pub epoch_shift : ℕ
epoch_shift = 32

abbrev pub perms_mask : ℕ
perms_mask = 0xFF * 2 ^ 56

abbrev pub epoch_mask : ℕ
epoch_mask = 0xFFFF * 2 ^ 32

abbrev pub bounds_mask : ℕ
bounds_mask = 0xFFFFFFFF

unfoldable pub cap_meta_pack : (perms owner_lo epoch bounds : ℕ) → ℕ
cap_meta_pack perms owner_lo epoch bounds =
    bit_or
      (bit_or (bit_or (shl64 perms perms_shift) (shl64 owner_lo owner_shift))
        (shl64 epoch epoch_shift))
      (shl64 bounds 0)

unfoldable pub meta_perms : ℕ → ℕ
meta_perms meta = shr (bit_and meta perms_mask) perms_shift % 2 ^ 8

unfoldable pub meta_epoch : ℕ → ℕ
meta_epoch meta = shr (bit_and meta epoch_mask) epoch_shift % 2 ^ 16

unfoldable pub meta_bounds : ℕ → ℕ
meta_bounds meta = bit_and meta bounds_mask % 2 ^ 32

-- The capability that the header `b` gives at `off`.
unfoldable pub seal : BlockHdr → (off grant_perms : ℕ) → Cap
seal b off grant_perms = record {
  addr = off;
  meta =
      cap_meta_pack (bit_and grant_perms 0xFF) (bit_and b.owner 0xFF) (bit_and b.obj_id 0xFFFF)
        (b.payload_cap % 2 ^ 32);
}

unfoldable pub shm_cap_derive : Region → (off user_id caller_perms grant_perms : ℕ) → Cap
shm_cap_derive r off user_id caller_perms grant_perms =
    let b = blk_of_poff r off in
    if not (b.magic == magic_block)
    then cap_null
    else if b.allocated == 0
    then cap_null
    else if not (is_admin caller_perms) && not (user_id == b.owner)
    then cap_null
    else if not (grants (bit_and b.perms caller_perms) grant_perms)
    then cap_null
    else if ltb 0xFFFFFFFF b.payload_cap
    then cap_null
    else seal b off grant_perms

-- The checks that read the block only.
unfoldable pub shm_cap_is_valid : Region → Cap → Bool
shm_cap_is_valid r c =
    let b = blk_of_poff r c.addr in
    if cap_is_null c
    then false
    else if not (b.magic == magic_block)
    then false
    else if b.allocated == 0
    then false
    else if not (bit_and b.obj_id 0xFFFF == meta_epoch c.meta)
    then false
    else if not (b.payload_cap % 2 ^ 32 == meta_bounds c.meta)
    then false
    else true

-- The answer is the payload's offset from the heap base.
unfoldable pub shm_cap_deref : Region → Cap → (required : ℕ) → Option ℕ
shm_cap_deref r c required =
    let b = blk_of_poff r c.addr in
    if cap_is_null c
    then none
    else if not (b.magic == magic_block)
    then none
    else if b.allocated == 0
    then none
    else if not (bit_and b.obj_id 0xFFFF == meta_epoch c.meta)
    then none
    else if not (b.payload_cap % 2 ^ 32 == meta_bounds c.meta)
    then none
    else if not (grants (meta_perms c.meta) required)
    then none
    else if not (grants b.perms required)
    then none
    else some (add64 (hoff_of_poff c.addr) sizeof_block_hdr)

unfoldable pub shm_cap_narrow : Cap → ℕ → Cap
shm_cap_narrow c new_perms =
    if cap_is_null c
    then cap_null
    else if not (grants (meta_perms c.meta) new_perms)
    then cap_null
    else record {
      addr = c.addr;
      meta =
          bit_or (bit_and c.meta (not64 perms_mask)) (shl64 (bit_and new_perms 0xFF) perms_shift);
    }

-- shm_cap_perms, shm_cap_bounds, shm_cap_offset and shm_cap_epoch.
abbrev pub cap_perms : Cap → ℕ
cap_perms c = meta_perms c.meta

abbrev pub cap_bounds : Cap → ℕ
cap_bounds c = meta_bounds c.meta

abbrev pub cap_offset : Cap → ℕ
cap_offset c = c.addr

abbrev pub cap_epoch : Cap → ℕ
cap_epoch c = meta_epoch c.meta
