-- ===== src/Examples/Guards.antt =====
-- Witnesses for the theorems on access, capabilities, opening, fingerprints and alignment.
use disagg_shmem_allocator.Base.{
  false, none, ◌^◌, ◌<◌, ◌/◌, ◌%◌, ◌≡◌, ◌≢◌, ◌↔◌, refl, inr, [], ◌∷◌, arith, true, some,
}
use disagg_shmem_allocator.Layout.{align_up, memset_zero, magic_block, hoff_of_poff}
use disagg_shmem_allocator.Heap.{find_fit, heap_alloc_block, carve, mark_live, split_off, set_link}
use disagg_shmem_allocator.Word.{add64}
use disagg_shmem_allocator.Fingerprint.{fnv_offset_basis, mix_reads}
use disagg_shmem_allocator.Fingerprint.Injective.{AreBytes, ReadsBytes, mix_reads-byte}
use disagg_shmem_allocator.Access.{
  success, errno, ok, err, perm_read, grants, is_admin, check_block_access,
}
use disagg_shmem_allocator.Access.Rules.{MayAccess, check_block_access_iff}
use disagg_shmem_allocator.Blocks.{blk_of_poff}
use disagg_shmem_allocator.Cap.{
  cap_is_null, cap_meta_pack, meta_perms, meta_epoch, meta_bounds, shm_cap_derive, shm_cap_is_valid,
  shm_cap_deref, shm_cap_narrow,
}
use disagg_shmem_allocator.Cap.Revoke.{shm_free-revokes}
use disagg_shmem_allocator.Cap.Pack.{unpack-pack}
use disagg_shmem_allocator.Cap.Access.{MayDerive, deref_iff, deref-derive, deref-narrow}
use disagg_shmem_allocator.Directory.{first_slot, dir_find_free_slot}
use disagg_shmem_allocator.Objects.{shm_alloc, publish}
use disagg_shmem_allocator.Lifecycle.{
  posix, Os, OpenOpts, region_init, data_offset_for, shm_region_open,
}
use disagg_shmem_allocator.Lifecycle.Balance.{
  nothing_held, all_held, Balanced, shm_region_open-Balanced,
}
use disagg_shmem_allocator.Lifecycle.Init.{init-overruns}
use disagg_shmem_allocator.Examples.{
  blank, name, used, used-Valid, used_slot, freed_again, freed_run,
}

-- A system on which the mapping fails.
abbrev full_disk : Os
full_disk = record {
  calloc_ok = true;
  strdup_ok = true;
  open_fd = ok tt;
  ftruncate = ok tt;
  fstat = ok 4096;
  mmap = err (errno 12);
  memory = blank;
  ns_inode = 5;
  cgroup_hash = 6;
}

abbrev create : OpenOpts
create = record { backend = posix; flags = 1; dir_capacity = 2 }

default_directory : (4096 < data_offset_for 256) × (data_offset_for 256 < 2 ^ 63)
unfolding data_offset_for align_up
default_directory = (omega arith, omega arith)

grants_three_one : grants 3 1 ≡ true
unfolding grants
grants_three_one = refl

used_access : check_block_access (some (used.blk 0)) 7 3 3 ≡ success
unfolding shm_alloc heap_alloc_block find_fit carve mark_live split_off set_link publish memset_zero
    region_init dir_find_free_slot first_slot align_up data_offset_for check_block_access grants
    is_admin
used_access = refl

deref_iff_example : (shm_cap_deref used (shm_cap_derive used 56 7 255 3) 1 ≡ some 56) ↔ (
    (shm_cap_is_valid used (shm_cap_derive used 56 7 255 3) ≡ true)
    × (grants (meta_perms (shm_cap_derive used 56 7 255 3).meta) 1 ≡ true)
    × (grants (blk_of_poff used (shm_cap_derive used 56 7 255 3).addr).perms 1 ≡ true)
    × (56 ≡ add64 (hoff_of_poff (shm_cap_derive used 56 7 255 3).addr) 56))
deref_iff_example = deref_iff used (shm_cap_derive used 56 7 255 3) 1 56

used-MayDerive : MayDerive used 56 7 255 3
unfolding shm_alloc heap_alloc_block find_fit carve mark_live split_off set_link publish memset_zero
    region_init dir_find_free_slot first_slot align_up data_offset_for grants is_admin
used-MayDerive = record {
  magic = refl;
  tag = omega arith;
  owner = inr refl;
  available = refl;
  small = omega arith;
}

deref-derive_example :
    shm_cap_deref used (shm_cap_derive used 56 7 255 3) 1 ≡ some (add64 (hoff_of_poff 56) 56)
deref-derive_example =
    deref-derive used 56 7 255 3 1 (omega arith) (omega arith) used-MayDerive grants_three_one

-- A capability for reading and writing, narrowed to reading.
narrowed_run :
    shm_cap_deref used (shm_cap_narrow (record { addr = 56; meta = 0x0307000100000010 }) 1) 1
    ≡ some 56
unfolding shm_alloc heap_alloc_block find_fit carve mark_live split_off set_link publish memset_zero
    region_init dir_find_free_slot first_slot align_up data_offset_for shm_cap_deref shm_cap_narrow
    cap_is_null meta_perms meta_epoch meta_bounds grants is_admin
narrowed_run = refl

deref-narrow_example :
    (shm_cap_deref used (record { addr = 56; meta = 0x0307000100000010 }) 1 ≡ some 56)
    × (grants 1 1 ≡ true)
deref-narrow_example =
    deref-narrow used (record { addr = 56; meta = 0x0307000100000010 }) 1 1 56 (omega arith)
      narrowed_run

unpack-pack_example :
    (meta_perms (cap_meta_pack 3 7 1 16) ≡ 3)
    × (cap_meta_pack 3 7 1 16 / 2 ^ 48 % 2 ^ 8 ≡ 7)
    × (meta_epoch (cap_meta_pack 3 7 1 16) ≡ 1)
    × (meta_bounds (cap_meta_pack 3 7 1 16) ≡ 16)
    × (cap_meta_pack 3 7 1 16 < 2 ^ 64)
unpack-pack_example = unpack-pack 3 7 1 16 (omega arith) (omega arith) (omega arith) (omega arith)

shm_region_open-Balanced_example :
    Balanced nothing_held all_held (shm_region_open full_disk name 4096 (some create))
shm_region_open-Balanced_example = shm_region_open-Balanced full_disk name 4096 (some create)

init-overruns_example : 4096 < ((region_init blank 4096 posix 256 name 5 6).blk 0).total_size
init-overruns_example =
    init-overruns blank 4096 posix 256 name 5 6 default_directory.0 default_directory.1

check_block_access_iff_example :
    (check_block_access (some (used.blk 0)) 7 255 perm_read ≡ success) ↔ (
      ((used.blk 0).magic ≡ magic_block)
      × ((used.blk 0).allocated ≢ 0)
      × MayAccess (used.blk 0).owner (used.blk 0).perms 7 255 perm_read)
check_block_access_iff_example = check_block_access_iff (used.blk 0) 7 255 perm_read

used_offset : 56 ≡ (used.dir 0).off
unfolding shm_alloc heap_alloc_block find_fit carve mark_live split_off set_link publish memset_zero
    region_init dir_find_free_slot first_slot align_up data_offset_for
used_offset = refl

shm_free-revokes_example :
    (shm_cap_deref freed_again (record { addr = 56; meta = 0x0307000100000010 }) 1 ≡ none)
    × (shm_cap_is_valid freed_again (record { addr = 56; meta = 0x0307000100000010 }) ≡ false)
shm_free-revokes_example =
    shm_free-revokes used freed_again used-Valid.0 0 7 255 used-Valid.1 used_slot.0 used_slot.1
      (record { addr = 56; meta = 0x0307000100000010 }) 1 freed_run used_offset

-- Two paths that end in another digit, read in one call.
mix_reads-byte_example :
    mix_reads fnv_offset_basis (some (97 ∷ 47 ∷ 49 ∷ 10 ∷ []) ∷ some [] ∷ [])
    ≢ mix_reads fnv_offset_basis (some (97 ∷ 47 ∷ 50 ∷ 10 ∷ []) ∷ some [] ∷ [])
unfolding AreBytes ReadsBytes
mix_reads-byte_example =
    mix_reads-byte fnv_offset_basis (97 ∷ 47 ∷ []) 49 50 (10 ∷ []) (some [] ∷ []) (omega arith)
      (omega arith) (omega arith) (omega arith, tt) (tt, tt) (omega arith)
