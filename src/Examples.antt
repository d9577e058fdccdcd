-- ===== src/Examples.antt =====
-- A region of 4096 bytes with a directory of two slots: as it is created, after one allocation, and
-- after that object has been freed. The theorems are applied to it, and to small inputs, in the
-- modules below.
pub mod Heap
pub mod Objects
pub mod Guards
pub mod Hosts
pub mod Handles
pub mod Resizing
use disagg_shmem_allocator.Base.{
  false, none, ◌⊎◌, ℕ, ◌+◌, ◌-◌, ◌*◌, ◌/◌, ◌^◌, ◌≤◌, ◌<◌, ◌≡◌, ◌≢◌, ◌↔◌, refl, inr, List, [], ◌∷◌,
  ◌++◌, arith, true, some, returns, length, result_or,
}
use disagg_shmem_allocator.Layout.{
  Region, zero_region_hdr, zero_entry, zero_block, align_up, memset_zero, magic_block, hoff_of_poff,
}
use disagg_shmem_allocator.Heap.{
  fuel, find_fit, heap_alloc_block, heap_free_block, freelist_insert, carve, mark_live, split_off,
  set_link,
}
use disagg_shmem_allocator.Heap.Seg.{Chunk, free, live, IsFree, IsLive, Seg}
use disagg_shmem_allocator.Heap.Chunks.{live_bytes, live_count}
use disagg_shmem_allocator.Heap.LastFree.{insert_free}
use disagg_shmem_allocator.Heap.Insert.{Inserted, freelist_insert-Inserted}
use disagg_shmem_allocator.Heap.Fit.{Fit, Finds, find_fit-Finds}
use disagg_shmem_allocator.Heap.Carve.{cut, carve-Seg}
use disagg_shmem_allocator.Heap.Taken.{Taken, carve-Taken}
use disagg_shmem_allocator.Heap.State.{IsHeap}
use disagg_shmem_allocator.Heap.State.Alloc.{Allocates, heap_alloc_block-Allocates}
use disagg_shmem_allocator.Heap.State.Release.{Freed, Placed, heap_free_block-Freed}
use disagg_shmem_allocator.Word.{add64}
use disagg_shmem_allocator.Access.{
  success, errno, Answer, ok, err, perm_read, grants, is_admin, check_block_access,
}
use disagg_shmem_allocator.Access.Rules.{MayAccess, check_block_access_iff, check_block_access_mono}
use disagg_shmem_allocator.Blocks.{blk_of_poff}
use disagg_shmem_allocator.Blocks.{shm_ptr, shm_block_set_perms, shm_pool_stats}
use disagg_shmem_allocator.Blocks.Stats.{free_bytes_in, shm_pool_stats-chunks}
use disagg_shmem_allocator.Blocks.Perms.{shm_block_set_perms-Sets}
use disagg_shmem_allocator.Objects.{shm_lookup, shm_dir_next}
use disagg_shmem_allocator.Objects.Lookup.{shm_alloc-lookup}
use disagg_shmem_allocator.Objects.Next.{Next, shm_dir_next-Next}
use disagg_shmem_allocator.Cap.{
  cap_is_null, cap_meta_pack, meta_perms, meta_epoch, meta_bounds, shm_cap_derive, shm_cap_is_valid,
  shm_cap_deref, shm_cap_narrow,
}
use disagg_shmem_allocator.Access.{Status, check_dir_access}
use disagg_shmem_allocator.Objects.{shm_free}
use disagg_shmem_allocator.Directory.{dir_find_by_id}
use disagg_shmem_allocator.Cap.Revoke.{shm_free-revokes}
use disagg_shmem_allocator.Heap.{insert_walk, clear_ownership, splice, coalesce_next, coalesce_prev}
use disagg_shmem_allocator.Cap.Pack.{unpack-pack}
use disagg_shmem_allocator.Cap.Access.{MayDerive, deref_iff, deref-derive, deref-narrow}
use disagg_shmem_allocator.Layout.Align.{align_up_eight}
use disagg_shmem_allocator.Directory.{first_slot, is_vacant, dir_find_free_slot}
use disagg_shmem_allocator.Directory.Scan.{Outcome, first_slot-all}
use disagg_shmem_allocator.Objects.{total_for, shm_alloc, publish}
use disagg_shmem_allocator.Objects.Alloc.{total_for_bounds}
use disagg_shmem_allocator.Objects.Invariant.{IsRegion}
use disagg_shmem_allocator.Objects.Request.{Requests, shm_alloc-Requests}
use disagg_shmem_allocator.Objects.Release.{Frees, shm_free-Frees}
use disagg_shmem_allocator.Lifecycle.{
  posix, Os, OpenOpts, region_init, data_offset_for, shm_region_open,
}
use disagg_shmem_allocator.Lifecycle.Balance.{
  nothing_held, all_held, Balanced, shm_region_open-Balanced,
}
use disagg_shmem_allocator.Lifecycle.Init.{init-IsRegion, init-overruns}
use disagg_shmem_allocator.Session.{start, next, allocates, Valid, Reaches-Valid}

abbrev pub blank : Region
blank = record {
  size = 4096;
  hdr = zero_region_hdr;
  dir = λ i. zero_entry;
  blk = λ a. zero_block;
  bytes = λ a. 0;
}

abbrev pub name : List ℕ
name = 97 ∷ 98 ∷ []

abbrev pub created : Region
created = region_init blank 4096 posix 2 name 5 6

pub data_offset_two : data_offset_for 2 ≡ 392
unfolding data_offset_for align_up
data_offset_two = refl

abbrev pub created_chunks : List Chunk
created_chunks = free (4096 - data_offset_for 2) ∷ []

pub created-IsRegion : IsRegion created created_chunks
created-IsRegion =
    init-IsRegion blank 4096 posix 2 name 5 6 refl (omega arith) (omega (arith, data_offset_two))

pub created_next_id : created.hdr.next_id ≡ 1
unfolding region_init
created_next_id = refl

-- After an allocation of 10 bytes by user 7 with all permissions.
abbrev pub used : Region
used =
    (result_or {A = Region × Answer (ℕ × ℕ)} (created, ok (0, 0))
      (shm_alloc created 10 name 7 255 3)).0

pub used_run : shm_alloc created 10 name 7 255 3 ≡ returns (used, ok (1, 56))
unfolding shm_alloc heap_alloc_block find_fit carve mark_live split_off set_link publish memset_zero
    region_init dir_find_free_slot first_slot align_up data_offset_for
used_run = refl

pub used-Valid : Valid used
used-Valid =
    Reaches-Valid created used (created_chunks, created-IsRegion)
      (next created used start (
        allocates used 10 name 7 255 3 (ok (1, 56)) (omega arith) (omega (arith, created_next_id))
          used_run))

pub used_slot : (0 < used.hdr.dir_capacity) × ((used.dir 0).alive ≢ 0)
unfolding shm_alloc heap_alloc_block find_fit carve mark_live split_off set_link publish memset_zero
    region_init dir_find_free_slot first_slot align_up data_offset_for
used_slot = (omega arith, omega arith)

-- After that object has been freed.
abbrev pub freed_again : Region
freed_again = (result_or {A = Region × Status} (used, success) (shm_free used 1 7 255)).0

pub freed_run : shm_free used (used.dir 0).id 7 255 ≡ returns (freed_again, success)
unfolding shm_alloc shm_free heap_alloc_block heap_free_block freelist_insert find_fit carve
    mark_live split_off set_link publish memset_zero region_init dir_find_free_slot dir_find_by_id
    check_dir_access first_slot align_up data_offset_for grants is_admin insert_walk clear_ownership
    splice coalesce_next coalesce_prev
freed_run = refl
