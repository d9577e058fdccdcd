-- ===== src/Examples/Objects.antt =====
-- Witnesses for the theorems on objects, on the region and on sequences of operations, and the
-- capacity of an object in a block that has absorbed its neighbour.
use disagg_shmem_allocator.Base.{ℕ, ◌+◌, ◌≡◌, refl, inr, [], arith, true, some, result_or}
use disagg_shmem_allocator.Layout.{Region, align_up, memset_zero}
use disagg_shmem_allocator.Heap.{
  find_fit, heap_alloc_block, heap_free_block, freelist_insert, carve, mark_live, split_off,
  set_link,
}
use disagg_shmem_allocator.Heap.Chunks.{live_bytes, live_count}
use disagg_shmem_allocator.Access.{Answer, ok, perm_read, grants, is_admin}
use disagg_shmem_allocator.Blocks.{shm_ptr, shm_block_set_perms, shm_pool_stats}
use disagg_shmem_allocator.Blocks.Stats.{free_bytes_in, shm_pool_stats-chunks}
use disagg_shmem_allocator.Blocks.Perms.{Sets, shm_block_set_perms-Sets}
use disagg_shmem_allocator.Objects.{shm_lookup, shm_dir_next}
use disagg_shmem_allocator.Objects.Lookup.{shm_alloc-lookup}
use disagg_shmem_allocator.Objects.Next.{Next, shm_dir_next-Next}
use disagg_shmem_allocator.Access.{check_dir_access}
use disagg_shmem_allocator.Objects.{shm_free}
use disagg_shmem_allocator.Directory.{dir_find_by_id}
use disagg_shmem_allocator.Heap.{insert_walk, clear_ownership, splice, coalesce_next, coalesce_prev}
use disagg_shmem_allocator.Directory.{first_slot, dir_find_free_slot}
use disagg_shmem_allocator.Objects.{shm_alloc, publish}
use disagg_shmem_allocator.Objects.Invariant.{IsRegion}
use disagg_shmem_allocator.Objects.Request.{Requests, shm_alloc-Requests}
use disagg_shmem_allocator.Objects.Release.{Frees, shm_free-Frees}
use disagg_shmem_allocator.Lifecycle.{posix, region_init, data_offset_for}
use disagg_shmem_allocator.Lifecycle.Init.{init-IsRegion}
use disagg_shmem_allocator.Session.{start, next, allocates, Valid, Reaches-Valid}
use disagg_shmem_allocator.Examples.{
  blank, name, created, data_offset_two, created_chunks, created-IsRegion, created_next_id, used,
  used_run, used-Valid, used_slot, freed_again,
}

grants_reading : (grants 255 1 ≡ true) × (grants 1 1 ≡ true)
unfolding grants
grants_reading = (refl, refl)

Reaches-Valid_example : Valid used
Reaches-Valid_example =
    Reaches-Valid created used (created_chunks, created-IsRegion)
      (next created used start (
        allocates used 10 name 7 255 3 (ok (1, 56)) (omega arith) (omega (arith, created_next_id))
          used_run))

shm_alloc-Requests_example : Requests created created_chunks 10 name 7 255 3
shm_alloc-Requests_example =
    shm_alloc-Requests created created_chunks 10 name 7 255 3 created-IsRegion (omega arith)
      (omega (arith, created_next_id))

shm_free-Frees_example : Frees used used-Valid.0 1 7 255
shm_free-Frees_example = shm_free-Frees used used-Valid.0 1 7 255 used-Valid.1

init-IsRegion_example : IsRegion created created_chunks
init-IsRegion_example =
    init-IsRegion blank 4096 posix 2 name 5 6 refl (omega arith) (omega (arith, data_offset_two))

shm_alloc-lookup_example :
    (shm_lookup used 1 7 1 ≡ ok (56, 10)) × (shm_ptr used 56 7 1 perm_read ≡ some 56)
shm_alloc-lookup_example =
    shm_alloc-lookup created created_chunks 10 name 7 255 3 used 7 1 1 56 created-IsRegion
      (omega arith) (omega (arith, created_next_id)) used_run
      (inr (refl, grants_reading.0, grants_reading.1))

shm_block_set_perms-Sets_example :
    Sets used used-Valid.0 used-Valid.1 0 used_slot.0 used_slot.1 1 7 255
      (shm_block_set_perms used (used.dir 0).off 7 255 1)
shm_block_set_perms-Sets_example =
    shm_block_set_perms-Sets used used-Valid.0 used-Valid.1 0 used_slot.0 used_slot.1 1 7 255

shm_pool_stats-chunks_example :
    ((shm_pool_stats created).used_bytes ≡ live_bytes created_chunks)
    × ((shm_pool_stats created).free_bytes ≡ free_bytes_in created_chunks)
    × ((shm_pool_stats created).total_bytes
        ≡ live_bytes created_chunks + free_bytes_in created_chunks)
    × ((shm_pool_stats created).block_count ≡ live_count created_chunks)
shm_pool_stats-chunks_example = shm_pool_stats-chunks created created_chunks created-IsRegion.heap

shm_dir_next-Next_example : Next used.dir 0 used.hdr.dir_capacity (shm_dir_next used 0)
shm_dir_next-Next_example = shm_dir_next-Next used 0 (omega arith)

-- The block that an object is given keeps the capacity that it had before it absorbed its neighbour.
abbrev refilled : Region
refilled =
    (result_or {A = Region × Answer (ℕ × ℕ)} (freed_again, ok (0, 0))
      (shm_alloc freed_again 3640 [] 7 255 3)).0

refilled_capacity : ((refilled.dir 0).capacity ≡ 16) × ((refilled.dir 0).used_size ≡ 3640)
unfolding shm_alloc shm_free heap_alloc_block heap_free_block freelist_insert find_fit carve
    mark_live split_off set_link publish memset_zero region_init dir_find_free_slot dir_find_by_id
    check_dir_access first_slot align_up data_offset_for grants is_admin insert_walk clear_ownership
    splice coalesce_next coalesce_prev
refilled_capacity = (refl, refl)
