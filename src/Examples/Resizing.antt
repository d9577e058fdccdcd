-- ===== src/Examples/Resizing.antt =====
-- Witnesses for the theorems on resizing, on the store, on walks and on error paths, and a region in
-- which a resize copies to a block whose recorded capacity is below the object's.
use disagg_shmem_allocator.Base.{
  Run, ℕ, suc, ◌≡◌, refl, [], arith, returns, result_or, none, some, Option,
}
use disagg_shmem_allocator.Layout.{Region, align_up, memset_zero}
use disagg_shmem_allocator.Heap.{
  heap_alloc_block, heap_free_block, freelist_insert, find_fit, carve, mark_live, split_off,
  set_link, insert_walk, clear_ownership, splice, coalesce_next, coalesce_prev,
}
use disagg_shmem_allocator.Access.{
  Status, success, enoent, Answer, ok, grants, is_admin, check_dir_access,
}
use disagg_shmem_allocator.Directory.{first_slot, dir_find_by_id, dir_find_free_slot}
use disagg_shmem_allocator.Objects.{total_for, shm_alloc, shm_free, publish}
use disagg_shmem_allocator.Objects.Enumerate.{walk, listed_from, walk-listed}
use disagg_shmem_allocator.Lifecycle.{posix, region_init, data_offset_for}
use disagg_shmem_allocator.Session.{start, next, allocates}
use disagg_shmem_allocator.Session.Errors
use disagg_shmem_allocator.Session.Payloads.{Holds, byte, Lasting, Lasting-byte}
use disagg_shmem_allocator.Session.Errors.{Refusal-same}
use disagg_shmem_allocator.Resize.Outcome.{Resizes}
use disagg_shmem_allocator.Resize.Calls.{shm_resize-Resizes}
use disagg_shmem_allocator.Examples.{blank, created, used, used-Valid}

shm_resize-Resizes_example : Resizes used used-Valid.0 1 100 7 255
shm_resize-Resizes_example =
    shm_resize-Resizes used used-Valid.0 1 100 7 255 used-Valid.1 (omega arith)

walk-listed_example :
    walk used (suc used.hdr.dir_capacity) 0 ≡ returns (listed_from used.dir used.hdr.dir_capacity 0)
walk-listed_example = walk-listed used

-- A second object beside the first.
abbrev second_run : Run (Region × Answer (ℕ × ℕ))
second_run = shm_alloc used 20 [] 7 255 0

abbrev crowded : Region
crowded = (result_or {A = Region × Answer (ℕ × ℕ)} (used, ok (0, 0)) second_run).0

crowded_run : second_run ≡ returns (crowded, ok (2, 128))
unfolding shm_alloc heap_alloc_block find_fit carve mark_live split_off set_link publish memset_zero
    region_init dir_find_free_slot first_slot align_up data_offset_for
crowded_run = refl

crowded_next_id : used.hdr.next_id ≡ 2
unfolding shm_alloc heap_alloc_block find_fit carve mark_live split_off set_link publish memset_zero
    region_init dir_find_free_slot first_slot align_up data_offset_for
crowded_next_id = refl

first_in_used : Holds 1 5 used
unfolding shm_alloc heap_alloc_block find_fit carve mark_live split_off set_link publish memset_zero
    region_init dir_find_free_slot first_slot align_up data_offset_for
first_in_used = record {
  slot = 0;
  room = omega arith;
  alive = λ e. ground arith;
  named = refl;
  inside = omega arith;
}

first_in_crowded : Holds 1 5 crowded
unfolding shm_alloc heap_alloc_block find_fit carve mark_live split_off set_link publish memset_zero
    region_init dir_find_free_slot first_slot align_up data_offset_for
first_in_crowded = record {
  slot = 0;
  room = omega arith;
  alive = λ e. ground arith;
  named = refl;
  inside = omega arith;
}

Lasting-byte_example : byte crowded first_in_crowded ≡ byte used first_in_used
Lasting-byte_example =
    Lasting-byte 1 5 used crowded used-Valid
      (Lasting.next used crowded (Lasting.start first_in_used)
        (allocates crowded 20 [] 7 255 0 (ok (2, 128)) (omega arith)
          (omega (arith, crowded_next_id)) crowded_run)
        first_in_crowded)
      first_in_used first_in_crowded

-- Freeing an object that is not there.
abbrev refused_run : Run (Region × Status)
refused_run = shm_free used 9 7 255

abbrev after_refusal : Region
after_refusal = (result_or {A = Region × Status} (created, success) refused_run).0

unknown_id : refused_run ≡ returns (after_refusal, enoent)
unfolding shm_alloc shm_free heap_alloc_block find_fit carve mark_live split_off set_link publish
    memset_zero region_init dir_find_free_slot dir_find_by_id first_slot align_up data_offset_for
unknown_id = refl

Refusal-same_example : after_refusal ≡ used
Refusal-same_example =
    Refusal-same used after_refusal used-Valid
      (Errors.free 9 7 255 enoent (λ e. ground arith) unknown_id)

-- Three objects; the first two are freed, so that the first block absorbs the second and keeps its
-- capacity of 8 bytes.
abbrev allocated_by : Region → ℕ → Region
allocated_by r size =
    (result_or {A = Region × Answer (ℕ × ℕ)} (r, ok (0, 0)) (shm_alloc r size [] 7 255 0)).0

abbrev freed_by : Region → ℕ → Region
freed_by r id = (result_or {A = Region × Status} (r, success) (shm_free r id 7 255)).0

abbrev three_objects : Region
three_objects =
    allocated_by (allocated_by (allocated_by (region_init blank 4096 posix 3 [] 5 6) 8) 2000) 1000

abbrev third_left : Region
third_left = freed_by (freed_by three_objects 1) 2

abbrev block_taken : Region × Option ℕ
block_taken =
    result_or {A = Region × Option ℕ} (third_left, none)
      (heap_alloc_block third_left (total_for 2064))

-- For a new size of 2064 bytes the third object, of 1000, would be copied to that block.
stale_capacity :
    (block_taken.1 ≡ some 0)
    × ((block_taken.0.blk 0).payload_cap ≡ 8)
    × ((third_left.dir 2).capacity ≡ 1000)
unfolding shm_alloc shm_free heap_alloc_block heap_free_block freelist_insert find_fit carve
    mark_live split_off set_link publish memset_zero region_init dir_find_free_slot dir_find_by_id
    check_dir_access first_slot align_up data_offset_for grants is_admin insert_walk clear_ownership
    splice coalesce_next coalesce_prev
stale_capacity = (refl, refl, refl)
