-- ===== src/Resize.antt =====
-- `shm_resize` of src/shm_alloc.c: shrinking in place, growing into a free successor, and moving to
-- a new block.
pub mod Trim
pub mod Extend
pub mod Moved
pub mod Change
pub mod InPlace
pub mod Grow
pub mod Copy
pub mod Relocate
pub mod Outcome
pub mod Successor
pub mod Object
pub mod Calls
use disagg_shmem_allocator.Base.{
  ℕ, ◌+◌, Bool, ◌&&◌, Option, none, some, Run, returns, ◌>>=◌, ltb, leb, ◌==◌, if◌then◌else◌,
}
use disagg_shmem_allocator.Word.{add64, sub64}
use disagg_shmem_allocator.Layout.{
  Region, sizeof_block_hdr, block_min, magic_block, heap_size, memset_zero, memcpy, set_blk,
  set_slot, set_hdr, poff_of_hoff, hoff_of_poff,
}
use disagg_shmem_allocator.Heap.{
  poison, freelist_insert, freelist_remove, free_hdr, set_total, heap_alloc_block, heap_free_block,
}
use disagg_shmem_allocator.Access.{
  Status, success, einval, enoent, enomem, perm_resize, check_dir_access,
}
use disagg_shmem_allocator.Directory.{dir_find_by_id}
use disagg_shmem_allocator.Objects.{total_for}

-- Cut the block at `ho` to `total` bytes and free the `rem` bytes behind it.
unfoldable pub trim : Region → (ho total rem : ℕ) → Run Region
trim r ho total rem =
    let tail_ho = add64 ho total in
    let r1 = set_blk r tail_ho (free_hdr rem 0) in
    let r2 = set_hdr r1 (record (r1.hdr) { used_bytes = sub64 r1.hdr.used_bytes rem }) in
    freelist_insert (set_total r2 ho total) tail_ho

unfoldable pub shrink : Region → (ho new_total : ℕ) → Run Region
shrink r ho new_total =
    let rem = sub64 (r.blk ho).total_size new_total in
    if leb block_min rem then trim r ho new_total rem else returns r

-- The successor of the block lies in the heap, is free, and is large enough together with it.
unfoldable pub can_extend : Region → (ho new_total : ℕ) → Bool
can_extend r ho new_total =
    let next_ho = add64 ho (r.blk ho).total_size in
    let next = r.blk next_ho in
    ltb (add64 next_ho sizeof_block_hdr) (heap_size r)
    && (next.magic == magic_block)
    && (next.allocated == 0)
    && leb new_total (add64 (r.blk ho).total_size next.total_size)

-- Absorb the successor, and give back what is left over if that makes a block.
unfoldable pub extend : Region → (ho new_total : ℕ) → Run Region
extend r ho new_total = do
  let next_ho = add64 ho (r.blk ho).total_size
  let combined = add64 (r.blk ho).total_size (r.blk next_ho).total_size
  r1 ← freelist_remove r next_ho
  let r2 =
      set_hdr r1
        (record (r1.hdr) { used_bytes = add64 r1.hdr.used_bytes (r1.blk next_ho).total_size })
  let r3 = poison (set_total r2 ho combined) next_ho
  let leftover = sub64 combined new_total
  if leb block_min leftover then trim r3 ho new_total leftover else returns r3

-- Copy the payload and the ownership of the block at `ho` to the new block at `nho`.
unfoldable pub copy_block : Region → (ho nho : ℕ) → Region
copy_block r ho nho =
    let cap = (r.blk ho).payload_cap in
    let r1 = memcpy r (nho + sizeof_block_hdr) (ho + sizeof_block_hdr) cap in
    let extra = sub64 (r1.blk nho).payload_cap (r1.blk ho).payload_cap in
    let r2 = memset_zero r1 (nho + sizeof_block_hdr + (r1.blk ho).payload_cap) extra in
    let b = r2.blk ho in
    set_blk r2 nho (record (r2.blk nho) {
      type_tag = b.type_tag;
      owner = b.owner;
      perms = b.perms;
      obj_id = b.obj_id;
    })

-- The header offset of the block that holds the object afterwards; `none` if the heap is exhausted.
unfoldable pub relocate : Region → (ho new_total : ℕ) → Run (Region × Option ℕ)
relocate r ho new_total = do
  (r1, block) ← heap_alloc_block r new_total
  elim block [
    | none ↦ returns (r1, none)
    | some nho ↦ do r2 ← heap_free_block (copy_block r1 ho nho) ho; returns (r2, some nho)
  ]

-- `slot->capacity` and `slot->used_size`, after the block at `ho` has got its size.
abbrev pub set_sizes : Region → (slot ho new_size : ℕ) → Region
set_sizes r slot ho new_size =
    set_slot r slot
      (record (r.dir slot) { capacity = (r.blk ho).payload_cap; used_size = new_size })

unfoldable pub resize_block : Region → (slot ho new_size : ℕ) → Run (Region × Status)
resize_block r slot ho new_size =
    let new_total = total_for new_size in
    if leb new_total (r.blk ho).total_size
    then (do r1 ← shrink r ho new_total; returns (set_sizes r1 slot ho new_size, success))
    else if can_extend r ho new_total
    then (do r1 ← extend r ho new_total; returns (set_sizes r1 slot ho new_size, success))
    else (do
      (r1, block) ← relocate r ho new_total
      elim block [
        | none ↦ returns (r1, enomem)
        | some nho ↦
            let r2 = set_slot r1 slot (record (r1.dir slot) { off = poff_of_hoff nho }) in
            returns (set_sizes r2 slot nho new_size, success)
      ])

unfoldable pub shm_resize :
    Region → (obj_id new_size user_id caller_perms : ℕ) → Run (Region × Status)
shm_resize r obj_id new_size user_id caller_perms =
    if obj_id == 0
    then returns (r, einval)
    else if new_size == 0
    then returns (r, einval)
    else elim (dir_find_by_id r obj_id) [
      | none ↦ returns (r, enoent)
      | some slot ↦ elim (check_dir_access (some (r.dir slot)) user_id caller_perms perm_resize) [
        | success ↦ resize_block r slot (hoff_of_poff (r.dir slot).off) new_size
        | refused ↦ returns (r, refused)
      ]
    ]
