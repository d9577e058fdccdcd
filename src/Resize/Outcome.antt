-- ===== src/Resize/Outcome.antt =====
-- What `shm_resize` of src/shm_alloc.c can do.
use disagg_shmem_allocator.Base.{
  ℕ, ◌+◌, ◌^◌, ◌≤◌, ◌<◌, ◌≡◌, ◌≢◌, List, true, false, some, returns, leb,
}
use disagg_shmem_allocator.Word.{sub64}
use disagg_shmem_allocator.Layout.{Region, hoff_of_poff}
use disagg_shmem_allocator.Heap.{heap_alloc_block}
use disagg_shmem_allocator.Heap.Fit.{TooSmall}
use disagg_shmem_allocator.Heap.Seg.{Chunk}
use disagg_shmem_allocator.Heap.Places.{LiveIn}
use disagg_shmem_allocator.Access.{success, einval, eacces, enoent, enomem, perm_resize}
use disagg_shmem_allocator.Access.Rules.{MayAccess}
use disagg_shmem_allocator.Directory.{has_id}
use disagg_shmem_allocator.Objects.{total_for}
use disagg_shmem_allocator.Objects.Invariant.{IsRegion}
use disagg_shmem_allocator.Resize.{can_extend, shm_resize}

-- The state after the object of `slot` has been resized: the invariant holds, the object has a live
-- block with room for the new size, its entry says where and keeps the rest, the payload is the old
-- one as far as both capacities reach, and every other object keeps its block, its header, its entry
-- and its payload.
pub record Resized (r r' : Region) (cs : List Chunk) (slot new_size : ℕ) : Type 0 where
  pub cs' : List Chunk
  pub valid : IsRegion r' cs'
  pub at : ℕ
  pub block : ℕ
  pub place : LiveIn 0 cs' at block
  pub holds : new_size + 56 ≤ block
  pub cap : ℕ
  pub entry :
      r'.dir slot ≡ record (r.dir slot) { off = at + 56; capacity = cap; used_size = new_size }
  pub dir_capacity : r'.hdr.dir_capacity ≡ r.hdr.dir_capacity
  pub room : slot < r.hdr.dir_capacity
  pub bytes :
      (i : ℕ)
      → i < (r.dir slot).capacity
      → i < cap
      → r'.bytes (at + 56 + i) ≡ r.bytes ((r.dir slot).off + i)
  pub others : (i : ℕ) → i ≢ slot → r'.dir i ≡ r.dir i
  pub blocks :
      (a k : ℕ)
      → LiveIn 0 cs a k
      → a + 56 ≢ (r.dir slot).off
      → LiveIn 0 cs' a k × (r'.blk a ≡ r.blk a)
  pub payloads :
      (a k i : ℕ)
      → LiveIn 0 cs a k
      → a + 56 ≢ (r.dir slot).off
      → i < k
      → r'.bytes (a + i) ≡ r.bytes (a + i)

-- The object's block is too small for the new size, and cannot grow in place.
abbrev pub MustMove : Region → (slot new_size : ℕ) → Type 0
MustMove r slot new_size =
    let ho = hoff_of_poff (r.dir slot).off in
    (leb (total_for new_size) (r.blk ho).total_size ≡ false)
    × (can_extend r ho (total_for new_size) ≡ false)

-- If the object has to move, the block it would move to tells a capacity that is not below the
-- object's.
abbrev pub CopyFits : Region → (obj_id new_size : ℕ) → Type 0
CopyFits r obj_id new_size =
    (slot at : ℕ) (r1 : Region)
    → has_id obj_id (r.dir slot) ≡ true
    → MustMove r slot new_size
    → heap_alloc_block r (total_for new_size) ≡ returns (r1, some at)
    → (r.dir slot).capacity ≤ (r1.blk at).payload_cap

pub data Resizes (r : Region) (cs : List Chunk) (obj_id new_size user_id caller_perms : ℕ)
    : Type 0 where
  no_id :
      obj_id ≡ 0
      → shm_resize r obj_id new_size user_id caller_perms ≡ returns (r, einval)
      → Resizes r cs obj_id new_size user_id caller_perms
  no_size :
      new_size ≡ 0
      → shm_resize r obj_id new_size user_id caller_perms ≡ returns (r, einval)
      → Resizes r cs obj_id new_size user_id caller_perms
  unknown :
      ((i : ℕ) → 0 ≤ i → i < r.hdr.dir_capacity → has_id obj_id (r.dir i) ≡ false)
      → shm_resize r obj_id new_size user_id caller_perms ≡ returns (r, enoent)
      → Resizes r cs obj_id new_size user_id caller_perms
  denied :
      (slot : ℕ)
      → slot < r.hdr.dir_capacity
      → has_id obj_id (r.dir slot) ≡ true
      → ¬ MayAccess (r.dir slot).owner (r.dir slot).perms user_id caller_perms perm_resize
      → shm_resize r obj_id new_size user_id caller_perms ≡ returns (r, eacces)
      → Resizes r cs obj_id new_size user_id caller_perms
  exhausted :
      (slot : ℕ)
      → slot < r.hdr.dir_capacity
      → has_id obj_id (r.dir slot) ≡ true
      → MayAccess (r.dir slot).owner (r.dir slot).perms user_id caller_perms perm_resize
      → TooSmall (total_for new_size) cs
      → shm_resize r obj_id new_size user_id caller_perms ≡ returns (r, enomem)
      → Resizes r cs obj_id new_size user_id caller_perms
  resized :
      (slot : ℕ) (r' : Region)
      → new_size ≢ 0
      → has_id obj_id (r.dir slot) ≡ true
      → MayAccess (r.dir slot).owner (r.dir slot).perms user_id caller_perms perm_resize
      → Resized r r' cs slot new_size
      → shm_resize r obj_id new_size user_id caller_perms ≡ returns (r', success)
      → Resizes r cs obj_id new_size user_id caller_perms
  -- The block taken for the copy has a header that still tells a capacity below the object's: the
  -- length of the zeroing wraps around.
  overruns :
      (slot : ℕ) (r1 : Region) (at : ℕ)
      → has_id obj_id (r.dir slot) ≡ true
      → MayAccess (r.dir slot).owner (r.dir slot).perms user_id caller_perms perm_resize
      → MustMove r slot new_size
      → heap_alloc_block r (total_for new_size) ≡ returns (r1, some at)
      → (r1.blk at).payload_cap < (r.dir slot).capacity
      → 2 ^ 63 < sub64 (r1.blk at).payload_cap (r.dir slot).capacity
      → Resizes r cs obj_id new_size user_id caller_perms
