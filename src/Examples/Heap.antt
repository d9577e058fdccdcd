-- ===== src/Examples/Heap.antt =====
-- Witnesses for the theorems on the heap.
use disagg_shmem_allocator.Base.{ℕ, ◌+◌, result_or}
use disagg_shmem_allocator.Heap.{freelist_remove}
use disagg_shmem_allocator.Heap.Splice.{Hole}
use disagg_shmem_allocator.Heap.SameBut.{SameBut}
use disagg_shmem_allocator.Heap.Remove.{Linked, freelist_remove-Hole}
use disagg_shmem_allocator.Access.{Answer, ok}
use disagg_shmem_allocator.Resize.{shrink, extend}
use disagg_shmem_allocator.Resize.Trim.{shrunk, shrink-IsHeap}
use disagg_shmem_allocator.Resize.Extend.{extend-IsHeap}
use disagg_shmem_allocator.Examples.{name}
use disagg_shmem_allocator.Base.{◌-◌, ◌<◌, ◌≡◌, refl, [], ◌∷◌, ◌++◌, arith, returns, length}
use disagg_shmem_allocator.Layout.{Region, align_up, memset_zero}
use disagg_shmem_allocator.Heap.{
  fuel, find_fit, heap_alloc_block, heap_free_block, freelist_insert, carve, mark_live, split_off,
  set_link,
}
use disagg_shmem_allocator.Heap.Seg.{free, live, IsFree, IsLive, Seg}
use disagg_shmem_allocator.Heap.Chunks.{live_bytes, live_count}
use disagg_shmem_allocator.Heap.LastFree.{insert_free}
use disagg_shmem_allocator.Heap.Insert.{Inserted, freelist_insert-Inserted}
use disagg_shmem_allocator.Heap.Fit.{Fit, Finds, find_fit-Finds}
use disagg_shmem_allocator.Heap.Carve.{cut, carve-Seg}
use disagg_shmem_allocator.Heap.Taken.{Taken, carve-Taken}
use disagg_shmem_allocator.Heap.State.{IsHeap}
use disagg_shmem_allocator.Heap.State.Alloc.{Allocates, heap_alloc_block-Allocates}
use disagg_shmem_allocator.Heap.State.Release.{Freed, Placed, heap_free_block-Freed}
use disagg_shmem_allocator.Directory.{first_slot, dir_find_free_slot}
use disagg_shmem_allocator.Objects.{shm_alloc, publish}
use disagg_shmem_allocator.Lifecycle.{region_init, data_offset_for}
use disagg_shmem_allocator.Examples.{
  created, data_offset_two, created_chunks, created-IsRegion, used,
}

heap_alloc_block-Allocates_example : Allocates created 72 created_chunks
heap_alloc_block-Allocates_example =
    heap_alloc_block-Allocates created 72 created_chunks created-IsRegion.heap (omega arith)

-- The header of the block allocated, and of the rest behind it.
used_first : IsLive (used.blk 0) 72
unfolding shm_alloc heap_alloc_block find_fit carve mark_live split_off set_link publish memset_zero
    region_init dir_find_free_slot first_slot align_up data_offset_for
used_first = record {
  block = record { magic = refl; total = refl; large = omega arith; fits = omega arith };
  tag = refl;
}

used_rest : IsFree (used.blk 72) 3632
unfolding shm_alloc heap_alloc_block find_fit carve mark_live split_off set_link publish memset_zero
    region_init dir_find_free_slot first_slot align_up data_offset_for
used_rest = record {
  block = record { magic = refl; total = refl; large = omega arith; fits = omega arith };
  tag = refl;
}

used_right : Seg used.blk 72 (free 3632 ∷ []) (used.size - used.hdr.data_offset) 73 0
unfolding shm_alloc heap_alloc_block find_fit carve mark_live split_off set_link publish memset_zero
    region_init dir_find_free_slot first_slot align_up data_offset_for
used_right = (refl, used_rest, (refl, refl))

used-IsHeap : IsHeap used ([] ++ live 72 ∷ free 3632 ∷ [])
unfolding shm_alloc heap_alloc_block find_fit carve mark_live split_off set_link publish memset_zero
    region_init dir_find_free_slot first_slot align_up data_offset_for live_bytes live_count
used-IsHeap = record {
  offset = omega arith;
  bound = omega arith;
  chunks = (used_first, used_right);
  apart = (tt, tt);
  used = refl;
  count = refl;
}

used-Placed : Placed used [] 72 (free 3632 ∷ []) 0
unfolding shm_alloc heap_alloc_block find_fit carve mark_live split_off set_link publish memset_zero
    region_init dir_find_free_slot first_slot align_up data_offset_for
used-Placed = record { mid = 73; left = (refl, refl); this = used_first; right = used_right }

heap_free_block-Freed_example :
    (r' : Region) × (heap_free_block used 0 ≡ returns r') × Freed used r' [] 72 (free 3632 ∷ []) 0
heap_free_block-Freed_example =
    heap_free_block-Freed used [] 72 (free 3632 ∷ []) 0 used-IsHeap used-Placed

freelist_insert-Inserted_example :
    (r' : Region) × (freelist_insert used 0 ≡ returns r')
    × Inserted 0 used r' (insert_free [] 72 (free 3632 ∷ [])) (used.size - used.hdr.data_offset)
freelist_insert-Inserted_example =
    freelist_insert-Inserted used [] 72 (free 3632 ∷ []) 0 (used.size - used.hdr.data_offset)
      (record {
        mid = used-Placed.mid;
        bound = omega (arith, used-IsHeap.bound);
        left = used-Placed.left;
        this = used-Placed.this.block;
        right = used-Placed.right;
      })
      (omega arith)

fuel_enough : length created_chunks < fuel created
unfolding region_init
fuel_enough = omega arith

find_fit-Finds_example :
    Finds created.blk 72 0 created_chunks
      (created.size - created.hdr.data_offset)
      created.hdr.free_list
      (fuel created)
      0
find_fit-Finds_example =
    find_fit-Finds created.blk 72 (fuel created) 0 created_chunks
      (created.size - created.hdr.data_offset) created.hdr.free_list 0
      (omega (arith, created-IsRegion.heap.bound)) fuel_enough created-IsRegion.heap.chunks

abbrev created_fit :
    Fit created.blk 72 0 created_chunks
      (created.size - created.hdr.data_offset)
      created.hdr.free_list
created_fit = record {
  pre = [];
  size = 4096 - data_offset_for 2;
  post = [];
  at = 0;
  parts = refl;
  small = tt;
  enough = omega (arith, data_offset_two);
  left = (refl, created-IsRegion.heap.chunks.0);
  this = created-IsRegion.heap.chunks.1;
  right = created-IsRegion.heap.chunks.2;
}

carve-Seg_example :
    Seg
      (carve created 0 0 72).blk
      0
      ([] ++ (cut 72 (4096 - data_offset_for 2) ++ []))
      (created.size - created.hdr.data_offset)
      (carve created 0 0 72).hdr.free_list
      0
carve-Seg_example =
    carve-Seg created 72 created_chunks (created.size - created.hdr.data_offset)
      (omega (arith, created-IsRegion.heap.bound)) created_fit (omega arith)

carve-Taken_example : Taken created (carve created 0 0 72) 0 72 (4096 - data_offset_for 2)
carve-Taken_example =
    carve-Taken created 72 created_chunks (created.size - created.hdr.data_offset)
      (omega (arith, created-IsRegion.heap.bound)) created_fit (omega arith)

used-Linked : Linked used (live 72 ∷ []) 3632 [] 72 (used.size - used.hdr.data_offset)
unfolding shm_alloc heap_alloc_block find_fit carve mark_live split_off set_link publish memset_zero
    region_init dir_find_free_slot first_slot align_up data_offset_for
used-Linked = record {
  bound = omega arith;
  left = (used_first, (refl, refl));
  this = used_rest;
  right = used_right.2;
}

freelist_remove-Hole_example :
    (r' : Region) × (freelist_remove used 72 ≡ returns r')
    × Hole r' (live 72 ∷ []) 3632 [] 72 (used.size - used.hdr.data_offset)
    × SameBut 72 used r'
freelist_remove-Hole_example =
    freelist_remove-Hole used (live 72 ∷ []) 3632 [] 72 (used.size - used.hdr.data_offset)
      used-Linked (omega arith)

extend-IsHeap_example :
    (r' : Region) × (extend used 0 136 ≡ returns r') × IsHeap r' (shrunk [] 136 3568 [])
extend-IsHeap_example =
    extend-IsHeap used [] 72 3632 [] 0 used-IsHeap used-Placed 136 3568 refl (omega arith)

-- A block of 256 bytes, to be cut.
abbrev wide : Region
wide =
    (result_or {A = Region × Answer (ℕ × ℕ)} (created, ok (0, 0))
      (shm_alloc created 200 name 7 255 3)).0

wide_first : IsLive (wide.blk 0) 256
unfolding shm_alloc heap_alloc_block find_fit carve mark_live split_off set_link publish memset_zero
    region_init dir_find_free_slot first_slot align_up data_offset_for
wide_first = record {
  block = record { magic = refl; total = refl; large = omega arith; fits = omega arith };
  tag = refl;
}

wide_rest : IsFree (wide.blk 256) 3448
unfolding shm_alloc heap_alloc_block find_fit carve mark_live split_off set_link publish memset_zero
    region_init dir_find_free_slot first_slot align_up data_offset_for
wide_rest = record {
  block = record { magic = refl; total = refl; large = omega arith; fits = omega arith };
  tag = refl;
}

wide_right : Seg wide.blk 256 (free 3448 ∷ []) (wide.size - wide.hdr.data_offset) 257 0
unfolding shm_alloc heap_alloc_block find_fit carve mark_live split_off set_link publish memset_zero
    region_init dir_find_free_slot first_slot align_up data_offset_for
wide_right = (refl, wide_rest, (refl, refl))

wide-IsHeap : IsHeap wide ([] ++ live (128 + 128) ∷ free 3448 ∷ [])
unfolding shm_alloc heap_alloc_block find_fit carve mark_live split_off set_link publish memset_zero
    region_init dir_find_free_slot first_slot align_up data_offset_for live_bytes live_count
wide-IsHeap = record {
  offset = omega arith;
  bound = omega arith;
  chunks = (wide_first, wide_right);
  apart = (tt, tt);
  used = refl;
  count = refl;
}

wide-Placed : Placed wide [] (128 + 128) (free 3448 ∷ []) 0
unfolding shm_alloc heap_alloc_block find_fit carve mark_live split_off set_link publish memset_zero
    region_init dir_find_free_slot first_slot align_up data_offset_for
wide-Placed = record { mid = 257; left = (refl, refl); this = wide_first; right = wide_right }

shrink-IsHeap_example :
    (r' : Region) × (shrink wide 0 128 ≡ returns r')
    × IsHeap r' (shrunk [] 128 128 (free 3448 ∷ []))
shrink-IsHeap_example =
    shrink-IsHeap wide [] 128 128 (free 3448 ∷ []) 0 wide-IsHeap wide-Placed (omega arith)
