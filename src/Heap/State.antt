-- ===== src/Heap/State.antt =====
-- The heap's invariant. The modules below show the block operations of src/shm_alloc.c to refine
-- operations on lists of chunks.
pub mod Alloc
pub mod Release
use disagg_shmem_allocator.Base.{ℕ, ◌+◌, ◌-◌, ◌^◌, ◌≤◌, ◌<◌, ◌≡◌, List, [], ◌∷◌, arith}
use disagg_shmem_allocator.Layout.{BlockHdr, Region}
use disagg_shmem_allocator.Heap.Seg.{Chunk, free, live, Seg}
use disagg_shmem_allocator.Heap.Chunks.{live_bytes, live_count, Coalesced}

-- The region's heap consists of the chunks `cs`: they tile it, the free list links the free ones in
-- address order, no two free ones are neighbours, and the counters are right.
pub record IsHeap (r : Region) (cs : List Chunk) : Type 0 where
  pub offset : r.hdr.data_offset ≤ r.size
  pub bound : r.size < 2 ^ 63
  pub chunks : Seg r.blk 0 cs (r.size - r.hdr.data_offset) r.hdr.free_list 0
  pub apart : Coalesced cs
  pub used : r.hdr.used_bytes ≡ live_bytes cs
  pub count : r.hdr.block_count ≡ live_count cs

pub live_bytes-le :
    (blk : ℕ → BlockHdr) (o : ℕ) (cs : List Chunk) (e lnk out : ℕ)
    → Seg blk o cs e lnk out
    → o + live_bytes cs ≤ e
unfolding live_bytes
live_bytes-le blk o [] e lnk out s = omega arith
live_bytes-le blk o (free n ∷ cs) e lnk out s =
    omega (arith, live_bytes-le blk (o + n) cs e (blk o).next_free out s.2)
live_bytes-le blk o (live n ∷ cs) e lnk out s =
    omega (arith, live_bytes-le blk (o + n) cs e lnk out s.1)

pub live_count-le :
    (blk : ℕ → BlockHdr) (o : ℕ) (cs : List Chunk) (e lnk out : ℕ)
    → Seg blk o cs e lnk out
    → o + live_count cs ≤ e
unfolding live_count
live_count-le blk o [] e lnk out s = omega arith
live_count-le blk o (free n ∷ cs) e lnk out s =
    omega (arith, live_count-le blk (o + n) cs e (blk o).next_free out s.2)
live_count-le blk o (live n ∷ cs) e lnk out s =
    omega (arith, live_count-le blk (o + n) cs e lnk out s.1, s.0.block.large)
