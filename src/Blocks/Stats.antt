-- ===== src/Blocks/Stats.antt =====
-- `shm_pool_stats` of src/shm_alloc.c against the chunks of the heap.
use disagg_shmem_allocator.Base.{ℕ, ◌+◌, ◌-◌, ◌≡◌, List, [], ◌∷◌, arith}
use disagg_shmem_allocator.Layout.{BlockHdr, Region}
use disagg_shmem_allocator.Heap.Seg.{Chunk, free, live, Seg}
use disagg_shmem_allocator.Heap.Chunks.{live_bytes, live_count}
use disagg_shmem_allocator.Heap.State.{IsHeap}
use disagg_shmem_allocator.Blocks.{shm_pool_stats}

-- The bytes of the free chunks.
unfoldable pub free_bytes_in : List Chunk → ℕ
free_bytes_in [] = 0
free_bytes_in (free n ∷ cs) = n + free_bytes_in cs
free_bytes_in (live n ∷ cs) = free_bytes_in cs

-- The chunks of a stretch fill it.
Seg-bytes :
    (blk : ℕ → BlockHdr) (o : ℕ) (cs : List Chunk) (e lnk out : ℕ)
    → Seg blk o cs e lnk out
    → o + live_bytes cs + free_bytes_in cs ≡ e
unfolding live_bytes free_bytes_in
Seg-bytes blk o [] e lnk out s = omega arith
Seg-bytes blk o (free n ∷ cs) e lnk out s =
    omega (arith, Seg-bytes blk (o + n) cs e (blk o).next_free out s.2)
Seg-bytes blk o (live n ∷ cs) e lnk out s = omega (arith, Seg-bytes blk (o + n) cs e lnk out s.1)

-- For a heap that satisfies the invariant, the statistics report the bytes of the live chunks, of the
-- free chunks and of both together, and the number of live chunks.
pub shm_pool_stats-chunks :
    (r : Region) (cs : List Chunk)
    → IsHeap r cs
    → ((shm_pool_stats r).used_bytes ≡ live_bytes cs)
      × ((shm_pool_stats r).free_bytes ≡ free_bytes_in cs)
      × ((shm_pool_stats r).total_bytes ≡ live_bytes cs + free_bytes_in cs)
      × ((shm_pool_stats r).block_count ≡ live_count cs)
unfolding shm_pool_stats
shm_pool_stats-chunks r cs i =
    let fill = Seg-bytes r.blk 0 cs (r.size - r.hdr.data_offset) r.hdr.free_list 0 i.chunks in
    (
      i.used,
      omega (arith, fill, i.used, i.offset, i.bound),
      omega (arith, fill, i.offset, i.bound),
      i.count,
    )
