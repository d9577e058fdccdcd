-- ===== src/Heap/State/Release.antt =====
-- `heap_free_block` puts the block among the free chunks, joined with its free neighbours, and keeps
-- the invariant.
use disagg_shmem_allocator.Base.{ℕ, ◌+◌, ◌-◌, ◌≡◌, ap, List, ◌∷◌, ◌++◌, arith, returns}
use disagg_shmem_allocator.Word.{sub64}
use disagg_shmem_allocator.Layout.{Region}
use disagg_shmem_allocator.Heap.{heap_free_block, freelist_insert}
use disagg_shmem_allocator.Heap.Seg.{Chunk, live, IsLive, Seg}
use disagg_shmem_allocator.Heap.LastFree.{insert_free}
use disagg_shmem_allocator.Heap.SameBut.{SameBut}
use disagg_shmem_allocator.Heap.Insert.{Inserted, freelist_insert-Inserted}
use disagg_shmem_allocator.Heap.Chunks.{
  live_bytes-insert_free, live_count-insert_free, Coalesced-insert_free, live_bytes-live,
  live_count-live,
}
use disagg_shmem_allocator.Heap.State.{IsHeap, live_bytes-le, live_count-le}

-- The outcome of freeing the block at `b`.
pub record Freed (r r' : Region) (pre : List Chunk) (m : ℕ) (post : List Chunk) (b : ℕ)
    : Type 0 where
  pub heap : IsHeap r' (insert_free pre m post)
  pub same :
      SameBut b
        (record r {
          hdr = record (r.hdr) {
            used_bytes = sub64 r.hdr.used_bytes m;
            block_count = sub64 r.hdr.block_count 1;
          };
        })
        r'

module _ (r : Region) (pre : List Chunk) (m : ℕ) (post : List Chunk) (b : ℕ) where
  -- A live chunk in its place, with the links around it.
  pub record Placed : Type 0 where
    pub mid : ℕ
    pub left : Seg r.blk 0 pre b r.hdr.free_list mid
    pub this : IsLive (r.blk b) m
    pub right : Seg r.blk (b + m) post (r.size - r.hdr.data_offset) mid 0

  -- For a heap that satisfies the invariant and a live chunk in it, `heap_free_block` returns,
  -- the chunks are the old ones with this one joined into the free chunks, the invariant holds,
  -- and besides the counters only the list head, the header given and headers of free blocks
  -- differ.
  pub heap_free_block-Freed :
      IsHeap r (pre ++ live m ∷ post)
      → Placed
      → (r' : Region) × (heap_free_block r b ≡ returns r') × Freed r r' pre m post b
  unfolding heap_free_block
  heap_free_block-Freed i p =
      let (r', run, done) = insertion in
      (
        r',
        rw p.this.block.total run,
        record {
          heap = record {
            offset = rw (done.same.size, off r' done) i.offset;
            bound = rw done.same.size i.bound;
            chunks = rw (done.same.size, off r' done) done.chunks;
            apart = Coalesced-insert_free pre m m post i.apart;
            used = omega (
              arith,
              ap (λ h. h.used_bytes) done.same.hdr,
              i.used,
              live_bytes-live pre m post,
              live_bytes-insert_free pre m post,
              live_bytes-le r.blk 0 _ (r.size - r.hdr.data_offset) r.hdr.free_list 0 i.chunks,
              i.bound,
            );
            count = omega (
              arith,
              ap (λ h. h.block_count) done.same.hdr,
              i.count,
              live_count-live pre m post,
              live_count-insert_free pre m post,
              live_count-le r.blk 0 _ (r.size - r.hdr.data_offset) r.hdr.free_list 0 i.chunks,
              i.bound,
            );
          };
          same = done.same;
        },
      )
    where
      r0 : Region
      r0 = record r {
        hdr = record (r.hdr) {
          used_bytes = sub64 r.hdr.used_bytes m;
          block_count = sub64 r.hdr.block_count 1;
        };
      }

      e : ℕ
      e = r.size - r.hdr.data_offset

      insertion :
          (r' : Region) × (freelist_insert r0 b ≡ returns r')
          × Inserted b r0 r' (insert_free pre m post) e
      insertion =
          freelist_insert-Inserted r0 pre m post b e
            (record {
              mid = p.mid;
              bound = omega (arith, i.bound);
              left = p.left;
              this = p.this.block;
              right = p.right;
            })
            (omega arith)

      off :
          (r' : Region)
          → Inserted b r0 r' (insert_free pre m post) e
          → r'.hdr.data_offset ≡ r.hdr.data_offset
      off r' done = ap (λ h. h.data_offset) done.same.hdr
