-- ===== src/Resize/Trim.antt =====
-- Shrinking a block in place: the first branch of `shm_resize` in src/shm_alloc.c, on the heap.
use disagg_shmem_allocator.Base.{
  ℕ, ◌+◌, ◌-◌, ◌≤◌, ◌≡◌, refl, ap, subst, inl, inr, List, [], ◌∷◌, ◌++◌, arith, returns, Bool-cases,
  leb, leb→le, if◌then◌else◌,
}
use disagg_shmem_allocator.Word.{add64, sub64}
use disagg_shmem_allocator.Layout.{BlockHdr, Region, update}
use disagg_shmem_allocator.Heap.{free_hdr}
use disagg_shmem_allocator.Heap.Seg.{Chunk, live, IsBlock, IsLive, Seg, Seg-le, Seg-append}
use disagg_shmem_allocator.Heap.LastFree.{insert_free}
use disagg_shmem_allocator.Heap.Splice.{Hole, update_at, update_outside, update-left, update-right}
use disagg_shmem_allocator.Heap.SameBut.{SameBut}
use disagg_shmem_allocator.Heap.Places.{extent, Seg-extent}
use disagg_shmem_allocator.Heap.Insert.{Inserted, freelist_insert-Inserted}
use disagg_shmem_allocator.Heap.Chunks.{
  Coalesced-left, Coalesced-right, Coalesced-live, Coalesced-insert_free, live_bytes, live_count,
  live_bytes-insert_free, live_count-insert_free, live_bytes-live, live_count-live,
}
use disagg_shmem_allocator.Heap.State.{IsHeap, live_bytes-le}
use disagg_shmem_allocator.Heap.State.Release.{Placed}
use disagg_shmem_allocator.Resize.{trim, shrink}

no_bytes : live_bytes [] ≡ 0
unfolding live_bytes
no_bytes = refl

no_blocks : live_count [] ≡ 0
unfolding live_count
no_blocks = refl

module _ (r : Region) (pre : List Chunk) (total rem : ℕ) (post : List Chunk) (ho : ℕ)
    (i : IsHeap r (pre ++ live (total + rem) ∷ post)) (p : Placed r pre (total + rem) post ho)
    (some_left : 64 ≤ total) (some_cut : 64 ≤ rem) where
  abbrev e : ℕ
  e = r.size - r.hdr.data_offset

  abbrev pub tail_ho : ℕ
  tail_ho = ho + total

  -- The headers before the insertion: the tail's, then the block's.
  abbrev pub blk1 : ℕ → BlockHdr
  blk1 = update r.blk tail_ho (free_hdr rem 0)

  abbrev pub kept_hdr : BlockHdr
  kept_hdr = record (blk1 ho) { total_size = total; payload_cap = sub64 total 56 }

  abbrev pub before : Region
  before = record r {
    blk = update blk1 ho kept_hdr;
    hdr = record (r.hdr) { used_bytes = sub64 r.hdr.used_bytes rem };
  }

  pub inside : ho + (total + rem) ≤ e
  inside = Seg-le r.blk (ho + (total + rem)) post e p.mid 0 p.right

  kept-IsLive : IsLive (before.blk ho) total
  kept-IsLive =
      rw
        (update_at blk1 ho kept_hdr, update_outside r.blk tail_ho (free_hdr rem 0) ho (omega arith))
        (record {
          block = record {
            magic = p.this.block.magic;
            total = refl;
            large = some_left;
            fits = omega (arith, inside, i.bound);
          };
          tag = p.this.tag;
        })

  tail-IsBlock : IsBlock (before.blk tail_ho) rem
  tail-IsBlock =
      rw
        (
          update_outside blk1 ho kept_hdr tail_ho (omega arith),
          update_at r.blk tail_ho (free_hdr rem 0),
        )
        (record {
          magic = refl;
          total = refl;
          large = some_cut;
          fits = omega (arith, inside, i.bound);
        })

  hole : Hole before (pre ++ live total ∷ []) rem post tail_ho e
  hole = record {
    mid = p.mid;
    bound = omega (arith, i.bound);
    left =
        Seg-append before.blk 0 pre (live total ∷ []) ho tail_ho r.hdr.free_list p.mid p.mid
          (update-left blk1 ho kept_hdr 0 pre ho r.hdr.free_list p.mid (omega arith) (
            update-left r.blk tail_ho (free_hdr rem 0) 0 pre ho r.hdr.free_list p.mid (omega arith)
              p.left))
          (kept-IsLive, (refl, refl));
    this = tail-IsBlock;
    right = update-right blk1 ho kept_hdr (tail_ho + rem) post e p.mid 0 (omega arith) (
        update-right r.blk tail_ho (free_hdr rem 0) (tail_ho + rem) post e p.mid 0 (omega arith)
          (subst (λ t. Seg r.blk t post e p.mid 0) (omega arith) p.right));
  }

  abbrev pub chunks' : List Chunk
  chunks' = insert_free (pre ++ live total ∷ []) rem post

  -- The heap after the tail has been inserted.
  Inserted-IsHeap : (r' : Region) → Inserted tail_ho before r' chunks' e → IsHeap r' chunks'
  Inserted-IsHeap r' done = record {
    offset = rw (done.same.size, off) i.offset;
    bound = rw done.same.size i.bound;
    chunks = rw (done.same.size, off) done.chunks;
    apart = Coalesced-insert_free (pre ++ live total ∷ []) rem rem post (
        Coalesced-live (pre ++ live total ∷ []) rem post
          (Coalesced-live pre total [] (Coalesced-left pre (live (total + rem) ∷ post) i.apart) tt)
          (Coalesced-right pre (live (total + rem) ∷ post) i.apart));
    used = omega (
      arith,
      ap (λ h. h.used_bytes) done.same.hdr,
      i.used,
      live_bytes-live pre (total + rem) post,
      live_bytes-insert_free (pre ++ live total ∷ []) rem post,
      live_bytes-live pre total [],
      no_bytes,
      live_bytes-le r.blk 0 (pre ++ live (total + rem) ∷ post) e r.hdr.free_list 0 i.chunks,
      i.bound,
    );
    count = omega (
      arith,
      ap (λ h. h.block_count) done.same.hdr,
      i.count,
      live_count-live pre (total + rem) post,
      live_count-insert_free (pre ++ live total ∷ []) rem post,
      live_count-live pre total [],
      no_blocks,
    );
  }
    where
      off : r'.hdr.data_offset ≡ r.hdr.data_offset
      off = ap (λ h. h.data_offset) done.same.hdr

  pub trim-SameBut :
      (r' : Region) × (trim r ho total rem ≡ returns r')
      × IsHeap r' chunks'
      × SameBut tail_ho before r'
  unfolding trim
  trim-SameBut =
      let (r', run, done) =
        freelist_insert-Inserted before (pre ++ live total ∷ []) rem post tail_ho e hole
          (omega arith) in
      (r', rw tail_at run, Inserted-IsHeap r' done, done.same)
    where
      tail_at : add64 ho total ≡ tail_ho
      tail_at = omega (arith, inside, i.bound)

  pub trim-IsHeap : (r' : Region) × (trim r ho total rem ≡ returns r') × IsHeap r' chunks'
  trim-IsHeap = let (r', run, heap, same) = trim-SameBut in (r', run, heap)

  -- The end of what stands before the tail.
  pub tail-extent : tail_ho ≡ 0 + extent (pre ++ live total ∷ [])
  tail-extent =
      Seg-extent before.blk 0 (pre ++ live total ∷ []) tail_ho before.hdr.free_list hole.mid
        hole.left

-- The chunks after a block of `total + rem` bytes has been shrunk to `total`.
unfoldable pub shrunk : (pre : List Chunk) (total rem : ℕ) (post : List Chunk) → List Chunk
shrunk pre total rem post =
    if leb 64 rem
    then insert_free (pre ++ live total ∷ []) rem post
    else pre ++ live (total + rem) ∷ post

-- For a heap that satisfies the invariant and a live chunk in it, shrinking the block to a size of 64
-- bytes or more returns; what is cut off is joined into the free chunks where it makes a block and
-- stays with the block where it does not, and the invariant holds.
pub shrink-IsHeap :
    (r : Region) (pre : List Chunk) (total rem : ℕ) (post : List Chunk) (ho : ℕ)
    → IsHeap r (pre ++ live (total + rem) ∷ post)
    → Placed r pre (total + rem) post ho
    → 64 ≤ total
    → (r' : Region) × (shrink r ho total ≡ returns r') × IsHeap r' (shrunk pre total rem post)
unfolding shrink shrunk
shrink-IsHeap r pre total rem post ho i p big =
    let size : sub64 (r.blk ho).total_size total ≡ rem = omega (
      arith,
      p.this.block.total,
      i.bound,
      Seg-le r.blk (ho + (total + rem)) post (r.size - r.hdr.data_offset) p.mid 0 p.right,
    ) in
    elim (Bool-cases (leb 64 rem)) [
      | inl cut ↦ rw (size, cut) (trim-IsHeap r pre total rem post ho i p big (leb→le 64 rem cut))
      | inr small ↦ rw (size, small) (r, refl, i)
    ]
