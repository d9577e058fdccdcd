-- ===== src/Resize/Extend.antt =====
-- Growing a block into its free successor: the second branch of `shm_resize` in src/shm_alloc.c, on
-- the heap.
use disagg_shmem_allocator.Base.{
  ℕ, suc, ◌+◌, ◌-◌, ◌≤◌, ◌≡◌, refl, sym, ap, subst, inl, inr, List, [], ◌∷◌, ◌++◌, arith, returns,
  Bool-cases, leb, leb→le,
}
use disagg_shmem_allocator.Word.{add64, sub64}
use disagg_shmem_allocator.Layout.{BlockHdr, Region, set_hdr, update}
use disagg_shmem_allocator.Heap.{set_total, poison}
use disagg_shmem_allocator.Heap.Seg.{Chunk, free, live, IsLive, Seg, Seg-le, Seg-append, Seg-split}
use disagg_shmem_allocator.Heap.Splice.{Hole, update_at, update_outside, update-left, update-right}
use disagg_shmem_allocator.Heap.SameBut.{SameBut}
use disagg_shmem_allocator.Heap.Remove.{Linked, freelist_remove-Hole}
use disagg_shmem_allocator.Heap.Chunks.{
  Coalesced-left, Coalesced-right, Coalesced-live, live_bytes, live_count, live_bytes-live,
  live_count-live,
}
use disagg_shmem_allocator.Heap.State.{IsHeap, live_bytes-le}
use disagg_shmem_allocator.Heap.State.Release.{Placed}
use disagg_shmem_allocator.Resize.{extend}
use disagg_shmem_allocator.Resize.Trim.{shrunk, trim-IsHeap}

live_bytes_behind : (k : ℕ) (post : List Chunk) → live_bytes (free k ∷ post) ≡ live_bytes post
unfolding live_bytes
live_bytes_behind k post = refl

live_count_behind : (k : ℕ) (post : List Chunk) → live_count (free k ∷ post) ≡ live_count post
unfolding live_count
live_count_behind k post = refl

module _ (r : Region) (pre : List Chunk) (m k : ℕ) (post : List Chunk) (ho : ℕ)
    (i : IsHeap r (pre ++ live m ∷ free k ∷ post)) (p : Placed r pre m (free k ∷ post) ho) where
  abbrev pub e : ℕ
  e = r.size - r.hdr.data_offset

  abbrev pub t : ℕ
  t = ho + m

  pub linked : Linked r (pre ++ live m ∷ []) k post t e
  linked = record {
    bound = omega (arith, i.bound);
    left =
        Seg-append r.blk 0 pre (live m ∷ []) ho t r.hdr.free_list p.mid (suc t) p.left
          (p.this, (refl, p.right.0));
    this = p.right.1;
    right = p.right.2;
  }

  pub inside : t + k ≤ e
  inside = Seg-le r.blk (t + k) post e (r.blk t).next_free 0 p.right.2

  -- The region after the successor has been taken off the list, and after it has been absorbed.
  module _ (r1 : Region) (h : Hole r1 (pre ++ live m ∷ []) k post t e) (s : SameBut t r r1) where
    abbrev pub counted : Region
    counted =
        set_hdr r1 (record (r1.hdr) { used_bytes = add64 r1.hdr.used_bytes (r1.blk t).total_size })

    abbrev pub grown_hdr : BlockHdr
    grown_hdr = record (r1.blk ho) { total_size = m + k; payload_cap = sub64 (m + k) 56 }

    abbrev pub blk2 : ℕ → BlockHdr
    blk2 = update r1.blk ho grown_hdr

    abbrev pub grown : Region
    grown = poison (set_total counted ho (m + k)) t

    -- The parts of the gap's left side.
    before : Seg r1.blk 0 pre ho r1.hdr.free_list h.mid × IsLive (r1.blk ho) m
    before =
        let q = Seg-split r1.blk 0 pre (live m ∷ []) t r1.hdr.free_list h.mid h.left in
        let here : q.mid ≡ ho = omega (arith, q.right.1.0) in
        (
          subst (λ a. Seg r1.blk 0 pre a r1.hdr.free_list h.mid) here
              (subst (λ c. Seg r1.blk 0 pre q.mid r1.hdr.free_list c) q.right.1.1 q.left),
          subst (λ a. IsLive (r1.blk a) m) here q.right.0,
        )

    big : 64 ≤ m
    big = before.1.block.large

    off : r1.hdr.data_offset ≡ r.hdr.data_offset
    off = ap (λ x. x.data_offset) s.hdr

    grown_used : grown.hdr.used_bytes ≡ r.hdr.used_bytes + k
    grown_used = omega (
      arith,
      ap (λ x. x.used_bytes) s.hdr,
      h.this.total,
      i.used,
      i.bound,
      inside,
      live_bytes-le r.blk 0 (pre ++ live m ∷ free k ∷ post) e r.hdr.free_list 0 i.chunks,
    )

    grown_left : Seg grown.blk 0 pre ho grown.hdr.free_list h.mid
    grown_left =
        update-left blk2 t _ 0 pre ho r1.hdr.free_list h.mid (omega arith)
          (update-left r1.blk ho grown_hdr 0 pre ho r1.hdr.free_list h.mid (omega arith) before.0)

    grown_this : IsLive (grown.blk ho) (m + k)
    grown_this =
        rw
          (
            update_outside blk2 t (record (blk2 t) { magic = 0 }) ho (omega (arith, big)),
            update_at r1.blk ho grown_hdr,
          )
          (record {
            block = record {
              magic = before.1.block.magic;
              total = refl;
              large = omega (arith, big);
              fits = omega (arith, big, inside, i.bound);
            };
            tag = before.1.tag;
          })

    grown_right : Seg grown.blk (ho + (m + k)) post e h.mid 0
    grown_right =
        subst (λ a. Seg grown.blk a post e h.mid 0) (omega arith)
          (update-right blk2 t _ (t + k) post e h.mid 0 (omega (arith, h.this.large))
            (update-right r1.blk ho grown_hdr (t + k) post e h.mid 0 (omega (arith, big)) h.right))

    pub grown-IsHeap : IsHeap grown (pre ++ live (m + k) ∷ post)
    grown-IsHeap = record {
      offset = rw (s.size, off) i.offset;
      bound = rw s.size i.bound;
      chunks =
          rw (s.size, off)
            (Seg-append grown.blk 0 pre (live (m + k) ∷ post) ho e grown.hdr.free_list h.mid 0
              grown_left (grown_this, grown_right));
      apart =
          Coalesced-live pre (m + k) post (Coalesced-left pre (live m ∷ free k ∷ post) i.apart)
            (Coalesced-right pre (live m ∷ free k ∷ post) i.apart).1;
      used = omega (
        arith,
        grown_used,
        i.used,
        live_bytes-live pre m (free k ∷ post),
        live_bytes-live pre (m + k) post,
        live_bytes_behind k post,
      );
      count = omega (
        arith,
        ap (λ x. x.block_count) s.hdr,
        i.count,
        live_count-live pre m (free k ∷ post),
        live_count-live pre (m + k) post,
        live_count_behind k post,
      );
    }

    pub grown-Placed : Placed grown pre (m + k) post ho
    grown-Placed = record {
      mid = h.mid;
      left = grown_left;
      this = grown_this;
      right = rw (s.size, off) grown_right;
    }

  -- For a heap that satisfies the invariant, a live chunk and a free one behind it, that have `total +
  -- rem` bytes together, growing the block to `total` bytes, 64 or more, returns; what is left over is
  -- joined into the free chunks where it makes a block and stays with the block where it does not, and
  -- the invariant holds.
  pub extend-IsHeap :
      (total rem : ℕ)
      → total + rem ≡ m + k
      → 64 ≤ total
      → (r' : Region) × (extend r ho total ≡ returns r') × IsHeap r' (shrunk pre total rem post)
  unfolding extend shrunk
  extend-IsHeap total rem sum enough =
      let (r1, run, h, s) =
        freelist_remove-Hole r (pre ++ live m ∷ []) k post t e linked (omega arith) in
      let whole =
        subst (λ n. IsHeap (grown r1 h s) (pre ++ live n ∷ post)) (sym sum) (grown-IsHeap r1 h s) in
      let place =
        subst (λ n. Placed (grown r1 h s) pre n post ho) (sym sum) (grown-Placed r1 h s) in
      rw (p.this.block.total, next_at, p.right.1.block.total, both, run, over)
        (elim (Bool-cases (leb 64 rem)) [
          | inl cut ↦ rw cut (
              trim-IsHeap (grown r1 h s) pre total rem post ho whole place enough
                (leb→le 64 rem cut))
          | inr small ↦ rw small (grown r1 h s, refl, whole)
        ])
    where
      next_at : add64 ho m ≡ t
      next_at = omega (arith, inside, i.bound)

      both : add64 m k ≡ m + k
      both = omega (arith, inside, i.bound)

      over : sub64 (m + k) total ≡ rem
      over = omega (arith, sum, inside, i.bound)
