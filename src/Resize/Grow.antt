-- ===== src/Resize/Grow.antt =====
-- Growing into the free successor, the second branch of `shm_resize` in src/shm_alloc.c, keeps the
-- object where it is and everything else as it is.
use disagg_shmem_allocator.Base.{
  ℕ, ◌+◌, ◌-◌, ◌≤◌, ◌≡◌, ◌≢◌, sym, ap, ◌∙◌, subst, inl, inr, List, [], ◌∷◌, ◌++◌, arith,
}
use disagg_shmem_allocator.Word.{add64, sub64}
use disagg_shmem_allocator.Layout.{BlockHdr, Region}
use disagg_shmem_allocator.Heap.Seg.{Chunk, free, live}
use disagg_shmem_allocator.Heap.Splice.{Hole, update_at, update_outside}
use disagg_shmem_allocator.Heap.SameBut.{SameBut}
use disagg_shmem_allocator.Heap.Remove.{freelist_remove-Hole}
use disagg_shmem_allocator.Heap.Places.{LiveIn, Seg-extent, extent}
use disagg_shmem_allocator.Heap.Places.Middle.{
  Elsewhere, Elsewhere-apart, LiveIn-cases, LiveIn-around, LiveIn-this,
}
use disagg_shmem_allocator.Heap.State.{IsHeap}
use disagg_shmem_allocator.Heap.State.Release.{Placed}
use disagg_shmem_allocator.Resize.{extend}
use disagg_shmem_allocator.Resize.Extend.{
  linked, inside, grown, grown_hdr, blk2, grown-IsHeap, grown-Placed,
}
use disagg_shmem_allocator.Resize.Moved.{Moved}
use disagg_shmem_allocator.Resize.Change.{InPlace, InPlace-after, large_live, tag_live}
use disagg_shmem_allocator.Resize.InPlace.{trim_or_keep}

module _ (r : Region) (pre : List Chunk) (m k : ℕ) (post : List Chunk) (ho : ℕ)
    (i : IsHeap r (pre ++ live m ∷ free k ∷ post)) (p : Placed r pre m (free k ∷ post) ho) where
  abbrev old : List Chunk
  old = pre ++ live m ∷ free k ∷ post

  abbrev t : ℕ
  t = ho + m

  at : ho ≡ 0 + extent pre
  at = Seg-extent r.blk 0 pre ho r.hdr.free_list p.mid p.left

  big : 64 ≤ m
  big = p.this.block.large

  -- What is live elsewhere does not depend on where the free chunk ends.
  behind_both :
      (a j : ℕ) → Elsewhere pre (ho + m) (free k ∷ post) a j → Elsewhere pre (ho + (m + k)) post a j
  behind_both a j (inl l) = inl l
  behind_both a j (inr l) = inr (subst (λ o. LiveIn o post a j) (omega arith) l)

  before_both :
      (a j : ℕ) → Elsewhere pre (ho + (m + k)) post a j → Elsewhere pre (ho + m) (free k ∷ post) a j
  before_both a j (inl l) = inl l
  before_both a j (inr l) = inr (subst (λ o. LiveIn o post a j) (omega arith) l)

  module _ (r1 : Region) (h : Hole r1 (pre ++ live m ∷ []) k post t (r.size - r.hdr.data_offset))
      (s : SameBut t r r1) where
    abbrev g : Region
    g = grown r pre m k post ho i p r1 h s

    same_here : r1.blk ho ≡ r.blk ho
    same_here = s.headers ho (omega (arith, big)) p.this.tag

    here : g.blk ho ≡ record (r.blk ho) { total_size = m + k; payload_cap = sub64 (m + k) 56 }
    here =
        update_outside (blk2 r pre m k post ho i p r1 h s) t _ ho (omega (arith, big))
        ∙ update_at r1.blk ho (grown_hdr r pre m k post ho i p r1 h s)
        ∙ ap {A = BlockHdr} {B = BlockHdr}
            (λ x. record x { total_size = m + k; payload_cap = sub64 (m + k) 56 }) same_here

    kept :
        (a j : ℕ)
        → LiveIn 0 old a j
        → Elsewhere pre (ho + m) (free k ∷ post) a j
        → a ≢ ho
        → g.blk a ≡ r.blk a
    kept a j l other ne =
        let large = large_live r old a j i l in
        let out = Elsewhere-apart pre (ho + (m + k)) post ho a j at (behind_both a j other) in
        let no_t : a ≢ t = λ e. absurd (omega (arith, e, out, large, big, p.right.1.block.large)) in
        update_outside (blk2 r pre m k post ho i p r1 h s) t _ a (λ e. no_t (sym e))
        ∙ update_outside r1.blk ho (grown_hdr r pre m k post ho i p r1 h s) a (λ e. ne (sym e))
        ∙ s.headers a no_t (tag_live r old a j i l)

    whole : IsHeap g (pre ++ live (m + k) ∷ post)
    whole = grown-IsHeap r pre m k post ho i p r1 h s

    grown-Moved : Moved r g old (pre ++ live (m + k) ∷ post) ho ho
    grown-Moved = record {
      heap = whole;
      dir = s.dir;
      next_id = ap (λ x. x.next_id) s.hdr;
      capacity = ap (λ x. x.dir_capacity) s.hdr;
      owned = record {
        obj_id = ap (λ x. x.obj_id) here;
        owner = ap (λ x. x.owner) here;
        perms = ap (λ x. x.perms) here;
        type_tag = ap (λ x. x.type_tag) here;
      };
      bytes = λ j lt. ap (λ b. b (ho + 56 + j)) s.bytes;
      payloads = λ a c j l ne lt. ap (λ b. b (a + j)) s.bytes;
      block = m + k;
      place = LiveIn-this pre (m + k) post ho at;
      others = λ a j l ne. elim (LiveIn-cases pre m (free k ∷ post) ho at a j l) [
        | inl e ↦ absurd (ne (sym e.0))
        | inr other ↦ (
          LiveIn-around pre (m + k) post ho at a j (behind_both a j other),
          kept a j l other ne,
          ne,
        )
      ];
      only = λ a j l. elim (LiveIn-cases pre (m + k) post ho at a j l) [
        | inl e ↦ inl (sym e.0)
        | inr other ↦
            let large = large_live g (pre ++ live (m + k) ∷ post) a j whole l in
            inr (
              LiveIn-around pre m (free k ∷ post) ho at a j (before_both a j other),
              λ e. absurd (
                  omega (
                    arith,
                    e,
                    large,
                    big,
                    Elsewhere-apart pre (ho + (m + k)) post ho a j at other,
                  )),
            )
      ];
    }

    cap_grows : (r.blk ho).payload_cap ≤ (g.blk ho).payload_cap
    cap_grows = omega (
      arith,
      ap (λ x. x.payload_cap) here,
      p.this.block.fits,
      big,
      inside r pre m k post ho i p,
      i.bound,
    )

  -- Growing to `total` bytes, where block and successor have `total + rem` together.
  pub extend-InPlace :
      (total rem : ℕ)
      → total + rem ≡ m + k
      → 64 ≤ total
      → InPlace r old ho total (extend r ho total)
  unfolding extend
  extend-InPlace total rem sum enough =
      let (r1, run, h, s) =
        freelist_remove-Hole r (pre ++ live m ∷ []) k post t (r.size - r.hdr.data_offset)
          (linked r pre m k post ho i p) (omega arith) in
      let g' = g r1 h s in
      let whole' = subst (λ n. IsHeap g' (pre ++ live n ∷ post)) (sym sum) (whole r1 h s) in
      let place' =
        subst (λ n. Placed g' pre n post ho) (sym sum)
          (grown-Placed r pre m k post ho i p r1 h s) in
      let moved' =
        subst (λ n. Moved r g' old (pre ++ live n ∷ post) ho ho) (sym sum) (grown-Moved r1 h s) in
      rw (p.this.block.total, next_at, p.right.1.block.total, both, run, over)
        (InPlace-after (cap_grows r1 h s) moved'
          (trim_or_keep g' pre total rem post ho whole' place' enough))
    where
      in_heap : t + k ≤ r.size - r.hdr.data_offset
      in_heap = inside r pre m k post ho i p

      next_at : add64 ho m ≡ t
      next_at = omega (arith, in_heap, i.bound)

      both : add64 m k ≡ m + k
      both = omega (arith, in_heap, i.bound)

      over : sub64 (m + k) total ≡ rem
      over = omega (arith, sum, in_heap, i.bound)
