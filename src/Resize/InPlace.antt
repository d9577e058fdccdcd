-- ===== src/Resize/InPlace.antt =====
-- Shrinking and growing in place, the first two branches of `shm_resize` in src/shm_alloc.c, keep
-- the object where it is and everything else as it is.
use disagg_shmem_allocator.Base.{
  ℕ, ◌+◌, ◌-◌, ◌≤◌, ◌≡◌, ◌≢◌, refl, sym, ap, ◌∙◌, inl, inr, List, [], ◌∷◌, ◌++◌, arith, returns,
  if◌then◌else◌, Bool-cases, leb, leb→le,
}
use disagg_shmem_allocator.Word.{sub64}
use disagg_shmem_allocator.Layout.{BlockHdr, Region, update}
use disagg_shmem_allocator.Heap.{free_hdr}
use disagg_shmem_allocator.Heap.Seg.{Chunk, live, Seg-le}
use disagg_shmem_allocator.Heap.Splice.{update_at, update_outside}
use disagg_shmem_allocator.Heap.SameBut.{SameBut}
use disagg_shmem_allocator.Heap.Places.{LiveIn, Seg-extent, extent}
use disagg_shmem_allocator.Heap.Places.Middle.{
  Elsewhere, Elsewhere-apart, LiveIn-cases, LiveIn-around, LiveIn-this, cut-this, cut-around,
  cut-cases, cut_list,
}
use disagg_shmem_allocator.Heap.State.{IsHeap}
use disagg_shmem_allocator.Heap.State.Release.{Placed}
use disagg_shmem_allocator.Resize.{trim, shrink}
use disagg_shmem_allocator.Resize.Trim.{before, tail-extent, trim-SameBut}
use disagg_shmem_allocator.Resize.Moved.{Moved}
use disagg_shmem_allocator.Resize.Change.{large_live, tag_live, InPlace, kept-InPlace}

module _ (r : Region) (pre : List Chunk) (total rem : ℕ) (post : List Chunk) (ho : ℕ)
    (i : IsHeap r (pre ++ live (total + rem) ∷ post)) (p : Placed r pre (total + rem) post ho)
    (some_left : 64 ≤ total) (some_cut : 64 ≤ rem) where
  abbrev mid : Region
  mid = before r pre total rem post ho i p some_left some_cut

  pub at : ho ≡ 0 + extent pre
  at = Seg-extent r.blk 0 pre ho r.hdr.free_list p.mid p.left

  pub at_tail : ho + total ≡ 0 + extent (pre ++ live total ∷ [])
  at_tail = tail-extent r pre total rem post ho i p some_left some_cut

  mid_other : (a : ℕ) → a ≢ ho → a ≢ ho + total → mid.blk a ≡ r.blk a
  mid_other a no_ho no_tail =
      update_outside (update r.blk (ho + total) (free_hdr rem 0)) ho _ a (λ e. no_ho (sym e))
      ∙ update_outside r.blk (ho + total) (free_hdr rem 0) a (λ e. no_tail (sym e))

  mid_here : mid.blk ho ≡ record (r.blk ho) { total_size = total; payload_cap = sub64 total 56 }
  mid_here =
      update_at (update r.blk (ho + total) (free_hdr rem 0)) ho _
      ∙ ap {A = BlockHdr} {B = BlockHdr}
          (λ h. record h { total_size = total; payload_cap = sub64 total 56 })
          (update_outside r.blk (ho + total) (free_hdr rem 0) ho (omega arith))

  module _ (r' : Region)
      (heap : IsHeap r' (cut_list pre total rem post ho at at_tail some_left some_cut))
      (s : SameBut (ho + total) mid r') where
    here : r'.blk ho ≡ mid.blk ho
    here = s.headers ho (omega arith) (ap (λ h. h.allocated) mid_here ∙ p.this.tag)

    kept :
        (a k : ℕ)
        → LiveIn 0 (pre ++ live (total + rem) ∷ post) a k
        → Elsewhere pre (ho + (total + rem)) post a k
        → a ≢ ho
        → r'.blk a ≡ r.blk a
    kept a k l other ne =
        let big = large_live r (pre ++ live (total + rem) ∷ post) a k i l in
        let out = Elsewhere-apart pre (ho + (total + rem)) post ho a k at other in
        let no_tail : a ≢ ho + total = λ e. absurd (omega (arith, e, out, big)) in
        let same = mid_other a ne no_tail in
        s.headers a no_tail
          (ap (λ h. h.allocated) same ∙ tag_live r (pre ++ live (total + rem) ∷ post) a k i l)
        ∙ same

    trimmed-Moved :
        Moved r r'
          (pre ++ live (total + rem) ∷ post)
          (cut_list pre total rem post ho at at_tail some_left some_cut)
          ho
          ho
    trimmed-Moved = record {
      heap = heap;
      dir = s.dir;
      next_id = ap (λ h. h.next_id) s.hdr;
      capacity = ap (λ h. h.dir_capacity) s.hdr;
      owned = record {
        obj_id = ap (λ h. h.obj_id) (here ∙ mid_here);
        owner = ap (λ h. h.owner) (here ∙ mid_here);
        perms = ap (λ h. h.perms) (here ∙ mid_here);
        type_tag = ap (λ h. h.type_tag) (here ∙ mid_here);
      };
      bytes = λ j lt. ap (λ b. b (ho + 56 + j)) s.bytes;
      payloads = λ a k j l ne lt. ap (λ b. b (a + j)) s.bytes;
      block = total;
      place = cut-this pre total rem post ho at at_tail some_left some_cut;
      others = λ a k l ne. elim (LiveIn-cases pre (total + rem) post ho at a k l) [
        | inl e ↦ absurd (ne (sym e.0))
        | inr other ↦ (
          cut-around pre total rem post ho at at_tail some_left some_cut a k
              (omega (arith, large_live r (pre ++ live (total + rem) ∷ post) a k i l)) other,
          kept a k l other ne,
          ne,
        )
      ];
      only = λ a k l.
          let big = large_live r' _ a k heap l in
          elim (cut-cases pre total rem post ho at at_tail some_left some_cut a k
            (omega (arith, big)) l) [
              | inl e ↦ inl (sym e.0)
              | inr other ↦ inr (
                LiveIn-around pre (total + rem) post ho at a k other,
                λ e. absurd (
                    omega (
                      arith,
                      e,
                      big,
                      Elsewhere-apart pre (ho + (total + rem)) post ho a k at other,
                    )),
              )
            ];
    }

  pub trim-Moved :
      (r' : Region) × (trim r ho total rem ≡ returns r')
      × (m : Moved r r'
          (pre ++ live (total + rem) ∷ post)
          (cut_list pre total rem post ho at at_tail some_left some_cut)
          ho
          ho)
      × (m.block ≡ total)
  unfolding trimmed-Moved
  trim-Moved =
      let (r', run, heap, same) = trim-SameBut r pre total rem post ho i p some_left some_cut in
      (r', run, trimmed-Moved r' heap same, refl)

pub trim_or_keep :
    (r : Region) (pre : List Chunk) (total rem : ℕ) (post : List Chunk) (ho : ℕ)
    → IsHeap r (pre ++ live (total + rem) ∷ post)
    → Placed r pre (total + rem) post ho
    → 64 ≤ total
    → InPlace r
        (pre ++ live (total + rem) ∷ post)
        ho
        total
        (if leb 64 rem then trim r ho total rem else returns r)
trim_or_keep r pre total rem post ho i p big = elim (Bool-cases (leb 64 rem)) [
  | inl cut ↦
      let (r', run, m, block) = trim-Moved r pre total rem post ho i p big (leb→le 64 rem cut) in
      record {
        after = r';
        chunks = _;
        returned = rw cut run;
        moved = m;
        enough = omega (arith, block);
      }
  | inr small ↦ rw small (
      kept-InPlace r (pre ++ live (total + rem) ∷ post) ho total (total + rem) i
        (LiveIn-this pre (total + rem) post ho
          (Seg-extent r.blk 0 pre ho r.hdr.free_list p.mid p.left))
        (omega arith))
]

pub shrink-InPlace :
    (r : Region) (pre : List Chunk) (total rem : ℕ) (post : List Chunk) (ho : ℕ)
    → IsHeap r (pre ++ live (total + rem) ∷ post)
    → Placed r pre (total + rem) post ho
    → 64 ≤ total
    → InPlace r (pre ++ live (total + rem) ∷ post) ho total (shrink r ho total)
unfolding shrink
shrink-InPlace r pre total rem post ho i p big =
    let size : sub64 (r.blk ho).total_size total ≡ rem = omega (
      arith,
      p.this.block.total,
      i.bound,
      Seg-le r.blk (ho + (total + rem)) post (r.size - r.hdr.data_offset) p.mid 0 p.right,
    ) in
    rw (shrink, size) (trim_or_keep r pre total rem post ho i p big)
