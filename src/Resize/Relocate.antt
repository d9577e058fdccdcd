-- ===== src/Resize/Relocate.antt =====
-- Moving a block to where there is room, the third branch of `shm_resize` in src/shm_alloc.c.
use disagg_shmem_allocator.Base.{
  ℕ, ◌+◌, ◌-◌, ◌≤◌, ◌^◌, ◌<◌, ◌≡◌, ◌≢◌, refl, sym, ap, ◌∙◌, subst, ◌⊎◌, inl, inr, List, ◌++◌, arith,
  some, returns,
}
use disagg_shmem_allocator.Layout.{Region}
use disagg_shmem_allocator.Heap.{heap_alloc_block}
use disagg_shmem_allocator.Heap.Seg.{Chunk, IsLive}
use disagg_shmem_allocator.Heap.LastFree.{insert_free}
use disagg_shmem_allocator.Heap.Carve.{cut, taken}
use disagg_shmem_allocator.Heap.Agree.{Agrees, Agrees-of_eq, IsHeap-agree}
use disagg_shmem_allocator.Heap.Found.{Found, LiveIn-Found}
use disagg_shmem_allocator.Heap.Places.{
  LiveIn, LiveIn-disjoint, LiveIn-IsLive, LiveIn-apart, LiveIn-StartAt,
}
use disagg_shmem_allocator.Heap.Places.Taken.{LiveIn-taken, LiveIn-free_apart}
use disagg_shmem_allocator.Heap.Places.Freed.{LiveIn-freed}
use disagg_shmem_allocator.Heap.State.{IsHeap}
use disagg_shmem_allocator.Heap.State.Alloc.{Allocated}
use disagg_shmem_allocator.Heap.State.Release.{Freed, heap_free_block-Freed}
use disagg_shmem_allocator.Resize.{copy_block, relocate}
use disagg_shmem_allocator.Resize.Copy.{
  owned_as, copy_block-at, copy_block-out, copy_block-bytes, copy_block-bytes_out, copy_block-hdr,
  copy_block-size, copy_block-dir,
}
use disagg_shmem_allocator.Resize.Moved.{Moved}
use disagg_shmem_allocator.Resize.Change.{large_live, tag_live}

-- The region in which the new block has been taken at `at`, for a block whose capacity is no larger.
module _ (r r1 : Region) (cs : List Chunk) (ho m need at n : ℕ) (i : IsHeap r cs)
    (l : LiveIn 0 cs ho m) (a : Allocated r r1 need cs at n)
    (grows : (r.blk ho).payload_cap ≤ (r1.blk at).payload_cap) where
  abbrev cs1 : List Chunk
  cs1 = a.pre ++ (cut need n ++ a.post)

  abbrev size : ℕ
  size = taken need n

  taken-le : size ≤ n
  unfolding taken
  taken-le = ground (arith, a.enough)

  pub need-le : need ≤ size
  unfolding taken
  need-le = ground (arith, a.enough)

  still1 : (b k : ℕ) → LiveIn 0 cs b k → LiveIn 0 cs1 b k
  still1 b k h =
      (LiveIn-taken a.pre need n a.post at a.place b k a.enough).0
        (inr (subst (λ t. LiveIn 0 t b k) a.parts h))

  new1 : LiveIn 0 cs1 at size
  new1 = (LiveIn-taken a.pre need n a.post at a.place at size a.enough).0 (inl (refl, refl))

  -- A block that was live lies outside the new one.
  outside : (b k : ℕ) → LiveIn 0 cs b k → (b + 56 ≤ at) ⊎ (at + n ≤ b)
  outside b k h =
      let big = large_live r cs b k i h in
      elim (LiveIn-apart 0 cs1 b k at (still1 b k h) (LiveIn-StartAt 0 cs1 at size new1)) [
        | inl e ↦ absurd (
            omega (
              arith,
              e,
              LiveIn-free_apart a.pre need n a.post at a.place b k (omega (arith, big))
                  (subst (λ t. LiveIn 0 t b k) a.parts h),
              taken-le,
              large_live r1 cs1 at size a.heap new1,
            ))
        | inr out ↦ omega (
          arith,
          out,
          big,
          LiveIn-free_apart a.pre need n a.post at a.place b k (omega (arith, big))
              (subst (λ t. LiveIn 0 t b k) a.parts h),
        )
      ]

  new_live : IsLive (r1.blk at) size × (at + size ≤ r1.size - r1.hdr.data_offset)
  new_live =
      LiveIn-IsLive r1.blk 0 cs1 (r1.size - r1.hdr.data_offset) r1.hdr.free_list 0 at size
        a.heap.chunks new1

  same1 : (b k : ℕ) → LiveIn 0 cs b k → r1.blk b ≡ r.blk b
  same1 b k h = a.takes.headers b (omega (arith, outside b k h)) (tag_live r cs b k i h)

  old_same : r1.blk ho ≡ r.blk ho
  old_same = same1 ho m l

  apart : (ho + 56 ≤ at) ⊎ (at + size ≤ ho)
  apart = omega (arith, outside ho m l, taken-le)

  grows1 : (r1.blk ho).payload_cap ≤ (r1.blk at).payload_cap
  grows1 = omega (arith, ap (λ h. h.payload_cap) old_same, grows)

  small : at + size < 2 ^ 64
  small = omega (arith, new_live.1, a.heap.bound)

  -- The region once the payload has been copied.
  abbrev r2 : Region
  r2 = copy_block r1 ho at

  copied_at : r2.blk at ≡ owned_as (r1.blk at) (r1.blk ho)
  copied_at = copy_block-at r1 ho at size apart grows1 new_live.0.block.fits small

  copied_out : (b : ℕ) → (b < at) ⊎ (at + size ≤ b) → r2.blk b ≡ r1.blk b
  copied_out = copy_block-out r1 ho at size apart grows1 new_live.0.block.fits small

  agree : (b : ℕ) → (b ≡ at) ⊎ ((b < at) ⊎ (at + size ≤ b)) → Agrees (r1.blk b) (r2.blk b)
  agree b (inl e) =
      subst (λ t. Agrees (r1.blk t) (r2.blk t)) (sym e)
        (subst (Agrees (r1.blk at)) (sym copied_at)
          (record { magic = refl; allocated = refl; total = refl; cap = refl; next = refl }))
  agree b (inr out) = Agrees-of_eq (copied_out b out)

  hdr2 : r2.hdr ≡ r1.hdr
  hdr2 = copy_block-hdr r1 ho at size apart grows1 new_live.0.block.fits small

  heap2 : IsHeap r2 cs1
  heap2 =
      IsHeap-agree r1 r2 cs1
        (copy_block-size r1 ho at size apart grows1 new_live.0.block.fits small)
        (ap (λ h. h.data_offset) hdr2) (ap (λ h. h.free_list) hdr2) (ap (λ h. h.used_bytes) hdr2)
        (ap (λ h. h.block_count) hdr2) (λ b s. agree b (LiveIn-apart 0 cs1 at size b new1 s)) a.heap

  -- The old block, found again in the heap with the new one.
  p : Found r2 cs1 ho m
  p = LiveIn-Found r2 cs1 ho m heap2 (still1 ho m l)

  module _ (r3 : Region) (f : Freed r2 r3 p.pre m p.post ho) where
    abbrev cs3 : List Chunk
    cs3 = insert_free p.pre m p.post

    to_freed : (b k : ℕ) → LiveIn 0 cs1 b k → b ≢ ho → LiveIn 0 cs3 b k
    to_freed b k h ne =
        (LiveIn-freed p.pre m p.post ho p.at b k (large_live r cs ho m i l)
            (omega (arith, large_live r2 cs1 b k heap2 h))).0
          (subst (λ t. LiveIn 0 t b k) p.parts h, ne)

    of_freed : (b k : ℕ) → LiveIn 0 cs3 b k → LiveIn 0 cs1 b k × (b ≢ ho)
    of_freed b k h =
        let (was, ne) =
          (LiveIn-freed p.pre m p.post ho p.at b k (large_live r cs ho m i l)
              (omega (arith, large_live r3 cs3 b k f.heap h))).1
            h in
        (subst (λ t. LiveIn 0 t b k) (sym p.parts) was, ne)

    at_ne : at ≢ ho
    at_ne e = absurd (omega (arith, e, apart, new_live.0.block.large))

    same2 : (b k : ℕ) → LiveIn 0 cs1 b k → b ≢ ho → r3.blk b ≡ r2.blk b
    same2 b k h ne = f.same.headers b ne (tag_live r2 cs1 b k heap2 h)

    moved_hdr : r3.blk at ≡ owned_as (r1.blk at) (r1.blk ho)
    moved_hdr = same2 at size new1 at_ne ∙ copied_at

    relocated-Moved : Moved r r3 cs cs3 ho at
    relocated-Moved = record {
      heap = f.heap;
      dir =
          f.same.dir
          ∙ copy_block-dir r1 ho at size apart grows1 new_live.0.block.fits small
          ∙ a.takes.dir;
      next_id =
          ap (λ h. h.next_id) f.same.hdr
          ∙ ap (λ h. h.next_id) hdr2
          ∙ ap (λ h. h.next_id) a.takes.hdr;
      capacity =
          ap (λ h. h.dir_capacity) f.same.hdr
          ∙ ap (λ h. h.dir_capacity) hdr2
          ∙ ap (λ h. h.dir_capacity) a.takes.hdr;
      owned = record {
        obj_id = ap (λ h. h.obj_id) moved_hdr ∙ ap (λ h. h.obj_id) old_same;
        owner = ap (λ h. h.owner) moved_hdr ∙ ap (λ h. h.owner) old_same;
        perms = ap (λ h. h.perms) moved_hdr ∙ ap (λ h. h.perms) old_same;
        type_tag = ap (λ h. h.type_tag) moved_hdr ∙ ap (λ h. h.type_tag) old_same;
      };
      bytes = λ j lt.
          ap (λ b. b (at + 56 + j)) f.same.bytes
          ∙ copy_block-bytes r1 ho at size apart grows1 new_live.0.block.fits small j
              (omega (arith, lt, ap (λ h. h.payload_cap) old_same))
          ∙ ap (λ b. b (ho + 56 + j)) a.takes.bytes;
      payloads = λ b k j h ne lt.
          ap (λ f'. f' (b + j)) f.same.bytes
          ∙ copy_block-bytes_out r1 ho at size apart grows1 new_live.0.block.fits small (b + j) (
              omega (
                arith,
                lt,
                outside b k h,
                taken-le,
                LiveIn-disjoint cs1 b k at size (still1 b k h) new1,
              ))
          ∙ ap (λ f'. f' (b + j)) a.takes.bytes;
      block = size;
      place = to_freed at size new1 at_ne;
      others = λ b k h ne.
          let big = large_live r cs b k i h in
          let out = outside b k h in
          (
            to_freed b k (still1 b k h) ne,
            same2 b k (still1 b k h) ne ∙ copied_out b (omega (arith, out, taken-le)) ∙ same1 b k h,
            λ e. absurd (omega (arith, e, out, taken-le, new_live.0.block.large)),
          );
      only = λ b k h.
          let (was, ne) = of_freed b k h in
          elim ((LiveIn-taken a.pre need n a.post at a.place b k a.enough).1 was) [
            | inl e ↦ inl e.0
            | inr q ↦ inr (subst (λ t. LiveIn 0 t b k) (sym a.parts) q, ne)
          ];
    }

  -- The object has moved to the new block, and the old block has been freed.
  pub relocate-Moved :
      heap_alloc_block r need ≡ returns (r1, some at)
      → (r3 : Region) × (cs3 : List Chunk) × (relocate r ho need ≡ returns (r3, some at))
        × (m' : Moved r r3 cs cs3 ho at) × (need ≤ m'.block)
  unfolding relocate relocated-Moved
  relocate-Moved run =
      let (r3, freed, f) =
        heap_free_block-Freed r2 p.pre m p.post ho (subst (IsHeap r2) p.parts heap2) p.placed in
      (r3, cs3 r3 f, rw (relocate, run, freed) refl, relocated-Moved r3 f, need-le)
