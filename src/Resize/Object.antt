-- ===== src/Resize/Object.antt =====
-- `shm_resize` of src/shm_alloc.c on an object, on every branch.
use disagg_shmem_allocator.Base.{
  ℕ, ◌+◌, ◌-◌, ◌^◌, ◌≤◌, ◌<◌, ◌≡◌, ◌≢◌, refl, sym, ap, ◌∙◌, subst, inl, inr, List, ◌∷◌, ◌++◌, arith,
  true, false, some, Run, returns, Bool-cases, leb, leb→le, leb_false→gt, ne→==, eq→==,
}
use disagg_shmem_allocator.Word.{add64, sub64}
use disagg_shmem_allocator.Layout.{ObjEntry, Region, poff_of_hoff, set_slot}
use disagg_shmem_allocator.Heap.{heap_alloc_block}
use disagg_shmem_allocator.Heap.Seg.{Chunk, free, live, IsLive}
use disagg_shmem_allocator.Heap.Fit.{TooSmall}
use disagg_shmem_allocator.Heap.Found.{Found, LiveIn-Found}
use disagg_shmem_allocator.Heap.State.{IsHeap}
use disagg_shmem_allocator.Heap.State.Alloc.{
  Allocated, exhausted, gives, heap_alloc_block-Allocates,
}
use disagg_shmem_allocator.Heap.State.Release.{Placed}
use disagg_shmem_allocator.Heap.Places.{LiveIn-IsLive}
use disagg_shmem_allocator.Access.{success, enomem}
use disagg_shmem_allocator.Objects.{total_for}
use disagg_shmem_allocator.Objects.Alloc.{total_for_bounds}
use disagg_shmem_allocator.Objects.Invariant.{Backed, IsRegion}
use disagg_shmem_allocator.Resize.{shrink, extend, can_extend, relocate, set_sizes, resize_block}
use disagg_shmem_allocator.Resize.Successor.{NextFree, can_extend-NextFree}
use disagg_shmem_allocator.Resize.Change.{InPlace}
use disagg_shmem_allocator.Resize.InPlace.{shrink-InPlace}
use disagg_shmem_allocator.Resize.Grow.{extend-InPlace}
use disagg_shmem_allocator.Resize.Relocate.{relocate-Moved}
use disagg_shmem_allocator.Resize.Moved.{
  Moved, Entered, Moved-IsRegion, cap_same, kept, dir_at, dir_other,
}
use disagg_shmem_allocator.Resize.Outcome.{Resized}

module _ (r : Region) (cs : List Chunk) (slot new_size : ℕ) (inv : IsRegion r cs)
    (room : slot < r.hdr.dir_capacity) (alive : (r.dir slot).alive ≢ 0) (some_bytes : new_size ≢ 0)
    (small : new_size + 64 < 2 ^ 64) where
  pub own : Backed r cs (r.dir slot)
  own = inv.entries slot room alive

  abbrev ho : ℕ
  ho = own.at

  abbrev total : ℕ
  total = total_for new_size

  module _ (r1 r' : Region) (cs' : List Chunk) (at : ℕ) (m : Moved r r1 cs cs' ho at)
      (e : Entered r1 r' slot at new_size) (enough : total ≤ m.block) where
    Resized-moved : Resized r r' cs slot new_size
    Resized-moved = record {
      cs' = cs';
      valid = Moved-IsRegion r r1 r' cs cs' ho at slot new_size inv own.off room alive m e;
      at = at;
      block = m.block;
      place = m.place;
      holds = omega (arith, enough, (total_for_bounds new_size some_bytes small).1);
      cap = (r1.blk at).payload_cap;
      entry = dir_at r r1 r' cs cs' ho at slot new_size inv own.off room alive m e;
      dir_capacity = cap_same r r1 r' cs cs' ho at slot new_size inv own.off room alive m e;
      room = room;
      bytes = λ i lt lt'.
          ap (λ b. b (at + 56 + i)) e.bytes
          ∙ m.bytes i (omega (arith, lt, own.mirror.cap))
          ∙ ap (λ o. r.bytes (o + i)) (sym own.off);
      others = dir_other r r1 r' cs cs' ho at slot new_size inv own.off room alive m e;
      blocks = λ a k l ne.
          let (l', same, _) =
            kept r r1 r' cs cs' ho at slot new_size inv own.off room alive m e a k l
              (λ q. ne (omega (arith, q, own.off))) in
          (l', same);
      payloads = λ a k i l ne lt.
          ap (λ b. b (a + i)) e.bytes ∙ m.payloads a k i l (λ q. ne (omega (arith, q, own.off))) lt;
    }

  -- What happens to the object's block.
  pub data Block : Type 0 where
    exhausted_block :
        TooSmall total cs → resize_block r slot ho new_size ≡ returns (r, enomem) → Block
    resized_block :
        (r' : Region)
        → Resized r r' cs slot new_size
        → resize_block r slot ho new_size ≡ returns (r', success)
        → Block
    overrun_block :
        (r1 : Region) (at : ℕ)
        → leb total (r.blk ho).total_size ≡ false
        → can_extend r ho total ≡ false
        → heap_alloc_block r total ≡ returns (r1, some at)
        → (r1.blk at).payload_cap < (r.dir slot).capacity
        → 2 ^ 63 < sub64 (r1.blk at).payload_cap (r.dir slot).capacity
        → Block

  in_place :
      (run : Run Region) (t : InPlace r cs ho total run)
      → Resized r (set_sizes t.after slot ho new_size) cs slot new_size
  in_place run t =
      Resized-moved t.after (set_sizes t.after slot ho new_size) t.chunks ho t.moved
        (record {
          size = refl;
          hdr = refl;
          blk = refl;
          bytes = refl;
          at_slot = rw (eq→== slot slot refl) (
              ap {A = ℕ} {B = ObjEntry}
                (λ o. record (t.after.dir slot) {
                  off = o;
                  capacity = (t.after.blk ho).payload_cap;
                  used_size = new_size;
                })
                (ap (λ d. (d slot).off) t.moved.dir ∙ own.off));
          other = λ i ne. rw (ne→== slot i (λ q. ne (sym q))) refl;
        })
        t.enough

  found : Found r cs ho own.size
  found = LiveIn-Found r cs ho own.size inv.heap own.place

  at_live : IsLive (r.blk ho) own.size × (ho + own.size ≤ r.size - r.hdr.data_offset)
  at_live =
      LiveIn-IsLive r.blk 0 cs (r.size - r.hdr.data_offset) r.hdr.free_list 0 ho own.size
        inv.heap.chunks own.place

  shrinks : leb total (r.blk ho).total_size ≡ true → Block
  unfolding resize_block
  shrinks fits =
      resized_block (set_sizes t.after slot ho new_size) (in_place (shrink r ho total) t)
        (rw (fits, t.returned) refl)
    where
      sum : own.size ≡ total + (own.size - total)
      sum = omega (arith, leb→le _ _ fits, at_live.0.block.total)

      t : InPlace r cs ho total (shrink r ho total)
      t =
          subst (λ c. InPlace r c ho total (shrink r ho total))
            (sym (found.parts ∙ ap (λ n. found.pre ++ live n ∷ found.post) sum))
            (shrink-InPlace r found.pre total (own.size - total) found.post ho
              (subst (λ n. IsHeap r (found.pre ++ live n ∷ found.post)) sum
                (subst (IsHeap r) found.parts inv.heap))
              (subst (λ n. Placed r found.pre n found.post ho) sum found.placed)
              (total_for_bounds new_size some_bytes small).0)

  grows : leb total (r.blk ho).total_size ≡ false → can_extend r ho total ≡ true → Block
  unfolding resize_block
  grows larger can =
      resized_block (set_sizes t.after slot ho new_size) (in_place (extend r ho total) t)
        (rw (larger, can, t.returned) refl)
    where
      next : NextFree found.post own.size total
      next =
          can_extend-NextFree r found.post ho own.size found.placed.mid total inv.heap.offset
            inv.heap.bound at_live.0.block.total at_live.1 found.placed.right can

      parts' : cs ≡ found.pre ++ live own.size ∷ free next.k ∷ next.rest
      parts' = found.parts ∙ ap (λ c. found.pre ++ live own.size ∷ c) next.parts

      t : InPlace r cs ho total (extend r ho total)
      t =
          subst (λ c. InPlace r c ho total (extend r ho total)) (sym parts')
            (extend-InPlace r found.pre own.size next.k next.rest ho
              (subst (IsHeap r) parts' inv.heap)
              (subst (λ c. Placed r found.pre own.size c ho) next.parts found.placed) total
              (own.size + next.k - total) (omega (arith, next.enough))
              (total_for_bounds new_size some_bytes small).0)

  -- The directory after the block has moved to `at`.
  abbrev moved_to : Region → ℕ → Region
  moved_to r3 at =
      set_sizes (set_slot r3 slot (record (r3.dir slot) { off = poff_of_hoff at })) slot at new_size

  moved_to-Entered :
      (r3 : Region) (at : ℕ) → add64 at 56 ≡ at + 56 → Entered r3 (moved_to r3 at) slot at new_size
  moved_to-Entered r3 at off = record {
    size = refl;
    hdr = refl;
    blk = refl;
    bytes = refl;
    at_slot = rw (eq→== slot slot refl) (
        ap {A = ℕ} {B = ObjEntry}
          (λ o. record (r3.dir slot) {
            off = o;
            capacity = (r3.blk at).payload_cap;
            used_size = new_size;
          })
          off);
    other = λ i ne. rw (ne→== slot i (λ q. ne (sym q))) refl;
  }

  relocates :
      (r1 : Region) (at n : ℕ) (a : Allocated r r1 total cs at n)
      → leb total (r.blk ho).total_size ≡ false
      → can_extend r ho total ≡ false
      → heap_alloc_block r total ≡ returns (r1, some at)
      → (r.blk ho).payload_cap ≤ (r1.blk at).payload_cap
      → Block
  unfolding resize_block
  relocates r1 at n a larger cannot run grow =
      let (r3, cs3, moved, m, enough) =
        relocate-Moved r r1 cs ho own.size total at n inv.heap own.place a grow run in
      let off : add64 at 56 ≡ at + 56 = omega (
        arith,
        (LiveIn-IsLive r3.blk 0 cs3 (r3.size - r3.hdr.data_offset) r3.hdr.free_list 0 at m.block
            m.heap.chunks m.place).1,
        m.heap.bound,
      ) in
      resized_block (moved_to r3 at)
        (Resized-moved r3 (moved_to r3 at) cs3 at m (moved_to-Entered r3 at off) enough)
        (rw (larger, cannot, moved) refl)

  moves : leb total (r.blk ho).total_size ≡ false → can_extend r ho total ≡ false → Block
  unfolding resize_block relocate
  moves larger cannot =
      elim (heap_alloc_block-Allocates r total cs inv.heap
        (total_for_bounds new_size some_bytes small).0) [
          | exhausted t _ run ↦ exhausted_block t (rw (larger, cannot, relocate, run) refl)
          | gives r1 at n a _ run ↦
              elim (Bool-cases (leb (r.blk ho).payload_cap (r1.blk at).payload_cap)) [
                | inl grow ↦ relocates r1 at n a larger cannot run (leb→le _ _ grow)
                | inr stale ↦
                    let less = leb_false→gt _ _ stale in
                    overrun_block r1 at larger cannot run (omega (arith, less, own.mirror.cap)) (
                      omega (
                        arith, less, own.mirror.cap, at_live.0.block.fits, at_live.1,
                        inv.heap.bound,
                      ))
              ]
        ]

  pub resize_block-Block : Block
  resize_block-Block = elim (Bool-cases (leb total (r.blk ho).total_size)) [
    | inl fits ↦ shrinks fits
    | inr larger ↦ elim (Bool-cases (can_extend r ho total)) [
      | inl can ↦ grows larger can
      | inr cannot ↦ moves larger cannot
    ]
  ]
