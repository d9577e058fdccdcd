-- ===== src/Resize/Change.antt =====
-- A change of a block in place, in `shm_resize` of src/shm_alloc.c: one after another, and none at all.
use disagg_shmem_allocator.Base.{
  ℕ, ◌-◌, ◌≤◌, ◌≡◌, ◌≢◌, refl, ◌∙◌, ◌⊎◌, inl, inr, List, arith, returns, Run,
}
use native.Mathlib.Decide.{ℕ_discrete}
use disagg_shmem_allocator.Layout.{Region}
use disagg_shmem_allocator.Heap.Seg.{Chunk}
use disagg_shmem_allocator.Heap.Places.{LiveIn, LiveIn-IsLive}
use disagg_shmem_allocator.Heap.State.{IsHeap}
use disagg_shmem_allocator.Resize.Moved.{Moved}

pub large_live : (r : Region) (cs : List Chunk) (a k : ℕ) → IsHeap r cs → LiveIn 0 cs a k → 64 ≤ k
large_live r cs a k i l =
    (LiveIn-IsLive r.blk 0 cs (r.size - r.hdr.data_offset) r.hdr.free_list 0 a k i.chunks
      l).0.block.large

pub tag_live :
    (r : Region) (cs : List Chunk) (a k : ℕ)
    → IsHeap r cs
    → LiveIn 0 cs a k
    → (r.blk a).allocated ≡ 1
tag_live r cs a k i l =
    (LiveIn-IsLive r.blk 0 cs (r.size - r.hdr.data_offset) r.hdr.free_list 0 a k i.chunks l).0.tag

Moved-trans :
    {r r1 r2 : Region} {cs cs1 cs2 : List Chunk} {ho : ℕ}
    → (r.blk ho).payload_cap ≤ (r1.blk ho).payload_cap
    → Moved r r1 cs cs1 ho ho
    → Moved r1 r2 cs1 cs2 ho ho
    → Moved r r2 cs cs2 ho ho
Moved-trans grows m n = record {
  heap = n.heap;
  dir = n.dir ∙ m.dir;
  next_id = n.next_id ∙ m.next_id;
  capacity = n.capacity ∙ m.capacity;
  owned = record {
    obj_id = n.owned.obj_id ∙ m.owned.obj_id;
    owner = n.owned.owner ∙ m.owned.owner;
    perms = n.owned.perms ∙ m.owned.perms;
    type_tag = n.owned.type_tag ∙ m.owned.type_tag;
  };
  bytes = λ i lt. n.bytes i (omega (arith, grows, lt)) ∙ m.bytes i lt;
  block = n.block;
  place = n.place;
  others = λ a k l ne.
      let (l1, s1, n1) = m.others a k l ne in
      let (l2, s2, n2) = n.others a k l1 n1 in (l2, s2 ∙ s1, n2);
  payloads = λ a k i l ne lt.
      let (l1, s1, n1) = m.others a k l ne in n.payloads a k i l1 n1 lt ∙ m.payloads a k i l ne lt;
  only = λ a k l. elim (n.only a k l) [
    | inl e ↦ inl e
    | inr (l1, n1) ↦ elim (m.only a k l1) [ inl e ↦ absurd (n1 e) | inr p ↦ inr p ]
  ];
}

Moved-refl :
    (r : Region) (cs : List Chunk) (ho k : ℕ)
    → IsHeap r cs
    → LiveIn 0 cs ho k
    → Moved r r cs cs ho ho
Moved-refl r cs ho k i l = record {
  heap = i;
  dir = refl;
  next_id = refl;
  capacity = refl;
  owned = record { obj_id = refl; owner = refl; perms = refl; type_tag = refl };
  bytes = λ j lt. refl;
  block = k;
  place = l;
  others = λ a j h ne. (h, refl, ne);
  payloads = λ a k j h ne lt. refl;
  only = λ a j h. same_or_other a j h;
}
  where
    same_or_other : (a j : ℕ) → LiveIn 0 cs a j → (a ≡ ho) ⊎ (LiveIn 0 cs a j × (a ≢ ho))
    same_or_other a j h = elim (ℕ_discrete a ho) [ yes e ↦ inl e | no ne ↦ inr (h, ne) ]

-- The outcome of a change in place to `total` bytes or more.
pub record InPlace (r : Region) (cs : List Chunk) (ho total : ℕ) (run : Run Region) : Type 0 where
  pub after : Region
  pub chunks : List Chunk
  pub returned : run ≡ returns after
  pub moved : Moved r after cs chunks ho ho
  pub enough : total ≤ moved.block

-- A change in place after one that has not made the capacity smaller.
pub InPlace-after :
    {r r1 : Region} {cs cs1 : List Chunk} {ho total : ℕ} {run : Run Region}
    → (r.blk ho).payload_cap ≤ (r1.blk ho).payload_cap
    → Moved r r1 cs cs1 ho ho
    → InPlace r1 cs1 ho total run
    → InPlace r cs ho total run
unfolding Moved-trans
InPlace-after grows m n = record {
  after = n.after;
  chunks = n.chunks;
  returned = n.returned;
  moved = Moved-trans grows m n.moved;
  enough = n.enough;
}

-- A block that is large enough already.
pub kept-InPlace :
    (r : Region) (cs : List Chunk) (ho total k : ℕ)
    → IsHeap r cs
    → LiveIn 0 cs ho k
    → total ≤ k
    → InPlace r cs ho total (returns r)
unfolding Moved-refl
kept-InPlace r cs ho total k i l enough = record {
  after = r;
  chunks = cs;
  returned = refl;
  moved = Moved-refl r cs ho k i l;
  enough = enough;
}
