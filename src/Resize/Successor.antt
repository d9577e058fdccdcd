-- ===== src/Resize/Successor.antt =====
-- The block behind an object, where `shm_resize` of src/shm_alloc.c grows the object into it.
use disagg_shmem_allocator.Base.{
  ℕ, ◌+◌, ◌-◌, ◌^◌, ◌≤◌, ◌<◌, ◌≡◌, refl, sym, ap, ◌∙◌, List, [], ◌∷◌, arith, true,
}
use disagg_shmem_allocator.Word.{add64}
use disagg_shmem_allocator.Layout.{Region, heap_size}
use disagg_shmem_allocator.Heap.Seg.{Chunk, free, live, Seg}
use disagg_shmem_allocator.Resize.{can_extend}

-- What the code's test of the successor says of the chunk behind the block.
pub record NextFree (post : List Chunk) (m total : ℕ) : Type 0 where
  pub k : ℕ
  pub rest : List Chunk
  pub parts : post ≡ free k ∷ rest
  pub enough : total ≤ m + k

can_extend-facts :
    (r : Region) (ho total : ℕ)
    → can_extend r ho total ≡ true
    → let next = add64 ho (r.blk ho).total_size in
      (add64 next 56 < heap_size r)
      × ((r.blk next).allocated ≡ 0)
      × (total ≤ add64 (r.blk ho).total_size (r.blk next).total_size)
unfolding can_extend
can_extend-facts r ho total can = ground arith

heap_size_lem :
    (r : Region)
    → r.hdr.data_offset ≤ r.size
    → r.size < 2 ^ 63
    → heap_size r ≡ r.size - r.hdr.data_offset
unfolding heap_size
heap_size_lem r off bound = omega arith

next_free :
    (r : Region) (post : List Chunk) (next m mid total : ℕ)
    → r.size - r.hdr.data_offset < 2 ^ 63
    → m < 2 ^ 63
    → next + 56 < r.size - r.hdr.data_offset
    → (r.blk next).allocated ≡ 0
    → total ≤ add64 m (r.blk next).total_size
    → Seg r.blk next post (r.size - r.hdr.data_offset) mid 0
    → NextFree post m total
next_free r [] next m mid total bound fits room tag sum s = absurd (omega (arith, s.0))
next_free r (live n ∷ post) next m mid total bound fits room tag sum s =
    absurd (omega (arith, s.0.tag, tag))
next_free r (free n ∷ post) next m mid total bound fits room tag sum s = record {
  k = n;
  rest = post;
  parts = refl;
  enough = omega (arith, sum, s.1.block.total);
}

pub can_extend-NextFree :
    (r : Region) (post : List Chunk) (ho m mid total : ℕ)
    → r.hdr.data_offset ≤ r.size
    → r.size < 2 ^ 63
    → (r.blk ho).total_size ≡ m
    → ho + m ≤ r.size - r.hdr.data_offset
    → Seg r.blk (ho + m) post (r.size - r.hdr.data_offset) mid 0
    → can_extend r ho total ≡ true
    → NextFree post m total
can_extend-NextFree r post ho m mid total off bound size inside s can =
    let (room, tag, sum) = can_extend-facts r ho total can in
    let here : add64 ho (r.blk ho).total_size ≡ ho + m = omega (arith, size) in
    next_free r post (ho + m) m mid total (omega arith) (omega arith)
      (omega (arith, room, here, heap_size_lem r off bound))
      (ap (λ t. (r.blk t).allocated) (sym here) ∙ tag)
      (omega (arith, sum, size, ap (λ t. (r.blk t).total_size) here)) s
