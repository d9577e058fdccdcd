-- ===== src/Heap/Agree.antt =====
-- The invariant of the heap reads five fields of the headers at the starts of chunks.
use disagg_shmem_allocator.Base.{ℕ, ◌+◌, ◌≡◌, ap, ◌∙◌, inl, inr, List, [], ◌∷◌, refl, arith, ◌-◌}
use disagg_shmem_allocator.Layout.{BlockHdr, Region}
use disagg_shmem_allocator.Heap.Seg.{Chunk, free, live, IsBlock, Seg}
use disagg_shmem_allocator.Heap.Places.{StartAt}
use disagg_shmem_allocator.Heap.State.{IsHeap}

pub record Agrees (h h' : BlockHdr) : Type 0 where
  pub magic : h'.magic ≡ h.magic
  pub allocated : h'.allocated ≡ h.allocated
  pub total : h'.total_size ≡ h.total_size
  pub cap : h'.payload_cap ≡ h.payload_cap
  pub next : h'.next_free ≡ h.next_free

pub Agrees-of_eq : {h h' : BlockHdr} → h' ≡ h → Agrees h h'
Agrees-of_eq e = record {
  magic = ap (λ t. t.magic) e;
  allocated = ap (λ t. t.allocated) e;
  total = ap (λ t. t.total_size) e;
  cap = ap (λ t. t.payload_cap) e;
  next = ap (λ t. t.next_free) e;
}

IsBlock-agree : {h h' : BlockHdr} {n : ℕ} → Agrees h h' → IsBlock h n → IsBlock h' n
IsBlock-agree g b = record {
  magic = g.magic ∙ b.magic;
  total = g.total ∙ b.total;
  large = b.large;
  fits = omega (arith, g.cap, b.fits);
}

pub Seg-agree :
    (blk blk' : ℕ → BlockHdr) (o : ℕ) (cs : List Chunk) (e lnk out : ℕ)
    → ((a : ℕ) → StartAt o cs a → Agrees (blk a) (blk' a))
    → Seg blk o cs e lnk out
    → Seg blk' o cs e lnk out
Seg-agree blk blk' o [] e lnk out g s = s
Seg-agree blk blk' o (free n ∷ cs) e lnk out g s =
    let here = g o (inl refl) in
    (
      s.0,
      record { block = IsBlock-agree here s.1.block; tag = here.allocated ∙ s.1.tag },
      rw here.next (Seg-agree blk blk' (o + n) cs e (blk o).next_free out (λ a p. g a (inr p)) s.2),
    )
Seg-agree blk blk' o (live n ∷ cs) e lnk out g s =
    let here = g o (inl refl) in
    (
      record { block = IsBlock-agree here s.0.block; tag = here.allocated ∙ s.0.tag },
      Seg-agree blk blk' (o + n) cs e lnk out (λ a p. g a (inr p)) s.1,
    )

-- A region whose chunk headers agree and whose counters are the same has the same heap.
pub IsHeap-agree :
    (r r' : Region) (cs : List Chunk)
    → r'.size ≡ r.size
    → r'.hdr.data_offset ≡ r.hdr.data_offset
    → r'.hdr.free_list ≡ r.hdr.free_list
    → r'.hdr.used_bytes ≡ r.hdr.used_bytes
    → r'.hdr.block_count ≡ r.hdr.block_count
    → ((a : ℕ) → StartAt 0 cs a → Agrees (r.blk a) (r'.blk a))
    → IsHeap r cs
    → IsHeap r' cs
IsHeap-agree r r' cs es ed ef eu ec g i = record {
  offset = rw (es, ed) i.offset;
  bound = rw es i.bound;
  chunks =
      rw (es, ed, ef)
        (Seg-agree r.blk r'.blk 0 cs (r.size - r.hdr.data_offset) r.hdr.free_list 0 g i.chunks);
  apart = i.apart;
  used = eu ∙ i.used;
  count = ec ∙ i.count;
}
