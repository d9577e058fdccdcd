-- ===== src/Heap/State/Alloc.antt =====
-- `heap_alloc_block` refines first fit on the list of chunks, and keeps the invariant.
use disagg_shmem_allocator.Base.{
  ℕ, suc, ◌+◌, ◌-◌, ◌^◌, ◌≤◌, ◌<◌, ◌≡◌, refl, ap, ◌∙◌, subst, List, [], ◌∷◌, ◌++◌, arith, none,
  some, returns, le→leb, gt→leb,
}
use disagg_shmem_allocator.Layout.{BlockHdr, Region}
use disagg_shmem_allocator.Heap.{fuel, carve, heap_alloc_block}
use disagg_shmem_allocator.Heap.Seg.{Chunk, free, live, Seg, Seg-length}
use disagg_shmem_allocator.Heap.Links.{last_link}
use disagg_shmem_allocator.Heap.Fit.{TooSmall, Fit, nothing, found, find_fit-Finds}
use disagg_shmem_allocator.Heap.Carve.{cut, carve-Seg}
use disagg_shmem_allocator.Heap.Taken.{Taken, carve-Taken}
use disagg_shmem_allocator.Heap.Places.{extent, Seg-extent}
use disagg_shmem_allocator.Heap.Chunks.{
  live_bytes, live_count, Coalesced, first_fit, first_fit-none, live_bytes-append,
  live_count-append, Coalesced-cut, live_bytes-cut, live_count-cut, live_bytes-free,
  live_count-free,
}
use disagg_shmem_allocator.Heap.State.{IsHeap, live_bytes-le, live_count-le}

-- First fit on the list takes the chunk that the search finds.
first_fit-some :
    (blk : ℕ → BlockHdr) (need n at o : ℕ) (pre post : List Chunk) (lnk out : ℕ)
    → Seg blk o pre at lnk out
    → TooSmall need pre
    → need ≤ n
    → first_fit need o (pre ++ free n ∷ post) ≡ some (at, pre ++ (cut need n ++ post))
unfolding first_fit
first_fit-some blk need n at o [] post lnk out s t h = rw (le→leb need n h, s.0) refl
first_fit-some blk need n at o (free k ∷ pre) post lnk out s t h =
    rw
      (
        gt→leb need k t.0,
        first_fit-some blk need n at (o + k) pre post (blk o).next_free out s.2 t.1 h,
      )
      refl
first_fit-some blk need n at o (live k ∷ pre) post lnk out s t h =
    rw (first_fit-some blk need n at (o + k) pre post lnk out s.1 t h) refl

-- The outcome of an allocation.
pub record Allocated (r r' : Region) (need : ℕ) (cs : List Chunk) (at n : ℕ) : Type 0 where
  pub pre : List Chunk
  pub post : List Chunk
  pub parts : cs ≡ pre ++ free n ∷ post
  pub place : at ≡ 0 + extent pre
  pub enough : need ≤ n
  pub heap : IsHeap r' (pre ++ (cut need n ++ post))
  pub takes : Taken r r' at need n

pub data Allocates (r : Region) (need : ℕ) (cs : List Chunk) : Type 0 where
  exhausted :
      TooSmall need cs
      → first_fit need 0 cs ≡ none
      → heap_alloc_block r need ≡ returns (r, none)
      → Allocates r need cs
  gives :
      (r' : Region) (at n : ℕ) (a : Allocated r r' need cs at n)
      → first_fit need 0 cs ≡ some (at, a.pre ++ (cut need n ++ a.post))
      → heap_alloc_block r need ≡ returns (r', some at)
      → Allocates r need cs

module _ (r : Region) (need : ℕ) (cs : List Chunk) where
  after_carve-IsHeap :
      (i : IsHeap r cs)
      → (p : Fit r.blk need 0 cs (r.size - r.hdr.data_offset) r.hdr.free_list) → 64 ≤ need
      → IsHeap (carve r (last_link 0 0 p.pre) p.at need) (p.pre ++ (cut need p.size ++ p.post))
  after_carve-IsHeap i p big = record {
    offset = rw (t.size, off) i.offset;
    bound = rw t.size i.bound;
    chunks = rw (t.size, off) chunks';
    apart = Coalesced-cut p.pre need p.size p.post (subst Coalesced p.parts i.apart);
    used = omega (
      arith,
      ap (λ h. h.used_bytes) t.hdr,
      i.used,
      ap live_bytes p.parts,
      live_bytes-free p.pre p.size p.post,
      live_bytes-append p.pre (cut need p.size ++ p.post),
      live_bytes-cut need p.size p.post,
      live_bytes-le r'.blk 0 cs' (r.size - r.hdr.data_offset) r'.hdr.free_list 0 chunks',
      i.bound,
    );
    count = omega (
      arith,
      ap (λ h. h.block_count) t.hdr,
      i.count,
      ap live_count p.parts,
      live_count-free p.pre p.size p.post,
      live_count-append p.pre (cut need p.size ++ p.post),
      live_count-cut need p.size p.post,
      live_count-le r'.blk 0 cs' (r.size - r.hdr.data_offset) r'.hdr.free_list 0 chunks',
      i.bound,
    );
  }
    where
      r' : Region
      r' = carve r (last_link 0 0 p.pre) p.at need

      cs' : List Chunk
      cs' = p.pre ++ (cut need p.size ++ p.post)

      small : r.size - r.hdr.data_offset < 2 ^ 63
      small = omega (arith, i.bound)

      t : Taken r r' p.at need p.size
      t = carve-Taken r need cs (r.size - r.hdr.data_offset) small p big

      off : r'.hdr.data_offset ≡ r.hdr.data_offset
      off = ap (λ h. h.data_offset) t.hdr

      chunks' : Seg r'.blk 0 cs' (r.size - r.hdr.data_offset) r'.hdr.free_list 0
      chunks' = carve-Seg r need cs (r.size - r.hdr.data_offset) small p big

  -- For a heap that satisfies the invariant and a request of at least 64 bytes,
  -- `heap_alloc_block` returns what first fit on the list of chunks gives: nothing, with the
  -- region unchanged, where every free chunk is too small, and otherwise the first chunk that is
  -- large enough, cut where the rest makes a block, in a heap that satisfies the invariant.
  pub heap_alloc_block-Allocates : IsHeap r cs → 64 ≤ need → Allocates r need cs
  unfolding heap_alloc_block
  heap_alloc_block-Allocates i big =
      elim (find_fit-Finds r.blk need (fuel r) 0 cs (r.size - r.hdr.data_offset) r.hdr.free_list 0
        (omega (arith, i.bound))
        (omega
          (arith, Seg-length r.blk 0 cs (r.size - r.hdr.data_offset) r.hdr.free_list 0 i.chunks))
        i.chunks) [
          | nothing t run ↦ exhausted t (first_fit-none need 0 cs t) (rw run refl)
          | found p run ↦
              gives (carve r (last_link 0 0 p.pre) p.at need) p.at p.size
                (record {
                  pre = p.pre;
                  post = p.post;
                  parts = p.parts;
                  place = Seg-extent r.blk 0 p.pre p.at r.hdr.free_list (suc p.at) p.left;
                  enough = p.enough;
                  heap = after_carve-IsHeap i p big;
                  takes =
                      carve-Taken r need cs (r.size - r.hdr.data_offset) (omega (arith, i.bound)) p
                        big;
                })
                (ap (first_fit need 0) p.parts
                  ∙ first_fit-some r.blk need p.size p.at 0 p.pre p.post r.hdr.free_list (suc p.at)
                      p.left p.small p.enough)
                (rw run refl)
        ]
