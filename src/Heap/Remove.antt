-- ===== src/Heap/Remove.antt =====
-- `freelist_remove` of src/shm_alloc.c: it ends at the block it is given, and leaves a gap that the
-- block can be inserted into again.
use disagg_shmem_allocator.Base.{
  ℕ, zero, suc, ◌+◌, ◌^◌, ◌≤◌, ◌<◌, ◌≡◌, refl, List, [], ◌∷◌, arith, length, returns, eq→==, ne→==,
}
use disagg_shmem_allocator.Layout.{BlockHdr, Region, link_dec, link_enc}
use disagg_shmem_allocator.Heap.{fuel, remove_walk, unlink, freelist_remove, set_link}
use disagg_shmem_allocator.Heap.Seg.{Chunk, free, live, IsFree, Seg, Seg-le, Seg-length, Seg-frame}
use disagg_shmem_allocator.Heap.Links.{last_link}
use disagg_shmem_allocator.Heap.Splice.{Hole, update_at, update-left, update-right}
use disagg_shmem_allocator.Heap.SameBut.{
  SameBut, SameBut-trans, set_link-SameBut, set_blk-SameBut, last_link-MayWrite,
}
use disagg_shmem_allocator.Heap.Carve.{Unhooked, unhook}

-- Over the chunks before the block the walk goes on to the last link.
remove_walk_lem :
    (blk : ℕ → BlockHdr) (f t o : ℕ) (cs : List Chunk) (lnk prev : ℕ)
    → t < 2 ^ 63
    → length cs < f
    → Seg blk o cs t lnk (suc t)
    → remove_walk f blk (suc t) prev lnk ≡ returns (last_link prev o cs, suc t)
unfolding remove_walk
remove_walk_lem blk zero t o cs lnk prev small fuel s = absurd (omega arith)
remove_walk_lem blk (suc f) t o [] lnk prev small fuel s =
    rw (s.1, ne→== (suc t) 0 (omega arith), eq→== (suc t) (suc t) refl) refl
remove_walk_lem blk (suc f) t o (free n ∷ cs) lnk prev small fuel s =
    let below = Seg-le blk (o + n) cs t (blk o).next_free (suc t) s.2 in
    let big = s.1.block.large in
    let here : link_dec (suc o) ≡ o = omega arith in
    rw (s.0, ne→== (suc o) 0 (omega arith), ne→== (suc o) (suc t) (omega arith), here)
      (remove_walk_lem blk f t (o + n) cs (blk o).next_free (suc o) small (omega arith) s.2)
remove_walk_lem blk (suc f) t o (live n ∷ cs) lnk prev small fuel s =
    remove_walk_lem blk (suc f) t (o + n) cs lnk prev small (omega arith) s.1

-- A free chunk in its place, with the links around it.
pub record Linked (r : Region) (pre : List Chunk) (n : ℕ) (post : List Chunk) (t e : ℕ)
    : Type 0 where
  pub bound : e < 2 ^ 63
  pub left : Seg r.blk 0 pre t r.hdr.free_list (suc t)
  pub this : IsFree (r.blk t) n
  pub right : Seg r.blk (t + n) post e (r.blk t).next_free 0

module _ (r : Region) (pre : List Chunk) (n : ℕ) (post : List Chunk) (t e : ℕ) where
  module _ (l : Linked r pre n post t e) where
    ends : t + n ≤ e
    ends = Seg-le r.blk (t + n) post e (r.blk t).next_free 0 l.right

    abbrev out : ℕ
    out = (r.blk t).next_free

    abbrev bridged : Region
    bridged = set_link r (last_link 0 0 pre) out

    u : Unhooked r.blk bridged pre t out
    u = unhook r pre t (suc t) out (omega (arith, ends, l.bound)) l.left

    unlink-Hole : Hole (unlink r t (last_link 0 0 pre)) pre n post t e
    unfolding unlink
    unlink-Hole = record {
      mid = out;
      bound = l.bound;
      left = update-left bridged.blk t _ 0 pre t bridged.hdr.free_list out (omega arith) u.left;
      this =
          rw
            (
              update_at bridged.blk t (record (bridged.blk t) { next_free = 0 }),
              u.beyond t (omega arith),
            )
            (record {
              magic = l.this.block.magic;
              total = l.this.block.total;
              large = l.this.block.large;
              fits = l.this.block.fits;
            });
      right =
          update-right bridged.blk t _ (t + n) post e out 0 (omega (arith, l.this.block.large)) (
            Seg-frame r.blk bridged.blk (t + n) post e out 0 (λ a p q. u.beyond a (omega arith))
              l.right);
    }

    unlink-SameBut : SameBut t r (unlink r t (last_link 0 0 pre))
    unfolding unlink
    unlink-SameBut =
        SameBut-trans
          (set_link-SameBut r t (last_link 0 0 pre) out (
            last_link-MayWrite r.blk pre t r.hdr.free_list (suc t) (omega (arith, ends, l.bound))
              l.left))
          (set_blk-SameBut bridged t (record (bridged.blk t) { next_free = 0 }))

  -- For a free chunk on a well-formed list that ends below 2^63 and inside the mapping,
  -- `freelist_remove` returns, and leaves the list without the block: a gap between the chunks before
  -- and behind it. Besides the list head and the header given only headers of free blocks differ.
  pub freelist_remove-Hole :
      Linked r pre n post t e
      → e ≤ r.size
      → (r' : Region) × (freelist_remove r t ≡ returns r') × Hole r' pre n post t e × SameBut t r r'
  unfolding freelist_remove
  freelist_remove-Hole l room = (
    unlink r t (last_link 0 0 pre),
    rw (target, walk, eq→== (suc t) (suc t) refl) refl,
    unlink-Hole l,
    unlink-SameBut l,
  )
    where
      target : link_enc t ≡ suc t
      target = omega (arith, ends l, l.bound)

      walk :
          remove_walk (fuel r) r.blk (suc t) 0 r.hdr.free_list ≡ returns (last_link 0 0 pre, suc t)
      walk =
          remove_walk_lem r.blk (fuel r) t 0 pre r.hdr.free_list 0 (omega (arith, ends l, l.bound))
            (omega (arith, room, ends l, Seg-length r.blk 0 pre t r.hdr.free_list (suc t) l.left))
            l.left
