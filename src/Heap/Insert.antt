-- ===== src/Heap/Insert.antt =====
-- `freelist_insert` as a whole: it puts a block between two stretches of chunks on the free list
-- and joins it with its free neighbours.
use disagg_shmem_allocator.Base.{
  ℕ, suc, ◌+◌, ◌^◌, ◌≤◌, ◌<◌, ◌≡◌, refl, sym, subst, ◌⊎◌, List, arith, returns,
}
use disagg_shmem_allocator.Layout.{Region, link_enc}
use disagg_shmem_allocator.Heap.{
  fuel, insert_walk, clear_ownership, splice, coalesce_next, coalesce_prev, freelist_insert,
}
use disagg_shmem_allocator.Heap.Seg.{Chunk, Seg, Seg-le, Seg-length}
use disagg_shmem_allocator.Heap.Links.{last_link, Seg-link, insert_walk_lem}
use disagg_shmem_allocator.Heap.LastFree.{absorbed, behind, insert_free}
use disagg_shmem_allocator.Heap.Splice.{
  Hole, Spliced, clear-Hole, clear-allocated, splice-Spliced, splice-next_free, update-left,
}
use disagg_shmem_allocator.Heap.SameBut.{
  SameBut, SameBut-trans, last_link-MayWrite, Seg-MayWrite, clear-SameBut, set_blk-SameBut,
  set_link-SameBut, coalesce_next-SameBut, coalesce_prev-SameBut,
}
use disagg_shmem_allocator.Heap.Coalesce.{coalesce_next-Spliced, coalesce_prev-Seg}

-- The code returns a region whose chunks are as given, and which differs from the old one only in
-- the list head, the header at `b`, and headers of free blocks.
pub record Inserted (b : ℕ) (r r' : Region) (cs : List Chunk) (e : ℕ) : Type 0 where
  pub chunks : Seg r'.blk 0 cs e r'.hdr.free_list 0
  pub same : SameBut b r r'

module _ (r : Region) (pre : List Chunk) (m : ℕ) (post : List Chunk) (b e : ℕ) where
  -- The region that the code returns, from the middle link.
  abbrev inserted : ℕ → Region
  inserted mid =
      coalesce_prev (coalesce_next (splice r b (last_link 0 0 pre) mid) b mid) b (last_link 0 0 pre)

  -- The code after the ownership metadata has been cleared.
  insert_cleared :
      (h : Hole r pre m post b e)
      → (r.blk b).allocated ≡ 0
      → Inserted b r (inserted h.mid) (insert_free pre m post) e
  unfolding insert_free splice
  insert_cleared h tag = record {
    chunks = coalesce_prev-Seg r3 (absorbed m post) (behind post) b e pre p refl spliced';
    same =
        SameBut-trans
          (SameBut-trans
            (SameBut-trans (set_blk-SameBut r b _) (
              set_link-SameBut _ b p (link_enc b) (
                last_link-MayWrite _ pre b r.hdr.free_list h.mid (omega (arith, below, h.bound))
                  (update-left r.blk b _ 0 pre b _ h.mid (omega arith) h.left))))
            (coalesce_next-SameBut r2 b h.mid (
              Seg-MayWrite r2.blk (b + m) post e h.mid h.bound (
                subst (λ t. Seg r2.blk (b + m) post e t 0) (splice-next_free r pre m post b e h)
                  spliced.right))))
          (coalesce_prev-SameBut r3 b p (
            last_link-MayWrite r3.blk pre b r3.hdr.free_list (suc b) (omega (arith, below, h.bound))
              spliced'.left));
  }
    where
      p : ℕ
      p = last_link 0 0 pre

      below : b + m ≤ e
      below = Seg-le r.blk (b + m) post e h.mid 0 h.right

      r2 : Region
      r2 = splice r b p h.mid

      r3 : Region
      r3 = coalesce_next r2 b h.mid

      spliced : Spliced r2 pre m post b e
      spliced = splice-Spliced r pre m post b e h tag

      spliced' : Spliced r3 pre (absorbed m post) (behind post) b e
      spliced' =
          coalesce_next-Spliced r2 pre m b e post h.mid (sym (splice-next_free r pre m post b e h))
            spliced

module _ (r : Region) (pre : List Chunk) (m : ℕ) (post : List Chunk) (b e : ℕ) where
  -- For a block in the gap between the chunks before and behind it, `freelist_insert` returns,
  -- and the chunks are those with the block joined to the free neighbours; besides the list head
  -- and the header given only headers of free blocks differ.
  pub freelist_insert-Inserted :
      Hole r pre m post b e
      → e ≤ r.size
      → (r' : Region) × (freelist_insert r b ≡ returns r')
        × Inserted b r r' (insert_free pre m post) e
  unfolding freelist_insert
  freelist_insert-Inserted h room = (
    inserted r1 pre m post b e h1.mid,
    rw walk refl,
    record { chunks = done.chunks; same = SameBut-trans (clear-SameBut r b) done.same },
  )
    where
      r1 : Region
      r1 = clear_ownership r b

      h1 : Hole r1 pre m post b e
      h1 = clear-Hole r pre m post b e h

      done : Inserted b r1 (inserted r1 pre m post b e h1.mid) (insert_free pre m post) e
      done = insert_cleared r1 pre m post b e h1 (clear-allocated r pre m post b e)

      below : b + m ≤ e
      below = Seg-le r.blk (b + m) post e h.mid 0 h.right

      ends : (h1.mid ≡ 0) ⊎ ((suc b < h1.mid) × (h1.mid ≤ 2 ^ 63))
      ends = omega (arith, h.this.large, h.bound, Seg-link r1.blk (b + m) post e h1.mid h1.right)

      walk : insert_walk (fuel r) r1.blk b 0 r1.hdr.free_list ≡ returns (last_link 0 0 pre, h1.mid)
      walk =
          insert_walk_lem r1.blk (fuel r) b 0 pre r1.hdr.free_list h1.mid 0
            (omega (arith, below, h.bound))
            (omega (arith, room, below, Seg-length r1.blk 0 pre b r1.hdr.free_list h1.mid h1.left))
            ends h1.left
