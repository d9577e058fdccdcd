-- ===== src/Heap/Coalesce/Next.antt =====
-- The join of a freed block with its successor, `coalesce_next`.
use disagg_shmem_allocator.Base.{
  ℕ, suc, ◌+◌, ◌≤◌, ◌≡◌, ◌≢◌, true, refl, subst, ◌⊎◌, inl, inr, List, [], ◌∷◌, arith, Bool-cases,
  ◌==◌, eq→==, ne→==,
}
use disagg_shmem_allocator.Word.{add64}
use disagg_shmem_allocator.Layout.{BlockHdr, Region, link_dec, update}
use disagg_shmem_allocator.Heap.{coalesce_next}
use disagg_shmem_allocator.Heap.Seg.{Chunk, free, live, IsBlock, Seg, Seg-le}
use disagg_shmem_allocator.Heap.Links.{Seg-link}
use disagg_shmem_allocator.Heap.LastFree.{absorbed, behind}
use disagg_shmem_allocator.Heap.Splice.{
  Spliced, update_outside, update_at, update-left, update-right,
}

pub coalesce_next_apart :
    (r : Region) (b cur : ℕ)
    → (cur ≡ 0) ⊎ (add64 b (r.blk b).total_size ≢ link_dec cur)
    → coalesce_next r b cur ≡ r
unfolding coalesce_next
coalesce_next_apart r b cur (inl z) = rw z refl
coalesce_next_apart r b cur (inr ne) = elim (Bool-cases (cur == 0)) [
  | inl z ↦ rw z refl
  | inr nz ↦ rw (nz, ne→== _ _ ne) refl
]

module _ (r : Region) (pre : List Chunk) (m : ℕ) (b e : ℕ) where
  -- The block joins a free successor, and the successor's header is poisoned.
  coalesce_next-free :
      (k : ℕ) (post : List Chunk) (cur : ℕ)
      → cur ≡ (r.blk b).next_free
      → Spliced r pre m (free k ∷ post) b e
      → Spliced (coalesce_next r b cur) pre (m + k) post b e
  unfolding coalesce_next
  coalesce_next-free k post cur ec s =
      rw (at_next, ne→== cur 0 (omega (arith, ec, s.right.0)), adjacent)
        (record {
          bound = s.bound;
          left =
              update-left _ (b + m) _ 0 pre b _ (suc b) (omega arith)
                (update-left r.blk b _ 0 pre b _ (suc b) (omega arith) s.left);
          this =
              rw
                (
                  update_outside (update r.blk b joined) (b + m) _ b (omega (arith, big)),
                  update_at r.blk b joined,
                )
                (record { block = joined-IsBlock; tag = s.this.tag });
          right =
              rw
                (
                  update_outside (update r.blk b joined) (b + m) _ b (omega (arith, big)),
                  update_at r.blk b joined,
                )
                (update-right _ (b + m) _ (b + (m + k)) post e _ 0 (omega (arith, big')) (
                  update-right r.blk b _ (b + (m + k)) post e _ 0 (omega (arith, big))
                    (subst (λ t. Seg r.blk t post e (r.blk (b + m)).next_free 0) assoc s.right.2)));
        })
    where
      big : 64 ≤ m
      big = s.this.block.large

      big' : 64 ≤ k
      big' = s.right.1.block.large

      assoc : b + m + k ≡ b + (m + k)
      assoc = omega arith

      below : b + m + k ≤ e
      below = Seg-le r.blk (b + m + k) post e (r.blk (b + m)).next_free 0 s.right.2

      at_next : link_dec cur ≡ b + m
      at_next = omega (arith, ec, s.right.0, below, s.bound)

      adjacent : (add64 b (r.blk b).total_size == (b + m)) ≡ true
      adjacent = eq→== _ _ (omega (arith, s.this.block.total, below, s.bound))

      joined : BlockHdr
      joined = record (r.blk b) {
        total_size = add64 (r.blk b).total_size (r.blk (b + m)).total_size;
        next_free = (r.blk (b + m)).next_free;
      }

      joined-IsBlock : IsBlock joined (m + k)
      joined-IsBlock = record {
        magic = s.this.block.magic;
        total = omega (arith, s.this.block.total, s.right.1.block.total, below, s.bound);
        large = omega (arith, big);
        fits = omega (arith, s.this.block.fits);
      }

  pub coalesce_next-Spliced :
      (post : List Chunk) (cur : ℕ)
      → cur ≡ (r.blk b).next_free
      → Spliced r pre m post b e
      → Spliced (coalesce_next r b cur) pre (absorbed m post) (behind post) b e
  unfolding absorbed behind
  coalesce_next-Spliced [] cur ec s =
      rw (coalesce_next_apart r b cur (inl (omega (arith, ec, s.right.1)))) s
  coalesce_next-Spliced (free k ∷ post) cur ec s = coalesce_next-free k post cur ec s
  coalesce_next-Spliced (live k ∷ post) cur ec s = rw (coalesce_next_apart r b cur away) s
    where
      away : (cur ≡ 0) ⊎ (add64 b (r.blk b).total_size ≢ link_dec cur)
      away = omega (
        arith,
        ec,
        Seg-link r.blk (b + m + k) post e (r.blk b).next_free s.right.1,
        s.right.0.block.large,
        s.this.block.total,
        s.bound,
        Seg-le r.blk (b + m + k) post e (r.blk b).next_free 0 s.right.1,
      )
