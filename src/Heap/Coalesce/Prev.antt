-- ===== src/Heap/Coalesce/Prev.antt =====
-- The join of a freed block with its predecessor, `coalesce_prev`.
use disagg_shmem_allocator.Base.{
  ℕ, suc, ◌+◌, ◌^◌, ◌≤◌, ◌<◌, ◌≡◌, ◌≢◌, true, refl, sym, ◌∙◌, subst, ◌⊎◌, inl, inr, List, [], ◌∷◌,
  ◌++◌, arith, Bool-cases, ◌==◌, eq→==, ne→==,
}
use disagg_shmem_allocator.Word.{add64}
use disagg_shmem_allocator.Layout.{BlockHdr, Region, link_dec, update}
use disagg_shmem_allocator.Heap.{coalesce_prev}
use disagg_shmem_allocator.Heap.Seg.{Chunk, free, live, IsBlock, IsFree, Seg, Seg-le, Seg-append}
use disagg_shmem_allocator.Heap.Links.{last_link}
use disagg_shmem_allocator.Heap.LastFree.{
  AllLive, last_free, join_prev, join_prev_live, join_prev-append, join_prev_apart,
}
use disagg_shmem_allocator.Heap.Splice.{
  Spliced, update_outside, update_at, update-left, update-right,
}

pub coalesce_prev-hdr : (r : Region) (b prev : ℕ) → (coalesce_prev r b prev).hdr ≡ r.hdr
unfolding coalesce_prev
coalesce_prev-hdr r b prev = ground arith

coalesce_prev_apart :
    (r : Region) (b prev : ℕ)
    → (prev ≡ 0) ⊎ (add64 (link_dec prev) (r.blk (link_dec prev)).total_size ≢ b)
    → coalesce_prev r b prev ≡ r
unfolding coalesce_prev
coalesce_prev_apart r b prev (inl z) = rw z refl
coalesce_prev_apart r b prev (inr ne) = elim (Bool-cases (prev == 0)) [
  | inl z ↦ rw z refl
  | inr nz ↦ rw (nz, ne→== _ _ ne) refl
]

module _ (r : Region) (m : ℕ) (rest : List Chunk) (b e : ℕ) where
  -- Where the list before the block ends in a free chunk at `q`, that chunk absorbs the block.
  coalesce_prev_adjacent :
      (xs : List Chunk) (size q lnk prev : ℕ)
      → e < 2 ^ 63
      → prev ≡ suc q
      → Seg r.blk 0 xs q lnk (suc q)
      → IsFree (r.blk q) size
      → q + size ≡ b
      → IsFree (r.blk b) m
      → Seg r.blk (b + m) rest e (r.blk b).next_free 0
      → Seg (coalesce_prev r b prev).blk 0 (xs ++ free (size + m) ∷ rest) e lnk 0
  unfolding coalesce_prev
  coalesce_prev_adjacent xs size q lnk prev small ep left before adj this right =
      rw (at_prev, ne→== prev 0 (omega (arith, ep)), meets)
        (Seg-append _ 0 xs (free (size + m) ∷ rest) q e lnk (suc q) 0
          (update-left _ b _ 0 xs q lnk (suc q) (omega (arith, adj))
            (update-left r.blk q joined 0 xs q lnk (suc q) (omega arith) left))
          (
            refl,
            rw
                (
                  update_outside (update r.blk q joined) b _ q (omega (arith, big, adj)),
                  update_at r.blk q joined,
                )
                (record { block = joined-IsBlock; tag = before.tag }),
            rw
                (
                  update_outside (update r.blk q joined) b _ q (omega (arith, big, adj)),
                  update_at r.blk q joined,
                )
                (update-right _ b _ (q + (size + m)) rest e _ 0 (omega (arith, big', adj)) (
                  update-right r.blk q _ (q + (size + m)) rest e _ 0 (omega (arith, big)) (
                    subst (λ t. Seg r.blk t rest e (r.blk b).next_free 0) (omega (arith, adj))
                      right))),
          ))
    where
      big : 64 ≤ size
      big = before.block.large

      big' : 64 ≤ m
      big' = this.block.large

      below : b + m ≤ e
      below = Seg-le r.blk (b + m) rest e (r.blk b).next_free 0 right

      at_prev : link_dec prev ≡ q
      at_prev = omega (arith, ep, adj, below, small)

      meets : (add64 q (r.blk q).total_size == b) ≡ true
      meets = eq→== _ _ (omega (arith, before.block.total, adj, below, small))

      joined : BlockHdr
      joined = record (r.blk q) {
        total_size = add64 (r.blk q).total_size (r.blk b).total_size;
        next_free = (r.blk b).next_free;
      }

      joined-IsBlock : IsBlock joined (size + m)
      joined-IsBlock = record {
        magic = before.block.magic;
        total = omega (arith, before.block.total, this.block.total, adj, below, small);
        large = omega (arith, big);
        fits = omega (arith, before.block.fits);
      }

  -- The same from the split of the list at its last free chunk.
  coalesce_prev_split :
      (xs : List Chunk) (size : ℕ) (ys : List Chunk) (q lnk prev : ℕ)
      → e < 2 ^ 63
      → prev ≡ suc q
      → AllLive ys
      → Seg r.blk 0 xs q lnk (suc q)
      → IsFree (r.blk q) size
      → Seg r.blk (q + size) ys b (r.blk q).next_free (suc b)
      → IsFree (r.blk b) m
      → Seg r.blk (b + m) rest e (r.blk b).next_free 0
      → Seg (coalesce_prev r b prev).blk 0 (join_prev (xs ++ free size ∷ ys) m rest) e lnk 0
  coalesce_prev_split xs size [] q lnk prev small ep all left before mid this right =
      rw (join_prev-append xs (free size) [] m rest) (
        unfold join_prev in
        (coalesce_prev_adjacent xs size q lnk prev small ep left before mid.0 this right))
  coalesce_prev_split xs size (free j ∷ ys) q lnk prev small ep all left before mid this right =
      absurd all
  coalesce_prev_split xs size (live j ∷ ys) q lnk prev small ep all left before mid this right =
      rw
        (
          join_prev-append xs (free size) (live j ∷ ys) m rest,
          join_prev_apart size j ys m rest all,
          coalesce_prev_apart r b prev (inr away),
        )
        (Seg-append r.blk 0 xs ((free size ∷ live j ∷ ys) ++ free m ∷ rest) q e lnk (suc q) 0 left (
          Seg-append r.blk q (free size ∷ live j ∷ ys) (free m ∷ rest) b e (suc q) (suc b) 0
            (refl, before, mid) (refl, this, right)))
    where
      below : b + m ≤ e
      below = Seg-le r.blk (b + m) rest e (r.blk b).next_free 0 right

      ahead : q + size + j ≤ b
      ahead = Seg-le r.blk (q + size + j) ys b (r.blk q).next_free (suc b) mid.1

      big : 64 ≤ j
      big = mid.0.block.large

      at_prev : link_dec prev ≡ q
      at_prev = omega (arith, ep, ahead, below, small)

      away : add64 (link_dec prev) (r.blk (link_dec prev)).total_size ≢ b
      away = rw at_prev (omega (arith, before.block.total, ahead, big, below, small))

  pub coalesce_prev-Seg :
      (pre : List Chunk) (prev : ℕ)
      → prev ≡ last_link 0 0 pre
      → Spliced r pre m rest b e
      → Seg
          (coalesce_prev r b prev).blk
          0
          (join_prev pre m rest)
          e
          (coalesce_prev r b prev).hdr.free_list
          0
  coalesce_prev-Seg pre prev ep s =
      rw (coalesce_prev-hdr r b prev)
        (elim (last_free r.blk 0 pre b r.hdr.free_list (suc b) 0 s.left) [
          | inl (all, none_free) ↦
              rw
                (coalesce_prev_apart r b prev (inl (ep ∙ none_free)), join_prev_live pre m rest all)
                (Seg-append r.blk 0 pre (free m ∷ rest) b e r.hdr.free_list (suc b) 0 s.left
                  (refl, s.this, s.right))
          | inr p ↦
              subst
                (λ t. Seg (coalesce_prev r b prev).blk 0 (join_prev t m rest) e r.hdr.free_list 0)
                (sym p.parts)
                (coalesce_prev_split p.xs p.size p.ys p.at r.hdr.free_list prev s.bound
                  (ep ∙ p.last) p.after p.left p.this p.right s.this s.right)
        ])
