-- ===== src/Heap/Splice.antt =====
-- The steps of `freelist_insert`: a block that stands between two stretches, its insertion into the
-- list, and the joins with its neighbours.
use disagg_shmem_allocator.Base.{
  ℕ, suc, ◌+◌, ◌^◌, ◌≤◌, ◌<◌, ◌≡◌, ◌≢◌, refl, ap, ◌∙◌, inl, inr, List, arith, Bool-cases, ◌==◌,
  eq→==, ne→==, if◌then◌else◌,
}
use disagg_shmem_allocator.Word.{add64}
use disagg_shmem_allocator.Layout.{BlockHdr, Region, update}
use disagg_shmem_allocator.Heap.{set_link, clear_ownership, splice}
use disagg_shmem_allocator.Heap.Seg.{Chunk, IsBlock, IsFree, Seg, Seg-le, Seg-frame}
use disagg_shmem_allocator.Heap.Links.{
  last_link, last_link_cases, relink, relink_outside, relink-Seg, relink-IsBlock, relink-allocated,
}

pub set_link-blk : (r : Region) (p l : ℕ) → (set_link r p l).blk ≡ relink r.blk p l
unfolding set_link
set_link-blk r p l = elim (Bool-cases (p == 0)) [ inl z ↦ rw z refl | inr nz ↦ rw nz refl ]

pub set_link-free_list :
    (r : Region) (p l : ℕ)
    → (set_link r p l).hdr.free_list ≡ (if p == 0 then l else r.hdr.free_list)
unfolding set_link
set_link-free_list r p l = elim (Bool-cases (p == 0)) [ inl z ↦ rw z refl | inr nz ↦ rw nz refl ]

-- A block of size `m` at `b` between the chunks of two stretches.
pub record Hole (r : Region) (pre : List Chunk) (m : ℕ) (post : List Chunk) (b e : ℕ) : Type 0 where
  pub mid : ℕ
  pub bound : e < 2 ^ 63
  pub left : Seg r.blk 0 pre b r.hdr.free_list mid
  pub this : IsBlock (r.blk b) m
  pub right : Seg r.blk (b + m) post e mid 0

-- The block is on the list.
pub record Spliced (r : Region) (pre : List Chunk) (m : ℕ) (post : List Chunk) (b e : ℕ)
    : Type 0 where
  pub bound : e < 2 ^ 63
  pub left : Seg r.blk 0 pre b r.hdr.free_list (suc b)
  pub this : IsFree (r.blk b) m
  pub right : Seg r.blk (b + m) post e (r.blk b).next_free 0

pub update_outside :
    (blk : ℕ → BlockHdr) (b : ℕ) (h : BlockHdr) (a : ℕ) → b ≢ a → update blk b h a ≡ blk a
update_outside blk b h a ne = rw (ne→== b a ne) refl

pub update_at : (blk : ℕ → BlockHdr) (b : ℕ) (h : BlockHdr) → update blk b h b ≡ h
update_at blk b h = rw (eq→== b b refl) refl

-- A write at `b` spares what lies before and behind.
pub update-left :
    (blk : ℕ → BlockHdr) (b : ℕ) (h : BlockHdr) (o : ℕ) (cs : List Chunk) (e lnk out : ℕ)
    → e ≤ b
    → Seg blk o cs e lnk out
    → Seg (update blk b h) o cs e lnk out
update-left blk b h o cs e lnk out le =
    Seg-frame blk (update blk b h) o cs e lnk out (λ a p q. update_outside blk b h a (omega arith))

pub update-right :
    (blk : ℕ → BlockHdr) (b : ℕ) (h : BlockHdr) (o : ℕ) (cs : List Chunk) (e lnk out : ℕ)
    → b < o
    → Seg blk o cs e lnk out
    → Seg (update blk b h) o cs e lnk out
update-right blk b h o cs e lnk out lt =
    Seg-frame blk (update blk b h) o cs e lnk out (λ a p q. update_outside blk b h a (omega arith))

module _ (r : Region) (pre : List Chunk) (m : ℕ) (post : List Chunk) (b e : ℕ) where
  pub clear-Hole : Hole r pre m post b e → Hole (clear_ownership r b) pre m post b e
  unfolding clear_ownership
  clear-Hole h = record {
    mid = h.mid;
    bound = h.bound;
    left = update-left r.blk b _ 0 pre b _ h.mid (omega arith) h.left;
    this =
        rw (update_at r.blk b _)
          (record { magic = h.this.magic; total = h.this.total; large = big; fits = h.this.fits });
    right = update-right r.blk b _ (b + m) post e h.mid 0 (omega arith) h.right;
  }
    where
      big : 64 ≤ m
      big = h.this.large

  pub clear-allocated : ((clear_ownership r b).blk b).allocated ≡ 0
  unfolding clear_ownership
  clear-allocated = rw (update_at r.blk b _) refl

  -- Splicing puts the block on the list.
  pub splice-Spliced :
      (h : Hole r pre m post b e)
      → (r.blk b).allocated ≡ 0
      → Spliced (splice r b (last_link 0 0 pre) h.mid) pre m post b e
  unfolding splice
  splice-Spliced h tag = record {
    bound = h.bound;
    left =
        rw (set_link-blk _ p (add64 b 1), set_link-free_list _ p (add64 b 1), enc)
          (relink-Seg blk1 0 pre b r.hdr.free_list h.mid 0 (suc b) (omega (arith, below, small))
            (omega arith) (update-left r.blk b _ 0 pre b _ h.mid (omega arith) h.left));
    this = rw (set_link-blk _ p (add64 b 1)) (record {
      block = relink-IsBlock blk1 p _ b (rw (update_at r.blk b here) here-IsBlock);
      tag = relink-allocated blk1 p _ b ∙ rw (update_at r.blk b here) tag;
    });
    right =
        rw
          (
            set_link-blk _ p (add64 b 1),
            relink_outside blk1 p (add64 b 1) b (omega (arith, place, below, small))
                (omega (arith, place)),
          )
          (rw (update_at r.blk b here) (
            Seg-frame r.blk (relink blk1 p (add64 b 1)) (b + m) post e h.mid 0
              (λ a q t.
                relink_outside blk1 p (add64 b 1) a (omega (arith, place, below, small))
                  (omega (arith, place))
                ∙ update_outside r.blk b here a (omega (arith, big)))
              h.right));
  }
    where
      p : ℕ
      p = last_link 0 0 pre

      here : BlockHdr
      here = record (r.blk b) { next_free = h.mid }

      blk1 : ℕ → BlockHdr
      blk1 = update r.blk b here

      here-IsBlock : IsBlock here m
      here-IsBlock = record {
        magic = h.this.magic;
        total = h.this.total;
        large = h.this.large;
        fits = h.this.fits;
      }

      below : b + m ≤ e
      below = Seg-le r.blk (b + m) post e h.mid 0 h.right

      place : p ≤ b
      place = omega (arith, last_link_cases r.blk 0 pre b r.hdr.free_list h.mid 0 h.left)

      big : 64 ≤ m
      big = h.this.large

      small : e < 2 ^ 63
      small = h.bound

      enc : add64 b 1 ≡ suc b
      enc = omega (arith, below, big, small)

  pub splice-next_free :
      (h : Hole r pre m post b e) → ((splice r b (last_link 0 0 pre) h.mid).blk b).next_free ≡ h.mid
  unfolding splice
  splice-next_free h = rw (set_link-blk _ (last_link 0 0 pre) (add64 b 1)) (
      ap (λ t. t.next_free)
        (relink_outside (update r.blk b _) (last_link 0 0 pre) (add64 b 1) b
            (omega (arith, place, below, h.bound)) (omega (arith, place))
          ∙ update_at r.blk b _))
    where
      below : b + m ≤ e
      below = Seg-le r.blk (b + m) post e h.mid 0 h.right

      place : last_link 0 0 pre ≤ b
      place = omega (arith, last_link_cases r.blk 0 pre b r.hdr.free_list h.mid 0 h.left)
