-- ===== src/Heap/LastFree.antt =====
-- A stretch split at its last free chunk, and what the chunks become when a free block is put
-- behind them and behind it.
use disagg_shmem_allocator.Base.{ℕ, suc, ◌+◌, ◌≡◌, refl, ap, ◌⊎◌, inl, inr, List, [], ◌∷◌, ◌++◌}
use disagg_shmem_allocator.Layout.{BlockHdr}
use disagg_shmem_allocator.Heap.Seg.{Chunk, free, live, IsFree, Seg}
use disagg_shmem_allocator.Heap.Links.{last_link}

-- No chunk is free.
abbrev pub AllLive : List Chunk → Type 0
AllLive [] = Unit {0}
AllLive (free n ∷ cs) = ⊥
AllLive (live n ∷ cs) = AllLive cs

-- A free block of size `m` behind the chunks of the first list joins the last of them if that one
-- is free, and the rest follows.
unfoldable pub join_prev : List Chunk → ℕ → List Chunk → List Chunk
join_prev [] m rest = free m ∷ rest
join_prev (free k ∷ []) m rest = free (k + m) ∷ rest
join_prev (live k ∷ []) m rest = live k ∷ free m ∷ rest
join_prev (c ∷ d ∷ cs) m rest = c ∷ join_prev (d ∷ cs) m rest

-- A free block of size `m` absorbs the chunk behind it if that one is free.
unfoldable pub absorbed : ℕ → List Chunk → ℕ
absorbed m [] = m
absorbed m (free k ∷ post) = m + k
absorbed m (live k ∷ post) = m

unfoldable pub behind : List Chunk → List Chunk
behind [] = []
behind (free k ∷ post) = post
behind (live k ∷ post) = live k ∷ post

-- The chunks after a block of size `m` between `pre` and `post` has been freed.
unfoldable pub insert_free : (pre : List Chunk) → ℕ → (post : List Chunk) → List Chunk
unfolding absorbed behind join_prev
insert_free pre m post = join_prev pre (absorbed m post) (behind post)

pub record LastFree (blk : ℕ → BlockHdr) (o : ℕ) (cs : List Chunk) (e lnk out prev : ℕ)
    : Type 0 where
  pub xs : List Chunk
  pub ys : List Chunk
  pub size : ℕ
  pub at : ℕ
  pub parts : cs ≡ xs ++ free size ∷ ys
  pub after : AllLive ys
  pub last : last_link prev o cs ≡ suc at
  pub left : Seg blk o xs at lnk (suc at)
  pub this : IsFree (blk at) size
  pub right : Seg blk (at + size) ys e (blk at).next_free out

module _ (blk : ℕ → BlockHdr) where
  pub last_free :
      (o : ℕ) (cs : List Chunk) (e lnk out prev : ℕ)
      → Seg blk o cs e lnk out
      → (AllLive cs × (last_link prev o cs ≡ prev)) ⊎ LastFree blk o cs e lnk out prev
  last_free o [] e lnk out prev s = inl (tt, refl)
  last_free o (free n ∷ cs) e lnk out prev s =
      elim (last_free (o + n) cs e (blk o).next_free out (suc o) s.2) [
        | inl (all, last) ↦ inr (record {
          xs = [];
          ys = cs;
          size = n;
          at = o;
          parts = refl;
          after = all;
          last = last;
          left = (refl, s.0);
          this = s.1;
          right = s.2;
        })
        | inr p ↦ inr (record {
          xs = free n ∷ p.xs;
          ys = p.ys;
          size = p.size;
          at = p.at;
          parts = ap (◌∷◌ (free n)) p.parts;
          after = p.after;
          last = p.last;
          left = (s.0, s.1, p.left);
          this = p.this;
          right = p.right;
        })
      ]
  last_free o (live n ∷ cs) e lnk out prev s = elim (last_free (o + n) cs e lnk out prev s.1) [
    | inl (all, last) ↦ inl (all, last)
    | inr p ↦ inr (record {
      xs = live n ∷ p.xs;
      ys = p.ys;
      size = p.size;
      at = p.at;
      parts = ap (◌∷◌ (live n)) p.parts;
      after = p.after;
      last = p.last;
      left = (s.0, p.left);
      this = p.this;
      right = p.right;
    })
  ]

pub join_prev_live :
    (cs : List Chunk) (m : ℕ) (rest : List Chunk)
    → AllLive cs
    → join_prev cs m rest ≡ cs ++ free m ∷ rest
unfolding join_prev
join_prev_live [] m rest all = refl
join_prev_live (free k ∷ cs) m rest all = absurd all
join_prev_live (live k ∷ []) m rest all = refl
join_prev_live (live k ∷ d ∷ cs) m rest all = ap (◌∷◌ (live k)) (join_prev_live (d ∷ cs) m rest all)

-- The chunks before the last matter not.
pub join_prev-append :
    (xs : List Chunk) (c : Chunk) (cs : List Chunk) (m : ℕ) (rest : List Chunk)
    → join_prev (xs ++ c ∷ cs) m rest ≡ xs ++ join_prev (c ∷ cs) m rest
unfolding join_prev
join_prev-append [] c cs m rest = refl
join_prev-append (free k ∷ []) c cs m rest = refl
join_prev-append (live k ∷ []) c cs m rest = refl
join_prev-append (x ∷ y ∷ xs) c cs m rest = ap (◌∷◌ x) (join_prev-append (y ∷ xs) c cs m rest)

pub join_prev_apart :
    (k j : ℕ) (ys : List Chunk) (m : ℕ) (rest : List Chunk)
    → AllLive ys
    → join_prev (free k ∷ live j ∷ ys) m rest ≡ (free k ∷ live j ∷ ys) ++ free m ∷ rest
unfolding join_prev
join_prev_apart k j ys m rest all = ap (◌∷◌ (free k)) (join_prev_live (live j ∷ ys) m rest all)
