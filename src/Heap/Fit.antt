-- ===== src/Heap/Fit.antt =====
-- The first-fit search, `find_fit`.
use disagg_shmem_allocator.Base.{
  ℕ, zero, suc, ◌+◌, ◌^◌, ◌≤◌, ◌<◌, ◌≡◌, refl, ap, ◌∙◌, inl, inr, List, [], ◌∷◌, ◌++◌, arith,
  length, none, some, returns, Bool-cases, leb, ne→==, leb→le, leb_false→gt,
}
use disagg_shmem_allocator.Layout.{BlockHdr, link_dec}
use disagg_shmem_allocator.Heap.{find_fit}
use disagg_shmem_allocator.Heap.Seg.{Chunk, free, live, IsFree, Seg, Seg-le}
use disagg_shmem_allocator.Heap.Links.{last_link}

-- No free chunk has `need` bytes.
abbrev pub TooSmall : ℕ → List Chunk → Type 0
TooSmall need [] = Unit {0}
TooSmall need (free n ∷ cs) = (n < need) × TooSmall need cs
TooSmall need (live n ∷ cs) = TooSmall need cs

-- The first free chunk that has, at `at`, and what stands on both its sides.
pub record Fit (blk : ℕ → BlockHdr) (need o : ℕ) (cs : List Chunk) (e lnk : ℕ) : Type 0 where
  pub pre : List Chunk
  pub size : ℕ
  pub post : List Chunk
  pub at : ℕ
  pub parts : cs ≡ pre ++ free size ∷ post
  pub small : TooSmall need pre
  pub enough : need ≤ size
  pub left : Seg blk o pre at lnk (suc at)
  pub this : IsFree (blk at) size
  pub right : Seg blk (at + size) post e (blk at).next_free 0

pub data Finds (blk : ℕ → BlockHdr) (need o : ℕ) (cs : List Chunk) (e lnk f prev : ℕ) : Type 0 where
  nothing :
      TooSmall need cs
      → find_fit f blk need prev lnk ≡ returns none
      → Finds blk need o cs e lnk f prev
  found :
      (p : Fit blk need o cs e lnk)
      → find_fit f blk need prev lnk ≡ returns (some (last_link prev o p.pre, p.at))
      → Finds blk need o cs e lnk f prev

-- On a well-formed list that ends below 2^63, with a round for each chunk and one more, the
-- search ends: at the first free chunk that is large enough, with the link before it, or with
-- nothing where every free chunk is too small.
pub find_fit-Finds :
    (blk : ℕ → BlockHdr) (need f o : ℕ) (cs : List Chunk) (e lnk prev : ℕ)
    → e < 2 ^ 63
    → length cs < f
    → Seg blk o cs e lnk 0
    → Finds blk need o cs e lnk f prev
unfolding find_fit
find_fit-Finds blk need zero o cs e lnk prev small fuel s = absurd (omega arith)
find_fit-Finds blk need (suc f) o [] e lnk prev small fuel s = nothing tt (rw (s.1) refl)
find_fit-Finds blk need (suc f) o (live n ∷ cs) e lnk prev small fuel s =
    elim (find_fit-Finds blk need (suc f) (o + n) cs e lnk prev small (omega arith) s.1) [
      | nothing t run ↦ nothing t run
      | found p run ↦
          found
            (record {
              pre = live n ∷ p.pre;
              size = p.size;
              post = p.post;
              at = p.at;
              parts = ap (◌∷◌ (live n)) p.parts;
              small = p.small;
              enough = p.enough;
              left = (s.0, p.left);
              this = p.this;
              right = p.right;
            })
            run
    ]
find_fit-Finds blk need (suc f) o (free n ∷ cs) e lnk prev small fuel s =
    let below = Seg-le blk (o + n) cs e (blk o).next_free 0 s.2 in
    let here : link_dec (suc o) ≡ o = omega (arith, s.1.block.large) in
    elim (Bool-cases (leb need n)) [
      | inl fits ↦
          found
            (record {
              pre = [];
              size = n;
              post = cs;
              at = o;
              parts = refl;
              small = tt;
              enough = leb→le need n fits;
              left = (refl, s.0);
              this = s.1;
              right = s.2;
            })
            (rw (s.0, ne→== (suc o) 0 (omega arith), here, s.1.block.total, fits) refl)
      | inr short ↦
          let skip : find_fit (suc f) blk need prev lnk
              ≡ find_fit f blk need (suc o) (blk o).next_free =
            rw (s.0, ne→== (suc o) 0 (omega arith), here, s.1.block.total, short) refl in
          elim (find_fit-Finds blk need f (o + n) cs e (blk o).next_free (suc o) small (omega arith)
            s.2) [
              | nothing t run ↦ nothing (leb_false→gt need n short, t) (skip ∙ run)
              | found p run ↦
                  found
                    (record {
                      pre = free n ∷ p.pre;
                      size = p.size;
                      post = p.post;
                      at = p.at;
                      parts = ap (◌∷◌ (free n)) p.parts;
                      small = (leb_false→gt need n short, p.small);
                      enough = p.enough;
                      left = (s.0, s.1, p.left);
                      this = p.this;
                      right = p.right;
                    })
                    (skip ∙ run)
            ]
    ]
