-- ===== src/Heap/Seg.antt =====
-- The heap as a list of chunks. `Seg` relates the block headers of a stretch of the heap, and the
-- links that enter and leave it, to the chunks that stand there in address order.
use disagg_shmem_allocator.Base.{
  ℕ, suc, ◌+◌, ◌≤◌, ◌<◌, ◌≡◌, refl, List, [], ◌∷◌, ◌++◌, arith, length,
}
use disagg_shmem_allocator.Layout.{BlockHdr, magic_block}

-- A chunk is a block with its total size, on the free list or in use.
pub data Chunk : Type 0 where
  free : ℕ → Chunk
  live : ℕ → Chunk

-- What the header of every block satisfies.
pub record IsBlock (h : BlockHdr) (n : ℕ) : Type 0 where
  pub magic : h.magic ≡ magic_block
  pub total : h.total_size ≡ n
  pub large : 64 ≤ n
  pub fits : h.payload_cap + 56 ≤ n

pub record IsFree (h : BlockHdr) (n : ℕ) : Type 0 where
  pub block : IsBlock h n
  pub tag : h.allocated ≡ 0

pub record IsLive (h : BlockHdr) (n : ℕ) : Type 0 where
  pub block : IsBlock h n
  pub tag : h.allocated ≡ 1

-- The chunks `cs` lie at `o` and end at `e`; the link `lnk` names the first free block from `o` on,
-- and `out` is the link that the last free one holds.
abbrev pub Seg : (ℕ → BlockHdr) → (o : ℕ) → List Chunk → (e lnk out : ℕ) → Type 0
Seg blk o [] e lnk out = (o ≡ e) × (lnk ≡ out)
Seg blk o (free n ∷ cs) e lnk out =
    (lnk ≡ suc o) × IsFree (blk o) n × Seg blk (o + n) cs e (blk o).next_free out
Seg blk o (live n ∷ cs) e lnk out = IsLive (blk o) n × Seg blk (o + n) cs e lnk out

abbrev pub size_of : Chunk → ℕ
size_of (free n) = n
size_of (live n) = n

pub Seg-le :
    (blk : ℕ → BlockHdr) (o : ℕ) (cs : List Chunk) (e lnk out : ℕ) → Seg blk o cs e lnk out → o ≤ e
Seg-le blk o [] e lnk out s = omega arith
Seg-le blk o (free n ∷ cs) e lnk out s =
    omega (arith, Seg-le blk (o + n) cs e (blk o).next_free out s.2)
Seg-le blk o (live n ∷ cs) e lnk out s = omega (arith, Seg-le blk (o + n) cs e lnk out s.1)

-- A block takes 64 bytes at least, so a stretch holds few of them.
pub Seg-length :
    (blk : ℕ → BlockHdr) (o : ℕ) (cs : List Chunk) (e lnk out : ℕ)
    → Seg blk o cs e lnk out
    → o + length cs ≤ e
Seg-length blk o [] e lnk out s = omega arith
Seg-length blk o (free n ∷ cs) e lnk out s =
    omega (arith, Seg-length blk (o + n) cs e (blk o).next_free out s.2, s.1.block.large)
Seg-length blk o (live n ∷ cs) e lnk out s =
    omega (arith, Seg-length blk (o + n) cs e lnk out s.1, s.0.block.large)

-- A stretch reads the headers inside it only.
pub Seg-frame :
    (blk blk' : ℕ → BlockHdr) (o : ℕ) (cs : List Chunk) (e lnk out : ℕ)
    → ((a : ℕ) → o ≤ a → a < e → blk' a ≡ blk a)
    → Seg blk o cs e lnk out
    → Seg blk' o cs e lnk out
Seg-frame blk blk' o [] e lnk out same s = s
Seg-frame blk blk' o (free n ∷ cs) e lnk out same s =
    let here : blk' o ≡ blk o =
      same o (omega arith)
        (omega (arith, Seg-le blk (o + n) cs e (blk o).next_free out s.2, s.1.block.large)) in
    rw here (
      s.0,
      s.1,
      Seg-frame blk blk' (o + n) cs e (blk o).next_free out (λ a p q. same a (omega arith) q) s.2,
    )
Seg-frame blk blk' o (live n ∷ cs) e lnk out same s =
    let here : blk' o ≡ blk o =
      same o (omega arith) (omega (arith, Seg-le blk (o + n) cs e lnk out s.1, s.0.block.large)) in
    rw here (s.0, Seg-frame blk blk' (o + n) cs e lnk out (λ a p q. same a (omega arith) q) s.1)

-- Stretches join and part.
pub Seg-append :
    (blk : ℕ → BlockHdr) (o : ℕ) (xs ys : List Chunk) (m e lnk mid out : ℕ)
    → Seg blk o xs m lnk mid
    → Seg blk m ys e mid out
    → Seg blk o (xs ++ ys) e lnk out
Seg-append blk o [] ys m e lnk mid out s t = rw (s.0, s.1) t
Seg-append blk o (free n ∷ xs) ys m e lnk mid out s t =
    (s.0, s.1, Seg-append blk (o + n) xs ys m e (blk o).next_free mid out s.2 t)
Seg-append blk o (live n ∷ xs) ys m e lnk mid out s t =
    (s.0, Seg-append blk (o + n) xs ys m e lnk mid out s.1 t)

pub record Parts (blk : ℕ → BlockHdr) (o : ℕ) (xs ys : List Chunk) (e lnk out : ℕ) : Type 0 where
  pub mid : ℕ
  pub link : ℕ
  pub left : Seg blk o xs mid lnk link
  pub right : Seg blk mid ys e link out

pub Seg-split :
    (blk : ℕ → BlockHdr) (o : ℕ) (xs ys : List Chunk) (e lnk out : ℕ)
    → Seg blk o (xs ++ ys) e lnk out
    → Parts blk o xs ys e lnk out
Seg-split blk o [] ys e lnk out s = record { mid = o; link = lnk; left = (refl, refl); right = s }
Seg-split blk o (free n ∷ xs) ys e lnk out s =
    let p = Seg-split blk (o + n) xs ys e (blk o).next_free out s.2 in
    record { mid = p.mid; link = p.link; left = (s.0, s.1, p.left); right = p.right }
Seg-split blk o (live n ∷ xs) ys e lnk out s =
    let p = Seg-split blk (o + n) xs ys e lnk out s.1 in
    record { mid = p.mid; link = p.link; left = (s.0, p.left); right = p.right }
