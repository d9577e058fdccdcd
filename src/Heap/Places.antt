-- ===== src/Heap/Places.antt =====
-- Where the chunks of a list stand, and what the block operations do to the live ones.
pub mod Freed
pub mod Taken
pub mod Middle
use disagg_shmem_allocator.Base.{
  ℕ, suc, ◌+◌, ◌-◌, ◌^◌, ◌≤◌, ◌<◌, ◌≡◌, ◌≢◌, ◌↔◌, refl, sym, ap, ◌∙◌, subst, ◌⊎◌, inl, inr, List,
  [], ◌∷◌, ◌++◌, arith, Bool-cases, leb, leb→le, if◌then◌else◌,
}
use disagg_shmem_allocator.Layout.{BlockHdr, Region}
use disagg_shmem_allocator.Heap.Seg.{
  Chunk, free, live, size_of, IsLive, IsFree, IsBlock, Seg, Seg-le,
}
use disagg_shmem_allocator.Heap.LastFree.{join_prev, absorbed, behind, insert_free}
use disagg_shmem_allocator.Heap.Carve.{cut, taken}

-- A chunk begins at `a`.
abbrev pub StartAt : (o : ℕ) → List Chunk → (a : ℕ) → Type 0
StartAt o [] a = ⊥
StartAt o (free n ∷ cs) a = (o ≡ a) ⊎ StartAt (o + n) cs a
StartAt o (live n ∷ cs) a = (o ≡ a) ⊎ StartAt (o + n) cs a

-- A live chunk of size `k` begins at `a`.
abbrev pub LiveIn : (o : ℕ) → List Chunk → (a k : ℕ) → Type 0
LiveIn o [] a k = ⊥
LiveIn o (free n ∷ cs) a k = LiveIn (o + n) cs a k
LiveIn o (live n ∷ cs) a k = ((o ≡ a) × (n ≡ k)) ⊎ LiveIn (o + n) cs a k

unfoldable pub extent : List Chunk → ℕ
extent [] = 0
extent (free n ∷ cs) = n + extent cs
extent (live n ∷ cs) = n + extent cs

pub Seg-extent :
    (blk : ℕ → BlockHdr) (o : ℕ) (cs : List Chunk) (e lnk out : ℕ)
    → Seg blk o cs e lnk out
    → e ≡ o + extent cs
unfolding extent
Seg-extent blk o [] e lnk out s = omega arith
Seg-extent blk o (free n ∷ cs) e lnk out s =
    omega (arith, Seg-extent blk (o + n) cs e (blk o).next_free out s.2)
Seg-extent blk o (live n ∷ cs) e lnk out s = omega (arith, Seg-extent blk (o + n) cs e lnk out s.1)

pub StartAt-le : (o : ℕ) (cs : List Chunk) (a : ℕ) → StartAt o cs a → o ≤ a
StartAt-le o [] a s = absurd s
StartAt-le o (free n ∷ cs) a (inl e) = omega arith
StartAt-le o (free n ∷ cs) a (inr s) = omega (arith, StartAt-le (o + n) cs a s)
StartAt-le o (live n ∷ cs) a (inl e) = omega arith
StartAt-le o (live n ∷ cs) a (inr s) = omega (arith, StartAt-le (o + n) cs a s)

pub LiveIn-le : (o : ℕ) (cs : List Chunk) (a k : ℕ) → LiveIn o cs a k → o ≤ a
LiveIn-le o [] a k s = absurd s
LiveIn-le o (free n ∷ cs) a k s = omega (arith, LiveIn-le (o + n) cs a k s)
LiveIn-le o (live n ∷ cs) a k (inl e) = omega arith
LiveIn-le o (live n ∷ cs) a k (inr s) = omega (arith, LiveIn-le (o + n) cs a k s)

pub LiveIn-end : (o : ℕ) (cs : List Chunk) (a k : ℕ) → LiveIn o cs a k → a + k ≤ o + extent cs
unfolding extent
LiveIn-end o [] a k l = absurd l
LiveIn-end o (free n ∷ cs) a k l = omega (arith, LiveIn-end (o + n) cs a k l)
LiveIn-end o (live n ∷ cs) a k (inl p) = omega arith
LiveIn-end o (live n ∷ cs) a k (inr l) = omega (arith, LiveIn-end (o + n) cs a k l)

-- A live chunk lies in the stretch, and has a live block's header.
pub LiveIn-IsLive :
    (blk : ℕ → BlockHdr) (o : ℕ) (cs : List Chunk) (e lnk out a k : ℕ)
    → Seg blk o cs e lnk out
    → LiveIn o cs a k
    → IsLive (blk a) k × (a + k ≤ e)
LiveIn-IsLive blk o [] e lnk out a k s l = absurd l
LiveIn-IsLive blk o (free n ∷ cs) e lnk out a k s l =
    LiveIn-IsLive blk (o + n) cs e (blk o).next_free out a k s.2 l
LiveIn-IsLive blk o (live n ∷ cs) e lnk out a k s (inl (p, q)) = (
  subst (λ t. IsLive (blk t) k) p (subst (λ t. IsLive (blk o) t) q s.0),
  omega (arith, Seg-le blk (o + n) cs e lnk out s.1),
)
LiveIn-IsLive blk o (live n ∷ cs) e lnk out a k s (inr l) =
    LiveIn-IsLive blk (o + n) cs e lnk out a k s.1 l

-- No chunk begins inside a live one.
pub LiveIn-apart :
    (o : ℕ) (cs : List Chunk) (a k b : ℕ)
    → LiveIn o cs a k
    → StartAt o cs b
    → (b ≡ a) ⊎ ((b < a) ⊎ (a + k ≤ b))
LiveIn-apart o [] a k b l s = absurd l
LiveIn-apart o (free n ∷ cs) a k b l (inl e) = omega (arith, LiveIn-le (o + n) cs a k l)
LiveIn-apart o (free n ∷ cs) a k b l (inr s) = LiveIn-apart (o + n) cs a k b l s
LiveIn-apart o (live n ∷ cs) a k b (inl (p, q)) (inl e) = inl (omega arith)
LiveIn-apart o (live n ∷ cs) a k b (inl (p, q)) (inr s) =
    inr (inr (omega (arith, StartAt-le (o + n) cs b s)))
LiveIn-apart o (live n ∷ cs) a k b (inr l) (inl e) = omega (arith, LiveIn-le (o + n) cs a k l)
LiveIn-apart o (live n ∷ cs) a k b (inr l) (inr s) = LiveIn-apart (o + n) cs a k b l s

pub LiveIn-StartAt : (o : ℕ) (cs : List Chunk) (a k : ℕ) → LiveIn o cs a k → StartAt o cs a
LiveIn-StartAt o [] a k l = l
LiveIn-StartAt o (free n ∷ cs) a k l = inr (LiveIn-StartAt (o + n) cs a k l)
LiveIn-StartAt o (live n ∷ cs) a k (inl (p, q)) = inl p
LiveIn-StartAt o (live n ∷ cs) a k (inr l) = inr (LiveIn-StartAt (o + n) cs a k l)

-- Two live chunks are one, or do not overlap.
pub LiveIn-disjoint :
    (cs : List Chunk) (a k b m : ℕ)
    → LiveIn 0 cs a k
    → LiveIn 0 cs b m
    → (a ≡ b) ⊎ ((a + k ≤ b) ⊎ (b + m ≤ a))
LiveIn-disjoint cs a k b m l h = omega (
  arith,
  LiveIn-apart 0 cs a k b l (LiveIn-StartAt 0 cs b m h),
  LiveIn-apart 0 cs b m a h (LiveIn-StartAt 0 cs a k l),
)

-- Live chunks of a list in two parts, of which the second begins at `m`.
pub LiveIn-append :
    (o : ℕ) (xs ys : List Chunk) (m a k : ℕ)
    → m ≡ o + extent xs
    → LiveIn o (xs ++ ys) a k
    → LiveIn o xs a k ⊎ LiveIn m ys a k
unfolding extent
LiveIn-append o [] ys m a k e l = inr (subst (λ t. LiveIn t ys a k) (omega arith) l)
LiveIn-append o (free n ∷ xs) ys m a k e l = LiveIn-append (o + n) xs ys m a k (omega arith) l
LiveIn-append o (live n ∷ xs) ys m a k e (inl p) = inl (inl p)
LiveIn-append o (live n ∷ xs) ys m a k e (inr l) =
    elim (LiveIn-append (o + n) xs ys m a k (omega arith) l) [ inl h ↦ inl (inr h) | inr h ↦ inr h ]

pub LiveIn-left : (o : ℕ) (xs ys : List Chunk) (a k : ℕ) → LiveIn o xs a k → LiveIn o (xs ++ ys) a k
LiveIn-left o [] ys a k l = absurd l
LiveIn-left o (free n ∷ xs) ys a k l = LiveIn-left (o + n) xs ys a k l
LiveIn-left o (live n ∷ xs) ys a k (inl p) = inl p
LiveIn-left o (live n ∷ xs) ys a k (inr l) = inr (LiveIn-left (o + n) xs ys a k l)

pub LiveIn-right :
    (o : ℕ) (xs ys : List Chunk) (m a k : ℕ)
    → m ≡ o + extent xs
    → LiveIn m ys a k
    → LiveIn o (xs ++ ys) a k
unfolding extent
LiveIn-right o [] ys m a k e l = subst (λ t. LiveIn t ys a k) (omega arith) l
LiveIn-right o (free n ∷ xs) ys m a k e l = LiveIn-right (o + n) xs ys m a k (omega arith) l
LiveIn-right o (live n ∷ xs) ys m a k e l = inr (LiveIn-right (o + n) xs ys m a k (omega arith) l)
