-- ===== src/Heap/Links.antt =====
-- The links of the free list over a stretch of chunks: the last one, its rewriting by `set_link`,
-- and the walk to an insertion point.
use disagg_shmem_allocator.Base.{
  ℕ, zero, suc, ◌+◌, ◌^◌, ◌≤◌, ◌<◌, ◌≡◌, ◌≢◌, refl, sym, ap, ◌∙◌, subst, ◌⊎◌, inl, inr, List, [],
  ◌∷◌, arith, length, returns, Bool-cases, ◌==◌, ==→eq, ==_false→ne, eq→==, ne→==, ge→ltb, lt→ltb,
  if◌then◌else◌,
}
use disagg_shmem_allocator.Layout.{BlockHdr, link_dec, update}
use disagg_shmem_allocator.Heap.{insert_walk}
use disagg_shmem_allocator.Heap.Seg.{Chunk, free, live, IsBlock, Seg, Seg-le}

-- The link of the last free chunk, or `prev` where there is none.
abbrev pub last_link : (prev o : ℕ) → List Chunk → ℕ
last_link prev o [] = prev
last_link prev o (free n ∷ cs) = last_link (suc o) (o + n) cs
last_link prev o (live n ∷ cs) = last_link prev (o + n) cs

pub last_link_cases :
    (blk : ℕ → BlockHdr) (o : ℕ) (cs : List Chunk) (e lnk out prev : ℕ)
    → Seg blk o cs e lnk out
    → (last_link prev o cs ≡ prev) ⊎ ((suc o ≤ last_link prev o cs) × (last_link prev o cs ≤ e))
last_link_cases blk o [] e lnk out prev s = inl refl
last_link_cases blk o (free n ∷ cs) e lnk out prev s = omega (
  arith,
  s.1.block.large,
  Seg-le blk (o + n) cs e (blk o).next_free out s.2,
  last_link_cases blk (o + n) cs e (blk o).next_free out (suc o) s.2,
)
last_link_cases blk o (live n ∷ cs) e lnk out prev s =
    omega (arith, s.0.block.large, last_link_cases blk (o + n) cs e lnk out prev s.1)

-- The link that enters a list that ends in 0 is 0 or points into the stretch.
pub Seg-link :
    (blk : ℕ → BlockHdr) (o : ℕ) (cs : List Chunk) (e lnk : ℕ)
    → Seg blk o cs e lnk 0
    → (lnk ≡ 0) ⊎ ((suc o ≤ lnk) × (lnk ≤ e))
Seg-link blk o [] e lnk s = inl s.1
Seg-link blk o (free n ∷ cs) e lnk s =
    inr
      (omega arith, omega (arith, s.1.block.large, Seg-le blk (o + n) cs e (blk o).next_free 0 s.2))
Seg-link blk o (live n ∷ cs) e lnk s =
    omega (arith, s.0.block.large, Seg-link blk (o + n) cs e lnk s.1)

-- What `set_link` does to the headers.
abbrev pub relink : (ℕ → BlockHdr) → (prev lnk : ℕ) → ℕ → BlockHdr
relink blk prev lnk =
    if prev == 0
    then blk
    else update blk (link_dec prev) (record (blk (link_dec prev)) { next_free = lnk })

pub relink_outside :
    (blk : ℕ → BlockHdr) (prev lnk a : ℕ)
    → prev < 2 ^ 64
    → prev ≢ suc a
    → relink blk prev lnk a ≡ blk a
relink_outside blk prev lnk a small ne = elim (Bool-cases (prev == 0)) [
  | inl z ↦ rw z refl
  | inr nz ↦ rw (nz, ne→== (link_dec prev) a (omega (arith, ==_false→ne prev 0 nz))) refl
]

pub relink_inside :
    (blk : ℕ → BlockHdr) (lnk a : ℕ)
    → suc a < 2 ^ 64
    → relink blk (suc a) lnk a ≡ record (blk a) { next_free = lnk }
relink_inside blk lnk a small =
    let at : link_dec (suc a) ≡ a = omega arith in
    rw (ne→== (suc a) 0 (omega arith), at, eq→== a a refl) refl

-- It leaves everything but `next_free` as it is.
pub relink-IsBlock :
    (blk : ℕ → BlockHdr) (prev lnk a : ℕ) {n : ℕ}
    → IsBlock (blk a) n
    → IsBlock (relink blk prev lnk a) n
relink-IsBlock blk prev lnk a {n} b = elim (Bool-cases (prev == 0)) [
  | inl z ↦ rw z b
  | inr nz ↦ elim (Bool-cases (link_dec prev == a)) [
    | inl hit ↦
        rw (nz, hit)
          (subst (λ t. IsBlock (record (blk t) { next_free = lnk }) n)
            (sym (==→eq (link_dec prev) a hit))
            (record { magic = b.magic; total = b.total; large = b.large; fits = b.fits }))
    | inr miss ↦ rw (nz, miss) b
  ]
]

pub relink-allocated :
    (blk : ℕ → BlockHdr) (prev lnk a : ℕ) → (relink blk prev lnk a).allocated ≡ (blk a).allocated
relink-allocated blk prev lnk a = elim (Bool-cases (prev == 0)) [
  | inl z ↦ rw z refl
  | inr nz ↦ elim (Bool-cases (link_dec prev == a)) [
    | inl hit ↦ rw (nz, hit) (ap (λ t. (blk t).allocated) (==→eq (link_dec prev) a hit))
    | inr miss ↦ rw (nz, miss) refl
  ]
]

relink-next_free :
    (blk : ℕ → BlockHdr) (l lnk o : ℕ)
    → l < 2 ^ 63
    → suc o < 2 ^ 63
    → (relink blk l lnk o).next_free ≡ (if l == suc o then lnk else (blk o).next_free)
relink-next_free blk l lnk o small small' = elim (Bool-cases (l == suc o)) [
  | inl hit ↦ rw hit (
      subst (λ t. (relink blk t lnk o).next_free ≡ lnk) (sym (==→eq l (suc o) hit))
        (ap (λ h. h.next_free) (relink_inside blk lnk o (omega arith))))
  | inr miss ↦ rw miss (
      ap (λ h. h.next_free) (relink_outside blk l lnk o (omega arith) (==_false→ne l (suc o) miss)))
]

-- Rewriting the last link of a stretch changes the link that leaves it, and, where it holds no free
-- chunk, the link that enters it.
pub relink-Seg :
    (blk : ℕ → BlockHdr) (o : ℕ) (cs : List Chunk) (e lnk out prev out' : ℕ)
    → e < 2 ^ 63
    → prev ≤ o
    → Seg blk o cs e lnk out
    → Seg
        (relink blk (last_link prev o cs) out')
        o
        cs
        e
        (if last_link prev o cs == prev then out' else lnk)
        out'
relink-Seg blk o [] e lnk out prev out' small le s = (s.0, rw (eq→== prev prev refl) refl)
relink-Seg blk o (free n ∷ cs) e lnk out prev out' small le s =
    let below = Seg-le blk (o + n) cs e (blk o).next_free out s.2 in
    let l = last_link (suc o) (o + n) cs in
    let place = last_link_cases blk (o + n) cs e (blk o).next_free out (suc o) s.2 in
    let big = s.1.block.large in
    (
      rw (ne→== l prev (omega arith)) s.0,
      record {
        block = relink-IsBlock blk l out' o s.1.block;
        tag = relink-allocated blk l out' o ∙ s.1.tag;
      },
      rw (relink-next_free blk l out' o (omega arith) (omega arith))
          (relink-Seg blk (o + n) cs e (blk o).next_free out (suc o) out' small (omega arith) s.2),
    )
relink-Seg blk o (live n ∷ cs) e lnk out prev out' small le s =
    let l = last_link prev (o + n) cs in
    (
      record {
        block = relink-IsBlock blk l out' o s.0.block;
        tag = relink-allocated blk l out' o ∙ s.0.tag;
      },
      relink-Seg blk (o + n) cs e lnk out prev out' small (omega arith) s.1,
    )

-- Over the chunks before the block the walk goes on to the last link.
pub insert_walk_lem :
    (blk : ℕ → BlockHdr) (f b_ho o : ℕ) (cs : List Chunk) (lnk out prev : ℕ)
    → b_ho < 2 ^ 63
    → length cs < f
    → (out ≡ 0) ⊎ ((suc b_ho < out) × (out ≤ 2 ^ 63))
    → Seg blk o cs b_ho lnk out
    → insert_walk f blk b_ho prev lnk ≡ returns (last_link prev o cs, out)
unfolding insert_walk
insert_walk_lem blk zero b_ho o cs lnk out prev small fuel stop s = absurd (omega arith)
insert_walk_lem blk (suc f) b_ho o [] lnk out prev small fuel (inl z) s = rw (s.1, z) refl
insert_walk_lem blk (suc f) b_ho o [] lnk out prev small fuel (inr beyond) s =
    rw (s.1, ne→== out 0 (omega arith), lt→ltb b_ho (link_dec out) (omega arith)) refl
insert_walk_lem blk (suc f) b_ho o (free n ∷ cs) lnk out prev small fuel stop s =
    let below = Seg-le blk (o + n) cs b_ho (blk o).next_free out s.2 in
    let big = s.1.block.large in
    let here : link_dec (suc o) ≡ o = omega arith in
    rw (s.0, ne→== (suc o) 0 (omega arith), here, ge→ltb b_ho o (omega arith))
      (insert_walk_lem blk f b_ho (o + n) cs (blk o).next_free out (suc o) small (omega arith) stop
        s.2)
insert_walk_lem blk (suc f) b_ho o (live n ∷ cs) lnk out prev small fuel stop s =
    insert_walk_lem blk (suc f) b_ho (o + n) cs lnk out prev small (omega arith) stop s.1
