-- ===== src/Heap/SameBut.antt =====
-- What the free-list code leaves alone: it writes the list head, the header of the block that it is
-- given, and headers of free blocks.
use disagg_shmem_allocator.Base.{
  ℕ, ◌+◌, ◌^◌, ◌<◌, ◌≡◌, ◌≢◌, refl, sym, ap, ◌∙◌, subst, ◌⊎◌, inl, inr, List, [], ◌∷◌, arith, false,
  Bool-cases, ◌==◌, ==_false→ne, ne→==,
}
use disagg_shmem_allocator.Word.{add64}
use disagg_shmem_allocator.Layout.{BlockHdr, RegionHdr, Region, link_dec, update, set_blk}
use disagg_shmem_allocator.Heap.{set_link, clear_ownership, coalesce_next, coalesce_prev}
use disagg_shmem_allocator.Heap.Seg.{Chunk, free, live, Seg, Seg-le}
use disagg_shmem_allocator.Heap.LastFree.{last_free}
use disagg_shmem_allocator.Heap.Links.{last_link}

-- Every header with its tag bit set is kept, but for the one at `b`.
abbrev pub Kept : (b : ℕ) → (blk blk' : ℕ → BlockHdr) → Type 0
Kept b blk blk' = (a : ℕ) → a ≢ b → (blk a).allocated ≡ 1 → blk' a ≡ blk a

-- Of the region only such headers and the list head differ.
pub record SameBut (b : ℕ) (r r' : Region) : Type 0 where
  pub size : r'.size ≡ r.size
  pub dir : r'.dir ≡ r.dir
  pub bytes : r'.bytes ≡ r.bytes
  pub hdr : r'.hdr ≡ record (r.hdr) { free_list = r'.hdr.free_list }
  pub headers : Kept b r.blk r'.blk

Kept-trans :
    (b : ℕ) (blk blk' blk'' : ℕ → BlockHdr) → Kept b blk blk' → Kept b blk' blk'' → Kept b blk blk''
Kept-trans b blk blk' blk'' k k' a ne tag =
    k' a ne (ap (λ h. h.allocated) (k a ne tag) ∙ tag) ∙ k a ne tag

pub SameBut-trans :
    {b : ℕ} {r r' r'' : Region} → SameBut b r r' → SameBut b r' r'' → SameBut b r r''
SameBut-trans {b} {r} {r'} {r''} s t = record {
  size = t.size ∙ s.size;
  dir = t.dir ∙ s.dir;
  bytes = t.bytes ∙ s.bytes;
  hdr =
      t.hdr
      ∙ ap {A = RegionHdr} {B = RegionHdr} (λ h. record h { free_list = r''.hdr.free_list }) s.hdr;
  headers = Kept-trans b r.blk r'.blk r''.blk s.headers t.headers;
}

-- A link that the code may write through: there is none, or it names a header with a clear tag bit.
abbrev pub MayWrite : (blk : ℕ → BlockHdr) → (lnk : ℕ) → Type 0
MayWrite blk lnk = (lnk ≡ 0) ⊎ ((blk (link_dec lnk)).allocated ≡ 0)

-- A header that may be written is none of those that are kept.
spared :
    (b : ℕ) (blk : ℕ → BlockHdr) (w a : ℕ)
    → (w ≡ b) ⊎ ((blk w).allocated ≡ 0)
    → a ≢ b
    → (blk a).allocated ≡ 1
    → (w == a) ≡ false
spared b blk w a (inl e) ne tag = ne→== w a (λ p. ne (sym p ∙ e))
spared b blk w a (inr z) ne tag =
    ne→== w a (λ p. omega (arith, z, ap (λ t. (blk t).allocated) p, tag))

pub Kept-update :
    (b : ℕ) (blk : ℕ → BlockHdr) (w : ℕ) (h : BlockHdr)
    → (w ≡ b) ⊎ ((blk w).allocated ≡ 0)
    → Kept b blk (update blk w h)
Kept-update b blk w h ok a ne tag = rw (spared b blk w a ok ne tag) refl

Kept-two :
    (b : ℕ) (blk : ℕ → BlockHdr) (v w : ℕ) (h k : BlockHdr)
    → (v ≡ b) ⊎ ((blk v).allocated ≡ 0)
    → (w ≡ b) ⊎ ((blk w).allocated ≡ 0)
    → Kept b blk (update (update blk v h) w k)
Kept-two b blk v w h k ok ok' a ne tag =
    rw (spared b blk w a ok' ne tag, spared b blk v a ok ne tag) refl

-- The code writes through the last link of a stretch and through the link that enters one.
pub last_link-MayWrite :
    (blk : ℕ → BlockHdr) (cs : List Chunk) (e lnk out : ℕ)
    → e < 2 ^ 63
    → Seg blk 0 cs e lnk out
    → MayWrite blk (last_link 0 0 cs)
last_link-MayWrite blk cs e lnk out small s = elim (last_free blk 0 cs e lnk out 0 s) [
  | inl (all, last) ↦ inl last
  | inr p ↦
      let ends = Seg-le blk (p.at + p.size) p.ys e (blk p.at).next_free out p.right in
      let at : link_dec (last_link 0 0 cs) ≡ p.at = omega (arith, p.last) in
      inr (subst (λ t. (blk t).allocated ≡ 0) (sym at) p.this.tag)
]

pub Seg-MayWrite :
    (blk : ℕ → BlockHdr) (o : ℕ) (cs : List Chunk) (e lnk : ℕ)
    → e < 2 ^ 63
    → Seg blk o cs e lnk 0
    → MayWrite blk lnk
Seg-MayWrite blk o [] e lnk small s = inl s.1
Seg-MayWrite blk o (free n ∷ cs) e lnk small s =
    let ends = Seg-le blk (o + n) cs e (blk o).next_free 0 s.2 in
    let at : link_dec lnk ≡ o = omega (arith, s.0) in
    inr (subst (λ t. (blk t).allocated ≡ 0) (sym at) s.1.tag)
Seg-MayWrite blk o (live n ∷ cs) e lnk small s = Seg-MayWrite blk (o + n) cs e lnk small s.1

follow :
    (blk : ℕ → BlockHdr) (b p : ℕ)
    → MayWrite blk p
    → (p == 0) ≡ false
    → (link_dec p ≡ b) ⊎ ((blk (link_dec p)).allocated ≡ 0)
follow blk b p (inl z) nz = absurd (==_false→ne p 0 nz z)
follow blk b p (inr tag) nz = inr tag

module _ (r : Region) (b : ℕ) where
  SameBut-set_blk : (blk : ℕ → BlockHdr) → Kept b r.blk blk → SameBut b r (record r { blk = blk })
  SameBut-set_blk blk k = record { size = refl; dir = refl; bytes = refl; hdr = refl; headers = k }

  pub SameBut-refl : SameBut b r r
  SameBut-refl = SameBut-set_blk r.blk (λ a ne tag. refl)

  pub clear-SameBut : SameBut b r (clear_ownership r b)
  unfolding clear_ownership
  clear-SameBut = SameBut-set_blk _ (Kept-update b r.blk b _ (inl refl))

  pub set_blk-SameBut : (h : BlockHdr) → SameBut b r (set_blk r b h)
  set_blk-SameBut h = SameBut-set_blk _ (Kept-update b r.blk b h (inl refl))

  pub set_link-SameBut : (p l : ℕ) → MayWrite r.blk p → SameBut b r (set_link r p l)
  unfolding set_link
  set_link-SameBut p l ok = elim (Bool-cases (p == 0)) [
    | inl z ↦
        rw z
          (record { size = refl; dir = refl; bytes = refl; hdr = refl; headers = λ a ne tag. refl })
    | inr nz ↦
        rw nz (SameBut-set_blk _ (Kept-update b r.blk (link_dec p) _ (follow r.blk b p ok nz)))
  ]

  pub coalesce_next-SameBut : (cur : ℕ) → MayWrite r.blk cur → SameBut b r (coalesce_next r b cur)
  unfolding coalesce_next
  coalesce_next-SameBut cur ok = elim (Bool-cases (cur == 0)) [
    | inl z ↦ rw z SameBut-refl
    | inr nz ↦ elim (Bool-cases (add64 b (r.blk b).total_size == link_dec cur)) [
      | inl hit ↦
          rw (nz, hit)
            (SameBut-set_blk _
              (Kept-two b r.blk b (link_dec cur) _ _ (inl refl) (follow r.blk b cur ok nz)))
      | inr miss ↦ rw (nz, miss) SameBut-refl
    ]
  ]

  pub coalesce_prev-SameBut : (p : ℕ) → MayWrite r.blk p → SameBut b r (coalesce_prev r b p)
  unfolding coalesce_prev
  coalesce_prev-SameBut p ok = elim (Bool-cases (p == 0)) [
    | inl z ↦ rw z SameBut-refl
    | inr nz ↦ elim (Bool-cases (add64 (link_dec p) (r.blk (link_dec p)).total_size == b)) [
      | inl hit ↦
          rw (nz, hit)
            (SameBut-set_blk _
              (Kept-two b r.blk (link_dec p) b _ _ (follow r.blk b p ok nz) (inl refl)))
      | inr miss ↦ rw (nz, miss) SameBut-refl
    ]
  ]
