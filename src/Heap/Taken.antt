-- ===== src/Heap/Taken.antt =====
-- What `carve` does besides the list: the counters, the header of the block taken, and what it
-- leaves alone.
use disagg_shmem_allocator.Base.{
  ℕ, suc, ◌+◌, ◌-◌, ◌^◌, ◌≤◌, ◌<◌, ◌≡◌, refl, ap, ◌∙◌, ◌⊎◌, inl, inr, List, arith, true, false,
  Bool-cases, leb, leb→le, if◌then◌else◌,
}
use disagg_shmem_allocator.Word.{add64, sub64}
use disagg_shmem_allocator.Layout.{BlockHdr, RegionHdr, Region, update}
use disagg_shmem_allocator.Heap.{carve, mark_live, split_off, set_link, free_hdr}
use disagg_shmem_allocator.Heap.Seg.{Chunk, Seg-le}
use disagg_shmem_allocator.Heap.Links.{last_link, last_link_cases, relink_outside}
use disagg_shmem_allocator.Heap.Splice.{set_link-blk, update_outside, update_at, update-left}
use disagg_shmem_allocator.Heap.SameBut.{SameBut, set_link-SameBut, last_link-MayWrite}
use disagg_shmem_allocator.Heap.Fit.{Fit}
use disagg_shmem_allocator.Heap.Carve.{taken}

-- Headers outside `[lo, hi)` with their tag bit set are kept.
abbrev pub KeptOut : (lo hi : ℕ) → (blk blk' : ℕ → BlockHdr) → Type 0
KeptOut lo hi blk blk' = (a : ℕ) → (a < lo) ⊎ (hi ≤ a) → (blk a).allocated ≡ 1 → blk' a ≡ blk a

-- The capacity that the block taken has: fixed by a split, and the old one otherwise.
unfoldable pub taken_cap : (need n cap : ℕ) → ℕ
taken_cap need n cap = if leb 64 (n - need) then need - 56 else cap

pub record Taken (r r' : Region) (ho need n : ℕ) : Type 0 where
  pub size : r'.size ≡ r.size
  pub dir : r'.dir ≡ r.dir
  pub bytes : r'.bytes ≡ r.bytes
  pub hdr : r'.hdr ≡ record (r.hdr) {
    free_list = r'.hdr.free_list;
    used_bytes = add64 r.hdr.used_bytes (taken need n);
    block_count = add64 r.hdr.block_count 1;
  }
  pub cap : (r'.blk ho).payload_cap ≡ taken_cap need n (r.blk ho).payload_cap
  pub headers : KeptOut ho (ho + n) r.blk r'.blk

-- `mark_live` after code that leaves the region but for the list head and some headers.
mark-Taken :
    (r u : Region) (ho need n total cap : ℕ)
    → 64 ≤ n
    → SameBut ho (record r { blk = u.blk }) u
    → total ≡ taken need n
    → (u.blk ho).total_size ≡ total
    → (u.blk ho).payload_cap ≡ cap
    → cap ≡ taken_cap need n (r.blk ho).payload_cap
    → KeptOut ho (ho + n) r.blk u.blk
    → Taken r (mark_live u ho) ho need n
unfolding mark_live
mark-Taken r u ho need n total cap big s et ht hc ec k = record {
  size = s.size;
  dir = s.dir;
  bytes = s.bytes;
  hdr =
      rw (ht, et)
        (ap {A = RegionHdr} {B = RegionHdr}
          (λ h. record h {
            used_bytes = add64 h.used_bytes (taken need n);
            block_count = add64 h.block_count 1;
          })
          s.hdr);
  cap = rw (update_at u.blk ho _) (hc ∙ ec);
  headers = λ a out tag. update_outside u.blk ho _ a (omega arith) ∙ k a out tag;
}

module _ (r : Region) (need : ℕ) (cs : List Chunk) (e : ℕ) (small : e < 2 ^ 63) where
  whole-Taken :
      (p : Fit r.blk need 0 cs e r.hdr.free_list)
      → leb 64 (p.size - need) ≡ false
      → Taken r
          (mark_live (set_link r (last_link 0 0 p.pre) (r.blk p.at).next_free) p.at)
          p.at
          need
          p.size
  unfolding taken taken_cap
  whole-Taken p tight =
      mark-Taken r u p.at need p.size p.size (r.blk p.at).payload_cap p.this.block.large
        (record {
          size = s.size;
          dir = s.dir;
          bytes = s.bytes;
          hdr = s.hdr;
          headers = λ a ne tag. refl;
        })
        (rw tight refl) (ap (λ h. h.total_size) here ∙ p.this.block.total)
        (ap (λ h. h.payload_cap) here) (rw tight refl)
        (λ a out tag. s.headers a (omega (arith, out, p.this.block.large)) tag)
    where
      ends : p.at + p.size ≤ e
      ends = Seg-le r.blk (p.at + p.size) p.post e (r.blk p.at).next_free 0 p.right

      l : ℕ
      l = last_link 0 0 p.pre

      place : l ≤ p.at
      place = omega (arith, last_link_cases r.blk 0 p.pre p.at r.hdr.free_list (suc p.at) 0 p.left)

      u : Region
      u = set_link r l (r.blk p.at).next_free

      s : SameBut p.at r u
      s = set_link-SameBut r p.at l (r.blk p.at).next_free (
          last_link-MayWrite r.blk p.pre p.at r.hdr.free_list (suc p.at)
            (omega (arith, ends, small)) p.left)

      here : u.blk p.at ≡ r.blk p.at
      here = rw (set_link-blk r l (r.blk p.at).next_free) (
          relink_outside r.blk l (r.blk p.at).next_free p.at (omega (arith, place, ends, small))
            (omega (arith, place)))

  split-Taken :
      (p : Fit r.blk need 0 cs e r.hdr.free_list)
      → 64 ≤ need
      → leb 64 (p.size - need) ≡ true
      → Taken r
          (mark_live (split_off r (last_link 0 0 p.pre) p.at need (p.size - need)) p.at)
          p.at
          need
          p.size
  unfolding taken taken_cap split_off
  split-Taken p big large =
      mark-Taken r u p.at need p.size need (sub64 need 56) p.this.block.large
        (record {
          size = s.size;
          dir = s.dir;
          bytes = s.bytes;
          hdr = s.hdr;
          headers = λ a ne tag. refl;
        })
        (rw large refl) (ap (λ h. h.total_size) here) (ap (λ h. h.payload_cap) here)
        (rw large (omega (arith, ends, small, p.enough, big)))
        (λ a out tag.
          let apart : r1.blk a ≡ r.blk a =
            update_outside blk1 p.at cut_hdr a (omega (arith, out, p.this.block.large))
            ∙ update_outside r.blk nb _ a (omega (arith, out, at_nb, big, leb→le 64 _ large)) in
          s.headers a (omega (arith, out, p.this.block.large)) (ap (λ h. h.allocated) apart ∙ tag)
          ∙ apart)
    where
      nb : ℕ
      nb = add64 p.at need

      ends : p.at + p.size ≤ e
      ends = Seg-le r.blk (p.at + p.size) p.post e (r.blk p.at).next_free 0 p.right

      at_nb : nb ≡ p.at + need
      at_nb = omega (arith, ends, small, p.enough)

      l : ℕ
      l = last_link 0 0 p.pre

      place : l ≤ p.at
      place = omega (arith, last_link_cases r.blk 0 p.pre p.at r.hdr.free_list (suc p.at) 0 p.left)

      blk1 : ℕ → BlockHdr
      blk1 = update r.blk nb (free_hdr (p.size - need) (r.blk p.at).next_free)

      cut_hdr : BlockHdr
      cut_hdr = record (blk1 p.at) { total_size = need; payload_cap = sub64 need 56 }

      r1 : Region
      r1 = record r { blk = update blk1 p.at cut_hdr }

      u : Region
      u = set_link r1 l (add64 nb 1)

      s : SameBut p.at r1 u
      s = set_link-SameBut r1 p.at l (add64 nb 1) (
          last_link-MayWrite r1.blk p.pre p.at r.hdr.free_list (suc p.at)
            (omega (arith, ends, small))
            (update-left blk1 p.at cut_hdr 0 p.pre p.at r.hdr.free_list (suc p.at) (omega arith) (
              update-left r.blk nb _ 0 p.pre p.at r.hdr.free_list (suc p.at) (omega (arith, at_nb))
                p.left)))

      here : u.blk p.at ≡ cut_hdr
      here = rw (set_link-blk r1 l (add64 nb 1)) (
          relink_outside r1.blk l (add64 nb 1) p.at (omega (arith, place, ends, small))
            (omega (arith, place))
          ∙ update_at blk1 p.at cut_hdr)

  -- Given the chunk that the search found for a request of at least 64 bytes, `carve` adds the
  -- size taken and one block to the counters, sets the capacity only where it splits, and keeps
  -- every live header outside the chunk, the directory and the bytes.
  pub carve-Taken :
      (p : Fit r.blk need 0 cs e r.hdr.free_list)
      → 64 ≤ need
      → Taken r (carve r (last_link 0 0 p.pre) p.at need) p.at need p.size
  unfolding carve
  carve-Taken p big = elim (Bool-cases (leb 64 (p.size - need))) [
    | inl large ↦ rw (rem, large) (split-Taken p big large)
    | inr tight ↦ rw (rem, tight) (whole-Taken p tight)
  ]
    where
      rem : sub64 (r.blk p.at).total_size need ≡ p.size - need
      rem = omega (
        arith,
        p.this.block.total,
        p.enough,
        small,
        Seg-le r.blk (p.at + p.size) p.post e (r.blk p.at).next_free 0 p.right,
      )
