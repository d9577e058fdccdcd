-- ===== src/Heap/Carve.antt =====
-- Taking a found block off the list, `carve`, with and without a split.
use disagg_shmem_allocator.Base.{
  ℕ, suc, ◌+◌, ◌-◌, ◌^◌, ◌≤◌, ◌<◌, ◌≡◌, refl, sym, ap, ◌∙◌, subst, inl, inr, List, [], ◌∷◌, ◌++◌,
  arith, Bool-cases, leb, leb→le, if◌then◌else◌,
}
use disagg_shmem_allocator.Word.{add64, sub64}
use disagg_shmem_allocator.Layout.{BlockHdr, Region, update}
use disagg_shmem_allocator.Heap.{carve, mark_live, split_off, set_link, free_hdr}
use disagg_shmem_allocator.Heap.Seg.{Chunk, free, live, IsBlock, Seg, Seg-le, Seg-frame, Seg-append}
use disagg_shmem_allocator.Heap.Links.{last_link, last_link_cases, relink_outside, relink-Seg}
use disagg_shmem_allocator.Heap.Splice.{
  set_link-blk, set_link-free_list, update_outside, update_at, update-left, update-right,
}
use disagg_shmem_allocator.Heap.Fit.{Fit}

-- What `need` bytes leave of a free chunk of size `n`, and what they take.
unfoldable pub cut : (need n : ℕ) → List Chunk
cut need n = if leb 64 (n - need) then live need ∷ free (n - need) ∷ [] else live n ∷ []

unfoldable pub taken : (need n : ℕ) → ℕ
taken need n = if leb 64 (n - need) then need else n

-- The state of the headers after `set_link` has unhooked the block at `ho`: its left side is linked
-- to `out`, and from the block on the headers are those of `blk`.
pub record Unhooked (blk : ℕ → BlockHdr) (r : Region) (pre : List Chunk) (ho out : ℕ) : Type 0 where
  pub left : Seg r.blk 0 pre ho r.hdr.free_list out
  pub beyond : (a : ℕ) → ho ≤ a → r.blk a ≡ blk a

pub unhook :
    (r : Region) (pre : List Chunk) (ho lnk out : ℕ)
    → ho < 2 ^ 63
    → Seg r.blk 0 pre ho r.hdr.free_list lnk
    → Unhooked r.blk (set_link r (last_link 0 0 pre) out) pre ho out
unhook r pre ho lnk out small s = record {
  left =
      rw (set_link-blk r p out, set_link-free_list r p out)
        (relink-Seg r.blk 0 pre ho r.hdr.free_list lnk 0 out small (omega arith) s);
  beyond = λ a le.
      rw (set_link-blk r p out)
        (relink_outside r.blk p out a (omega (arith, place, small)) (omega (arith, place)));
}
  where
    p : ℕ
    p = last_link 0 0 pre

    place : p ≤ ho
    place = omega (arith, last_link_cases r.blk 0 pre ho r.hdr.free_list lnk 0 s)

-- Setting the tag bit makes the block at `ho` a live chunk.
mark :
    (r : Region) (pre : List Chunk) (n : ℕ) (post : List Chunk) (ho e out : ℕ)
    → Seg r.blk 0 pre ho r.hdr.free_list out
    → IsBlock (r.blk ho) n
    → Seg r.blk (ho + n) post e out 0
    → Seg (mark_live r ho).blk 0 (pre ++ live n ∷ post) e (mark_live r ho).hdr.free_list 0
unfolding mark_live
mark r pre n post ho e out left this right =
    Seg-append _ 0 pre (live n ∷ post) ho e r.hdr.free_list out 0
      (update-left r.blk ho _ 0 pre ho r.hdr.free_list out (omega arith) left)
      (
        rw (update_at r.blk ho _) (record {
          block = record {
            magic = this.magic;
            total = this.total;
            large = this.large;
            fits = this.fits;
          };
          tag = refl;
        }),
        update-right r.blk ho _ (ho + n) post e out 0 (omega (arith, this.large)) right,
      )

module _ (r : Region) (need : ℕ) (cs : List Chunk) (e : ℕ) (small : e < 2 ^ 63) where
  -- The block is taken whole.
  carve_whole :
      (p : Fit r.blk need 0 cs e r.hdr.free_list)
      → let u = set_link r (last_link 0 0 p.pre) (r.blk p.at).next_free in
        Seg
          (mark_live u p.at).blk
          0
          (p.pre ++ live p.size ∷ p.post)
          e
          (mark_live u p.at).hdr.free_list
          0
  carve_whole p =
      mark _ p.pre p.size p.post p.at e (r.blk p.at).next_free u.left
        (rw (u.beyond p.at (omega arith)) p.this.block)
        (Seg-frame r.blk _ (p.at + p.size) p.post e (r.blk p.at).next_free 0
          (λ a q t. u.beyond a (omega arith)) p.right)
    where
      ends : p.at + p.size ≤ e
      ends = Seg-le r.blk (p.at + p.size) p.post e (r.blk p.at).next_free 0 p.right

      u :
          Unhooked r.blk
            (set_link r (last_link 0 0 p.pre) (r.blk p.at).next_free)
            p.pre
            p.at
            (r.blk p.at).next_free
      u = unhook r p.pre p.at (suc p.at) (r.blk p.at).next_free (omega (arith, ends, small)) p.left

  -- The block is cut after `need` bytes, and the rest takes its place on the list.
  carve_split :
      (p : Fit r.blk need 0 cs e r.hdr.free_list)
      → 64 ≤ need
      → 64 ≤ p.size - need
      → let u = split_off r (last_link 0 0 p.pre) p.at need (p.size - need) in
        Seg
          (mark_live u p.at).blk
          0
          (p.pre ++ live need ∷ free (p.size - need) ∷ p.post)
          e
          (mark_live u p.at).hdr.free_list
          0
  unfolding split_off
  carve_split p big big' =
      mark _ p.pre need (free rem ∷ p.post) p.at e (add64 nb 1) u.left
        (rw (u.beyond p.at (omega arith), update_at blk1 p.at _)
          (rw (update_outside r.blk nb _ p.at (omega (arith, at_nb, big))) (record {
            magic = p.this.block.magic;
            total = refl;
            large = big;
            fits = omega (arith, ends, small, p.enough, big);
          })))
        (
          omega (arith, at_nb, ends, small, p.enough),
          rw tail_hdr (record {
            block = record {
              magic = refl;
              total = refl;
              large = big';
              fits = omega (arith, ends, small, big');
            };
            tag = refl;
          }),
          rw tail_hdr (
              subst (λ t. Seg r2.blk t p.post e (r.blk p.at).next_free 0) joins
                (Seg-frame r.blk _ (p.at + p.size) p.post e (r.blk p.at).next_free 0
                  (λ a q t.
                    u.beyond a (omega arith)
                    ∙ update_outside blk1 p.at _ a (omega (arith, big, p.enough))
                    ∙ update_outside r.blk nb _ a (omega (arith, at_nb, big', p.enough)))
                  p.right)),
        )
    where
      rem : ℕ
      rem = p.size - need

      nb : ℕ
      nb = add64 p.at need

      ends : p.at + p.size ≤ e
      ends = Seg-le r.blk (p.at + p.size) p.post e (r.blk p.at).next_free 0 p.right

      at_nb : nb ≡ p.at + need
      at_nb = omega (arith, ends, small, p.enough)

      joins : p.at + p.size ≡ p.at + need + rem
      joins = omega (arith, p.enough)

      blk1 : ℕ → BlockHdr
      blk1 = update r.blk nb (free_hdr rem (r.blk p.at).next_free)

      cut_hdr : BlockHdr
      cut_hdr = record (blk1 p.at) { total_size = need; payload_cap = sub64 need 56 }

      r1 : Region
      r1 = record r { blk = update blk1 p.at cut_hdr }

      u : Unhooked r1.blk (set_link r1 (last_link 0 0 p.pre) (add64 nb 1)) p.pre p.at (add64 nb 1)
      u = unhook r1 p.pre p.at (suc p.at) (add64 nb 1) (omega (arith, ends, small)) (
          update-left blk1 p.at cut_hdr 0 p.pre p.at r.hdr.free_list (suc p.at) (omega arith) (
            update-left r.blk nb _ 0 p.pre p.at r.hdr.free_list (suc p.at) (omega (arith, at_nb))
              p.left))

      r2 : Region
      r2 = set_link r1 (last_link 0 0 p.pre) (add64 nb 1)

      tail_hdr : r2.blk (p.at + need) ≡ free_hdr rem (r.blk p.at).next_free
      tail_hdr =
          u.beyond (p.at + need) (omega arith)
          ∙ update_outside blk1 p.at _ (p.at + need) (omega (arith, big))
          ∙ ap blk1 (sym at_nb)
          ∙ update_at r.blk nb _

  -- Given the chunk that the search found for a request of at least 64 bytes, `carve` makes it
  -- live, with the rest as a free chunk behind it if that makes a block, and the links are right.
  pub carve-Seg :
      (p : Fit r.blk need 0 cs e r.hdr.free_list)
      → 64 ≤ need
      → let r' = carve r (last_link 0 0 p.pre) p.at need in
        Seg r'.blk 0 (p.pre ++ (cut need p.size ++ p.post)) e r'.hdr.free_list 0
  unfolding carve cut
  carve-Seg p big = elim (Bool-cases (leb 64 (p.size - need))) [
    | inl large ↦ rw (rem, large) (carve_split p big (leb→le 64 _ large))
    | inr tight ↦ rw (rem, tight) (carve_whole p)
  ]
    where
      rem : sub64 (r.blk p.at).total_size need ≡ p.size - need
      rem = omega (
        arith,
        p.this.block.total,
        p.enough,
        small,
        Seg-le r.blk (p.at + p.size) p.post e (r.blk p.at).next_free 0 p.right,
      )
