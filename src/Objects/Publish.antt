-- ===== src/Objects/Publish.antt =====
-- What `publish` writes: the header of the new block, and no header outside the block.
use disagg_shmem_allocator.Base.{
  ℕ, ◌+◌, ◌≤◌, ◌<◌, ◌≡◌, refl, sym, ◌∙◌, subst, ◌⊎◌, inl, inr, List, arith, Bool-cases, leb, gt→leb,
  le→leb, lt→ltb, ge→ltb, eq→==, ne→==,
}
use disagg_shmem_allocator.Layout.{Region, memset_zero}
use disagg_shmem_allocator.Heap.Seg.{Chunk}
use disagg_shmem_allocator.Heap.Places.{LiveIn, LiveIn-IsLive, LiveIn-apart}
use disagg_shmem_allocator.Heap.State.{IsHeap}
use disagg_shmem_allocator.Heap.Agree.{Agrees, Agrees-of_eq, IsHeap-agree}
use disagg_shmem_allocator.Objects.{publish, own_block}

-- Zeroing a range spares the headers that begin before it or behind it.
pub memset_spares :
    (r : Region) (lo len a : ℕ) → (a < lo) ⊎ (lo + len ≤ a) → (memset_zero r lo len).blk a ≡ r.blk a
unfolding memset_zero
memset_spares r lo len a (inl h) = rw (gt→leb lo a h) refl
memset_spares r lo len a (inr h) = elim (Bool-cases (leb lo a)) [
  | inl p ↦ rw (p, gt→leb (a + 56) (lo + len) (omega arith)) refl
  | inr p ↦ rw p refl
]

-- Zeroing a range writes zeroes there, and no byte outside.
pub memset_zeroes :
    (r : Region) (lo len i : ℕ) → i < len → (memset_zero r lo len).bytes (lo + i) ≡ 0
unfolding memset_zero
memset_zeroes r lo len i lt =
    rw (le→leb lo (lo + i) (omega arith), lt→ltb (lo + i) (lo + len) (omega arith)) refl

pub memset_outside :
    (r : Region) (lo len a : ℕ)
    → (a < lo) ⊎ (lo + len ≤ a)
    → (memset_zero r lo len).bytes a ≡ r.bytes a
unfolding memset_zero
memset_outside r lo len a (inl h) = rw (gt→leb lo a h) refl
memset_outside r lo len a (inr h) = rw (le→leb lo a (omega arith), ge→ltb a (lo + len) h) refl

module _ (r : Region) (slot at size : ℕ) (name : List ℕ) (user_id perms type_tag : ℕ) where
  pub publish-blk_at :
      (publish r slot at size name user_id perms type_tag).blk at
      ≡ own_block (r.blk at) r.hdr.next_id user_id perms type_tag
  unfolding publish
  publish-blk_at = memset_spares _ (at + 56) _ at (inl (omega arith)) ∙ rw (eq→== at at refl) refl

  pub publish-blk_out :
      (k a : ℕ)
      → (r.blk at).payload_cap + 56 ≤ k
      → (a < at) ⊎ (at + k ≤ a)
      → (publish r slot at size name user_id perms type_tag).blk a ≡ r.blk a
  unfolding publish
  publish-blk_out k a fits out =
      memset_spares _ (at + 56) _ a (rw (eq→== at at refl) (omega (arith, out, fits)))
      ∙ rw (ne→== at a (omega (arith, out))) refl

  -- The payload is zeroed up to its capacity, and no other byte is written.
  pub publish-bytes_at :
      (i : ℕ)
      → i < (r.blk at).payload_cap
      → (publish r slot at size name user_id perms type_tag).bytes (at + 56 + i) ≡ 0
  unfolding publish
  publish-bytes_at i lt = memset_zeroes _ (at + 56) _ i (rw (eq→== at at refl) lt)

  pub publish-bytes_out :
      (k a : ℕ)
      → (r.blk at).payload_cap + 56 ≤ k
      → (a < at) ⊎ (at + k ≤ a)
      → (publish r slot at size name user_id perms type_tag).bytes a ≡ r.bytes a
  unfolding publish
  publish-bytes_out k a fits out =
      memset_outside _ (at + 56) _ a (rw (eq→== at at refl) (omega (arith, out, fits)))

  pub publish-IsHeap :
      (cs : List Chunk) (k : ℕ)
      → IsHeap r cs
      → LiveIn 0 cs at k
      → IsHeap (publish r slot at size name user_id perms type_tag) cs
  publish-IsHeap cs k i l =
      IsHeap-agree r (publish r slot at size name user_id perms type_tag) cs
        (unfold publish memset_zero in refl) (unfold publish memset_zero in refl)
        (unfold publish memset_zero in refl) (unfold publish memset_zero in refl)
        (unfold publish memset_zero in refl) (λ a s. agree a (LiveIn-apart 0 cs at k a l s)) i
    where
      here : Agrees (r.blk at) ((publish r slot at size name user_id perms type_tag).blk at)
      here =
          subst (Agrees (r.blk at)) (sym publish-blk_at)
            (record { magic = refl; allocated = refl; total = refl; cap = refl; next = refl })

      fits : (r.blk at).payload_cap + 56 ≤ k
      fits = (LiveIn-IsLive r.blk 0 cs _ r.hdr.free_list 0 at k i.chunks l).0.block.fits

      agree :
          (a : ℕ)
          → (a ≡ at) ⊎ ((a < at) ⊎ (at + k ≤ a))
          → Agrees (r.blk a) ((publish r slot at size name user_id perms type_tag).blk a)
      agree a (inl e) =
          subst (λ t. Agrees (r.blk t) ((publish r slot at size name user_id perms type_tag).blk t))
            (sym e) here
      agree a (inr out) = Agrees-of_eq (publish-blk_out k a fits out)
