-- ===== src/Resize/Copy.antt =====
-- What `shm_resize` of src/shm_alloc.c writes when it copies a payload to a larger block: the bytes
-- and the owner in the new block's header, and nothing outside that block.
use disagg_shmem_allocator.Base.{
  ℕ, ◌+◌, ◌-◌, ◌≤◌, ◌^◌, ◌<◌, ◌≡◌, refl, sym, ap, ◌∙◌, ◌⊎◌, inl, inr, arith, Bool-cases, leb,
  le→leb, gt→leb, lt→ltb, ge→ltb, eq→==, ne→==,
}
use disagg_shmem_allocator.Word.{sub64}
use disagg_shmem_allocator.Layout.{BlockHdr, Region, memset_zero, memcpy}
use disagg_shmem_allocator.Objects.Publish.{memset_spares, memset_zeroes, memset_outside}
use disagg_shmem_allocator.Resize.{copy_block}

memcpy_spares :
    (r : Region) (dst src len a : ℕ)
    → (a < dst) ⊎ (dst + len ≤ a)
    → (memcpy r dst src len).blk a ≡ r.blk a
unfolding memcpy
memcpy_spares r dst src len a (inl h) = rw (gt→leb dst a h) refl
memcpy_spares r dst src len a (inr h) = elim (Bool-cases (leb dst a)) [
  | inl p ↦ rw (p, gt→leb (a + 56) (dst + len) (omega arith)) refl
  | inr p ↦ rw p refl
]

memcpy_at :
    (r : Region) (dst src len i : ℕ)
    → i < len
    → (memcpy r dst src len).bytes (dst + i) ≡ r.bytes (src + i)
unfolding memcpy
memcpy_at r dst src len i lt =
    rw (le→leb dst (dst + i) (omega arith), lt→ltb (dst + i) (dst + len) (omega arith))
      (ap r.bytes (omega arith))

memcpy_outside :
    (r : Region) (dst src len a : ℕ)
    → (a < dst) ⊎ (dst + len ≤ a)
    → (memcpy r dst src len).bytes a ≡ r.bytes a
unfolding memcpy
memcpy_outside r dst src len a (inl h) = rw (gt→leb dst a h) refl
memcpy_outside r dst src len a (inr h) =
    rw (le→leb dst a (omega arith), ge→ltb a (dst + len) h) refl

-- The header with the owner of another.
abbrev pub owned_as : BlockHdr → BlockHdr → BlockHdr
owned_as h b = record h {
  type_tag = b.type_tag;
  owner = b.owner;
  perms = b.perms;
  obj_id = b.obj_id;
}

module _ (r : Region) (ho at size : ℕ) (apart : (ho + 56 ≤ at) ⊎ (at + size ≤ ho))
    (grows : (r.blk ho).payload_cap ≤ (r.blk at).payload_cap)
    (inside : (r.blk at).payload_cap + 56 ≤ size) (small : at + size < 2 ^ 64) where
  abbrev cap : ℕ
  cap = (r.blk ho).payload_cap

  abbrev r1 : Region
  r1 = memcpy r (at + 56) (ho + 56) cap

  abbrev extra : ℕ
  extra = sub64 (r1.blk at).payload_cap (r1.blk ho).payload_cap

  abbrev r2 : Region
  r2 = memset_zero r1 (at + 56 + (r1.blk ho).payload_cap) extra

  kept1 : (a : ℕ) → (a < at + 56) ⊎ (at + size ≤ a) → r1.blk a ≡ r.blk a
  kept1 a out = memcpy_spares r (at + 56) (ho + 56) cap a (omega (arith, out, grows, inside))

  same_old : r1.blk ho ≡ r.blk ho
  same_old = kept1 ho (omega (arith, apart))

  same_new : r1.blk at ≡ r.blk at
  same_new = kept1 at (omega arith)

  pub extra_lem : extra ≡ (r.blk at).payload_cap - cap
  extra_lem = omega (
    arith,
    ap (λ h. h.payload_cap) same_old,
    ap (λ h. h.payload_cap) same_new,
    grows,
    inside,
    small,
  )

  kept2 : (a : ℕ) → (a < at + 56) ⊎ (at + size ≤ a) → r2.blk a ≡ r.blk a
  kept2 a out =
      memset_spares r1 (at + 56 + (r1.blk ho).payload_cap) extra a
        (omega (arith, out, extra_lem, ap (λ h. h.payload_cap) same_old, grows, inside))
      ∙ kept1 a out

  pub copy_block-at : (copy_block r ho at).blk at ≡ owned_as (r.blk at) (r.blk ho)
  unfolding copy_block
  copy_block-at = rw (eq→== at at refl) (
      ap {A = BlockHdr × BlockHdr} (λ p. owned_as p.0 p.1)
        (λ j. (kept2 at (omega arith) j, kept2 ho (omega (arith, apart)) j)))

  pub copy_block-out : (a : ℕ) → (a < at) ⊎ (at + size ≤ a) → (copy_block r ho at).blk a ≡ r.blk a
  unfolding copy_block
  copy_block-out a out = rw (ne→== at a (omega (arith, out, inside))) (kept2 a (omega (arith, out)))

  -- The old payload, and zeroes behind it.
  pub copy_block-bytes :
      (i : ℕ) → i < cap → (copy_block r ho at).bytes (at + 56 + i) ≡ r.bytes (ho + 56 + i)
  unfolding copy_block
  copy_block-bytes i lt =
      memset_outside r1 (at + 56 + (r1.blk ho).payload_cap) extra (at + 56 + i)
        (inl (omega (arith, ap (λ h. h.payload_cap) same_old, lt)))
      ∙ memcpy_at r (at + 56) (ho + 56) cap i lt

  pub copy_block-zero :
      (i : ℕ)
      → i < (r.blk at).payload_cap - cap
      → (copy_block r ho at).bytes (at + 56 + cap + i) ≡ 0
  unfolding copy_block
  copy_block-zero i lt =
      ap (λ c. r2.bytes (at + 56 + c + i)) (sym (ap (λ h. h.payload_cap) same_old))
      ∙ memset_zeroes r1 (at + 56 + (r1.blk ho).payload_cap) extra i (omega (arith, extra_lem, lt))

  -- No byte outside the new block is written.
  pub copy_block-bytes_out :
      (a : ℕ) → (a < at) ⊎ (at + size ≤ a) → (copy_block r ho at).bytes a ≡ r.bytes a
  unfolding copy_block
  copy_block-bytes_out a out =
      memset_outside r1 (at + 56 + (r1.blk ho).payload_cap) extra a
        (omega (arith, out, extra_lem, ap (λ h. h.payload_cap) same_old, grows, inside))
      ∙ memcpy_outside r (at + 56) (ho + 56) cap a (omega (arith, out, grows, inside))

  pub copy_block-hdr : (copy_block r ho at).hdr ≡ r.hdr
  unfolding copy_block memset_zero memcpy
  copy_block-hdr = refl

  pub copy_block-size : (copy_block r ho at).size ≡ r.size
  unfolding copy_block memset_zero memcpy
  copy_block-size = refl

  pub copy_block-dir : (copy_block r ho at).dir ≡ r.dir
  unfolding copy_block memset_zero memcpy
  copy_block-dir = refl
