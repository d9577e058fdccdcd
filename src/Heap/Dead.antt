-- ===== src/Heap/Dead.antt =====
-- `freelist_insert` leaves the tag bit of the header that it is given clear, wherever the block goes.
use disagg_shmem_allocator.Base.{
  ℕ, ◌≡◌, refl, ap, ◌∙◌, subst, inl, inr, Bool-cases, ◌==◌, ==→eq, eq→==, returns, Returned,
  bind-Returned,
}
use disagg_shmem_allocator.Word.{add64}
use disagg_shmem_allocator.Layout.{BlockHdr, Region, link_dec, set_blk}
use disagg_shmem_allocator.Heap.{
  fuel, set_link, insert_walk, clear_ownership, splice, poison, coalesce_next, coalesce_prev,
  freelist_insert, heap_free_block,
}

abbrev Dead : ℕ → Region → Type 0
Dead b r = (r.blk b).allocated ≡ 0

update-Dead :
    (b : ℕ) (r : Region) (w : ℕ) (h : BlockHdr)
    → (w ≡ b → h.allocated ≡ 0)
    → Dead b r
    → Dead b (set_blk r w h)
update-Dead b r w h z d = elim (Bool-cases (w == b)) [
  | inl e ↦ rw e (z (==→eq w b e))
  | inr ne ↦ rw ne d
]

clear-Dead : (r : Region) (b : ℕ) → Dead b (clear_ownership r b)
unfolding clear_ownership
clear-Dead r b = rw (eq→== b b refl) refl

set_link-Dead : (b : ℕ) (r : Region) (prev lnk : ℕ) → Dead b r → Dead b (set_link r prev lnk)
unfolding set_link
set_link-Dead b r prev lnk d = elim (Bool-cases (prev == 0)) [
  | inl e ↦ rw e d
  | inr ne ↦ rw ne (update-Dead b r (link_dec prev) _ (λ e. ap (λ t. (r.blk t).allocated) e ∙ d) d)
]

module _ (b : ℕ) (r : Region) where
  splice-Dead : (b_ho prev cur : ℕ) → Dead b r → Dead b (splice r b_ho prev cur)
  unfolding splice
  splice-Dead b_ho prev cur d =
      set_link-Dead b _ prev _ (update-Dead b r b_ho _ (λ e. ap (λ t. (r.blk t).allocated) e ∙ d) d)

  -- One block absorbs another: neither write sets a tag bit.
  absorb-Dead :
      (w v total next : ℕ)
      → Dead b r
      → Dead b (poison (set_blk r w (record (r.blk w) { total_size = total; next_free = next })) v)
  absorb-Dead w v total next d =
      let d1 =
        update-Dead b r w (record (r.blk w) { total_size = total; next_free = next })
          (λ e. ap (λ t. (r.blk t).allocated) e ∙ d) d in
      let r1 = set_blk r w (record (r.blk w) { total_size = total; next_free = next }) in
      update-Dead b r1 v (record (r1.blk v) { magic = 0 })
        (λ e. ap (λ t. (r1.blk t).allocated) e ∙ d1) d1

  coalesce_next-Dead : (b_ho cur : ℕ) → Dead b r → Dead b (coalesce_next r b_ho cur)
  unfolding coalesce_next
  coalesce_next-Dead b_ho cur d = elim (Bool-cases (cur == 0)) [
    | inl e ↦ rw e d
    | inr ne ↦ elim (Bool-cases (add64 b_ho (r.blk b_ho).total_size == link_dec cur)) [
      | inl next ↦ rw (ne, next) (absorb-Dead b_ho (link_dec cur) _ _ d)
      | inr far ↦ rw (ne, far) d
    ]
  ]

  coalesce_prev-Dead : (b_ho prev : ℕ) → Dead b r → Dead b (coalesce_prev r b_ho prev)
  unfolding coalesce_prev
  coalesce_prev-Dead b_ho prev d = elim (Bool-cases (prev == 0)) [
    | inl e ↦ rw e d
    | inr ne ↦
        elim (Bool-cases (add64 (link_dec prev) (r.blk (link_dec prev)).total_size == b_ho)) [
          | inl next ↦ rw (ne, next) (absorb-Dead (link_dec prev) b_ho _ _ d)
          | inr far ↦ rw (ne, far) d
        ]
  ]

pub freelist_insert-Dead : (b : ℕ) (r : Region) → Returned (Dead b) (freelist_insert r b)
unfolding freelist_insert
freelist_insert-Dead b r =
    let r1 = clear_ownership r b in
    bind-Returned (Dead b) (insert_walk (fuel r) r1.blk b 0 r1.hdr.free_list) _ λ (prev, cur).
      coalesce_prev-Dead b (coalesce_next (splice r1 b prev cur) b cur) b prev (
        coalesce_next-Dead b (splice r1 b prev cur) b cur
          (splice-Dead b r1 b prev cur (clear-Dead r b)))

pub heap_free_block-Dead :
    (b : ℕ) (r r' : Region) → heap_free_block r b ≡ returns r' → (r'.blk b).allocated ≡ 0
unfolding heap_free_block
heap_free_block-Dead b r r' run = subst (Returned (Dead b)) run (freelist_insert-Dead b _)
