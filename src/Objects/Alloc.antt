-- ===== src/Objects/Alloc.antt =====
-- `shm_alloc` on every branch, and its effect on the invariant.
use disagg_shmem_allocator.Base.{
  ℕ, ◌+◌, ◌-◌, ◌*◌, ◌/◌, ◌^◌, ◌≤◌, ◌<◌, ◌≡◌, ◌≢◌, refl, sym, ap, ◌∙◌, subst, inl, inr, List, ◌++◌,
  arith, eq→==, ne→==,
}
use native.Mathlib.Decide.{ℕ_discrete}
use disagg_shmem_allocator.Word.{add64}
use disagg_shmem_allocator.Layout.{Region, align_up, memset_zero}
use disagg_shmem_allocator.Layout.Align.{align_up_eight}
use disagg_shmem_allocator.Heap.Seg.{Chunk}
use disagg_shmem_allocator.Heap.Carve.{cut, taken}
use disagg_shmem_allocator.Heap.State.Alloc.{Allocated}
use disagg_shmem_allocator.Heap.Places.{LiveIn-disjoint, LiveIn, LiveIn-IsLive}
use disagg_shmem_allocator.Heap.Places.Taken.{LiveIn-taken, LiveIn-free_apart}
use disagg_shmem_allocator.Objects.{total_for, new_entry, publish}
use disagg_shmem_allocator.Objects.Invariant.{Backed, Listed, IsRegion}
use disagg_shmem_allocator.Objects.Publish.{
  publish-blk_at, publish-bytes_at, publish-bytes_out, publish-blk_out, publish-IsHeap,
}

-- For a size other than 0 that does not wrap around, the block has 64 bytes at least, room for
-- the header and the payload, and at most 7 bytes more.
pub total_for_bounds :
    (size : ℕ)
    → size ≢ 0
    → size + 64 < 2 ^ 64
    → (64 ≤ total_for size) × (size + 56 ≤ total_for size) × (total_for size ≤ size + 63)
total_for_bounds size nz small =
    let e : add64 56 size ≡ 56 + size = omega arith in
    let a : align_up (56 + size) 8 ≡ (56 + size + 7) / 8 * 8 =
      align_up_eight (56 + size) (omega arith) in
    rw (e, a) (omega arith, omega arith, omega arith)

-- The region in which the block for the request has been taken.
module _ (r r1 : Region) (cs : List Chunk) (at n need slot size : ℕ) (name : List ℕ)
    (user_id perms type_tag : ℕ) (inv : IsRegion r cs) (a : Allocated r r1 need cs at n)
    (vacant : (r.dir slot).alive ≡ 0) (room : slot < r.hdr.dir_capacity)
    (more : r.hdr.next_id + 1 < 2 ^ 64) where
  abbrev pub published : Region
  published = publish r1 slot at size name user_id perms type_tag

  abbrev pub cs' : List Chunk
  cs' = a.pre ++ (cut need n ++ a.post)

  pub live_at : LiveIn 0 cs' at (taken need n)
  live_at =
      (LiveIn-taken a.pre need n a.post at a.place at (taken need n) a.enough).0 (inl (refl, refl))

  pub next_same : r1.hdr.next_id ≡ r.hdr.next_id
  next_same = ap (λ h. h.next_id) a.takes.hdr

  pub cap_same : published.hdr.dir_capacity ≡ r.hdr.dir_capacity
  unfolding publish memset_zero
  cap_same = ap (λ h. h.dir_capacity) a.takes.hdr

  pub next_up : published.hdr.next_id ≡ r.hdr.next_id + 1
  unfolding publish memset_zero
  next_up = omega (arith, next_same, more)

  pub off : add64 at 56 ≡ at + 56
  off = omega (
    arith,
    (LiveIn-IsLive r1.blk 0 cs' _ r1.hdr.free_list 0 at (taken need n) a.heap.chunks live_at).1,
    a.heap.bound,
  )

  pub dir_at :
      published.dir slot
      ≡ new_entry r.hdr.next_id name (at + 56) (r1.blk at).payload_cap size type_tag user_id perms
  unfolding publish memset_zero
  dir_at = rw (eq→== slot slot refl, eq→== at at refl, next_same, off) refl

  pub dir_other : (i : ℕ) → i ≢ slot → published.dir i ≡ r.dir i
  unfolding publish memset_zero
  dir_other i ne = rw (ne→== slot i (λ e. ne (sym e)), a.takes.dir) refl

  fits : (r1.blk at).payload_cap + 56 ≤ taken need n
  fits =
      (LiveIn-IsLive r1.blk 0 cs' _ r1.hdr.free_list 0 at (taken need n) a.heap.chunks
        live_at).0.block.fits

  taken-le : taken need n ≤ n
  unfolding taken
  taken-le = ground (arith, a.enough)

  -- The header of a block that was live before.
  pub kept : (b k : ℕ) → LiveIn 0 cs b k → published.blk b ≡ r.blk b
  kept b k l =
      let (is, _) =
        LiveIn-IsLive r.blk 0 cs (r.size - r.hdr.data_offset) r.hdr.free_list 0 b k inv.heap.chunks
          l in
      let out =
        LiveIn-free_apart a.pre need n a.post at a.place b k (omega (arith, is.block.large))
          (subst (λ t. LiveIn 0 t b k) a.parts l) in
      publish-blk_out r1 slot at size name user_id perms type_tag (taken need n) b fits
        (omega (arith, out, taken-le))
      ∙ a.takes.headers b out is.tag

  pub still_live : (b k : ℕ) → LiveIn 0 cs b k → LiveIn 0 cs' b k
  still_live b k l =
      (LiveIn-taken a.pre need n a.post at a.place b k a.enough).0
        (inr (subst (λ t. LiveIn 0 t b k) a.parts l))

  -- The payload of a block that was live before, and that of the new one.
  pub payload_kept :
      (b k i : ℕ) → LiveIn 0 cs b k → i < k → published.bytes (b + i) ≡ r.bytes (b + i)
  payload_kept b k i l lt =
      let (is, _) =
        LiveIn-IsLive r.blk 0 cs (r.size - r.hdr.data_offset) r.hdr.free_list 0 b k inv.heap.chunks
          l in
      let out =
        LiveIn-free_apart a.pre need n a.post at a.place b k (omega (arith, is.block.large))
          (subst (λ t. LiveIn 0 t b k) a.parts l) in
      publish-bytes_out r1 slot at size name user_id perms type_tag (taken need n) (b + i) fits (
        omega (
          arith,
          out,
          lt,
          taken-le,
          LiveIn-disjoint cs' b k at (taken need n) (still_live b k l) live_at,
        ))
      ∙ ap (λ f. f (b + i)) a.takes.bytes

  pub payload_zeroed :
      (i : ℕ) → i < (published.dir slot).capacity → published.bytes (at + 56 + i) ≡ 0
  payload_zeroed i lt =
      publish-bytes_at r1 slot at size name user_id perms type_tag i
        (omega (arith, lt, ap (λ e. e.capacity) dir_at))

  Backed-new : Backed published cs' (published.dir slot)
  Backed-new = rw dir_at (record {
    id_pos = omega (arith, inv.next_pos);
    id_lt = omega (arith, next_up);
    at = at;
    size = taken need n;
    place = live_at;
    off = refl;
    mirror =
        rw (publish-blk_at r1 slot at size name user_id perms type_tag)
          (record { obj_id = next_same; owner = refl; perms = refl; type_tag = refl; cap = refl });
  })

  Backed-old : (i : ℕ) → Backed r cs (r.dir i) → i ≢ slot → Backed published cs' (published.dir i)
  Backed-old i b ne = rw (dir_other i ne) (record {
    id_pos = b.id_pos;
    id_lt = omega (arith, next_up, b.id_lt);
    at = b.at;
    size = b.size;
    place = still_live b.at b.size b.place;
    off = b.off;
    mirror = rw (kept b.at b.size b.place) b.mirror;
  })

  lt_old : (i : ℕ) → i < published.hdr.dir_capacity → i < r.hdr.dir_capacity
  lt_old i lt = omega (arith, lt, cap_same)

  alive_old : (i : ℕ) → i ≢ slot → (published.dir i).alive ≢ 0 → (r.dir i).alive ≢ 0
  alive_old i ne = subst (λ t. t.alive ≢ 0) (dir_other i ne)

  -- An entry that was live before has another ID than the new one.
  other_id :
      (i j : ℕ)
      → i ≢ slot
      → j ≡ slot
      → i < published.hdr.dir_capacity
      → (published.dir i).alive ≢ 0
      → (published.dir i).id ≢ (published.dir j).id
  other_id i j ne at_slot lt alive e = omega (
    arith,
    (inv.entries i (lt_old i lt) (alive_old i ne alive)).id_lt,
    ap (λ t. t.id) (dir_other i ne),
    e,
    ap (λ t. (published.dir t).id) at_slot,
    ap (λ t. t.id) dir_at,
  )

  distinct' :
      (i j : ℕ)
      → i < published.hdr.dir_capacity
      → j < published.hdr.dir_capacity
      → (published.dir i).alive ≢ 0
      → (published.dir j).alive ≢ 0
      → (published.dir i).id ≡ (published.dir j).id
      → i ≡ j
  distinct' i j p q u v e = elim (ℕ_discrete i slot) [
    | yes ei ↦ elim (ℕ_discrete j slot) [
      | yes ej ↦ ei ∙ sym ej
      | no nj ↦ absurd (other_id j i nj ei q v (sym e))
    ]
    | no ni ↦ elim (ℕ_discrete j slot) [
      | yes ej ↦ absurd (other_id i j ni ej p u e)
      | no nj ↦
          inv.distinct i j (lt_old i p) (lt_old j q) (alive_old i ni u) (alive_old j nj v)
            (sym (ap (λ t. t.id) (dir_other i ni)) ∙ e ∙ ap (λ t. t.id) (dir_other j nj))
    ]
  ]

  listed' : (b k : ℕ) → LiveIn 0 cs' b k → Listed published b
  listed' b k l = elim ((LiveIn-taken a.pre need n a.post at a.place b k a.enough).1 l) [
    | inl p ↦ record {
      slot = slot;
      lt = omega (arith, room, cap_same);
      alive = rw dir_at (omega arith);
      off = ap (λ t. t.off) dir_at ∙ ap (λ t. t + 56) (sym p.0);
    }
    | inr h ↦
        let old = inv.listed b k (subst (λ t. LiveIn 0 t b k) (sym a.parts) h) in
        let ne : old.slot ≢ slot = λ e. old.alive (ap (λ t. (r.dir t).alive) e ∙ vacant) in
        record {
          slot = old.slot;
          lt = omega (arith, old.lt, cap_same);
          alive = subst (λ t. t.alive ≢ 0) (sym (dir_other old.slot ne)) old.alive;
          off = ap (λ t. t.off) (dir_other old.slot ne) ∙ old.off;
        }
  ]

  pub published-IsRegion : IsRegion published cs'
  published-IsRegion = record {
    heap =
        publish-IsHeap r1 slot at size name user_id perms type_tag cs' (taken need n) a.heap
          live_at;
    next_pos = omega (arith, next_up);
    entries = λ i lt alive. elim (ℕ_discrete i slot) [
      | yes e ↦ subst (λ t. Backed published cs' (published.dir t)) (sym e) Backed-new
      | no ne ↦
          Backed-old i
            (inv.entries i (subst (λ t. i < t) cap_same lt)
              (subst (λ t. t.alive ≢ 0) (dir_other i ne) alive))
            ne
    ];
    distinct = distinct';
    listed = listed';
  }
