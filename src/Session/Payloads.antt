-- ===== src/Session/Payloads.antt =====
-- What the steps of Session do to the payloads of objects that stay: what the memset of shm_alloc and
-- the memset and memcpy of shm_resize write. The model keeps block headers apart from the payload
-- bytes, so that the writes of header fields have no part in it.
use disagg_shmem_allocator.Base.{
  ℕ, ◌+◌, ◌-◌, ◌<◌, ◌≡◌, ◌≢◌, refl, sym, ap, ◌∙◌, inl, inr, List, arith, ltb, Bool-cases,
}
use native.Mathlib.Decide.{ℕ_discrete}
use disagg_shmem_allocator.Layout.{Region}
use disagg_shmem_allocator.Access.{Status}
use disagg_shmem_allocator.Heap.Seg.{Chunk}
use disagg_shmem_allocator.Heap.Places.{LiveIn-IsLive}
use disagg_shmem_allocator.Objects.Invariant.{Backed, IsRegion}
use disagg_shmem_allocator.Objects.Request.{Granted}
use disagg_shmem_allocator.Objects.Release.{Released, has_id-facts}
use disagg_shmem_allocator.Resize.Outcome.{Resized}
use disagg_shmem_allocator.Blocks.Perms.{Sets, sets, refuses, shm_block_set_perms-Sets}
use disagg_shmem_allocator.Lifecycle.{shm_region_close}
use disagg_shmem_allocator.Session.Cases.{allocated_as, freed_as, resized_as}
use disagg_shmem_allocator.Session.{
  Step, allocates, frees, sets_perms, resizes, attaches, closes, Valid, Step-Valid,
}

-- The object `id` is in the region, and its capacity takes in byte `i` of its payload.
pub record Holds (id i : ℕ) (r : Region) : Type 0 where
  pub slot : ℕ
  pub room : slot < r.hdr.dir_capacity
  pub alive : (r.dir slot).alive ≢ 0
  pub named : (r.dir slot).id ≡ id
  pub inside : i < (r.dir slot).capacity

abbrev pub byte : {id i : ℕ} (r : Region) → Holds id i r → ℕ
byte {id} {i} r h = r.bytes ((r.dir h.slot).off + i)

-- Operations that leave the object in the region, with the byte inside its capacity all along.
pub data Lasting (id i : ℕ) (r : Region) : Region → Type 0 where
  start : Holds id i r → Lasting id i r r
  next : (r' r'' : Region) → Lasting id i r r' → Step r' r'' → Holds id i r'' → Lasting id i r r''

-- The byte is the same afterwards, if it is there before and afterwards.
abbrev Keeps : (id i : ℕ) (r r' : Region) → Type 0
Keeps id i r r' = (h : Holds id i r) (h' : Holds id i r') → byte r' h' ≡ byte r h

module _ (id i : ℕ) (r : Region) (cs : List Chunk) (inv : IsRegion r cs) where
  -- The object's block, and the byte's place in it.
  own : (h : Holds id i r) → Backed r cs (r.dir h.slot)
  own h = inv.entries h.slot h.room h.alive

  within : (h : Holds id i r) → 56 + i < (own h).size
  within h =
      let o = own h in
      let is =
        LiveIn-IsLive r.blk 0 cs (r.size - r.hdr.data_offset) r.hdr.free_list 0 o.at o.size
          inv.heap.chunks o.place in
      omega (arith, h.inside, is.0.block.fits, o.mirror.cap)

  -- The object's entry has the ID and the offset that it had, in the same slot, and its block the
  -- bytes.
  module _ (r' : Region) (h : Holds id i r) (h' : Holds id i r')
      (room : h'.slot < r.hdr.dir_capacity) (alive : (r'.dir h'.slot).alive ≡ (r.dir h'.slot).alive)
      (named : (r'.dir h'.slot).id ≡ (r.dir h'.slot).id)
      (off : (r'.dir h'.slot).off ≡ (r.dir h'.slot).off) where
    same_slot : h'.slot ≡ h.slot
    same_slot =
        inv.distinct h'.slot h.slot room h.room (λ z. h'.alive (alive ∙ z)) h.alive
          (sym named ∙ h'.named ∙ sym h.named)

    in_place :
        r'.bytes ((own h).at + (56 + i)) ≡ r.bytes ((own h).at + (56 + i)) → byte r' h' ≡ byte r h
    in_place kept =
        let there = ap (λ s. (r.dir s).off) same_slot in
        ap r'.bytes (omega (arith, off, there, (own h).off))
        ∙ kept
        ∙ ap r.bytes (omega (arith, (own h).off))

  Keeps-refl : Keeps id i r r
  Keeps-refl h h' = in_place r h h' h'.room refl refl refl refl

  Granted-Keeps :
      (r' : Region) (size : ℕ) (name : List ℕ) (user_id perms type_tag at : ℕ)
      → Granted r r' cs size name user_id perms type_tag at
      → Keeps id i r r'
  Granted-Keeps r' size name user_id perms type_tag at g h h' = elim (ℕ_discrete h'.slot g.slot) [
    | yes q ↦ absurd (
        omega (
          arith,
          (own h).id_lt,
          h.named,
          h'.named,
          ap (λ s. (r'.dir s).id) q,
          ap (λ e. e.id) g.entry.1,
        ))
    | no ne ↦
        let same = g.others h'.slot ne in
        in_place r' h h' (omega (arith, h'.room, g.capacity)) (ap (λ e. e.alive) same)
          (ap (λ e. e.id) same) (ap (λ e. e.off) same)
          (g.payloads (own h).at (own h).size (56 + i) (own h).place (within h))
  ]

  Released-Keeps :
      (r' : Region) (obj_id slot b m : ℕ) → Released r r' cs obj_id slot b m → Keeps id i r r'
  Released-Keeps r' obj_id slot b m g h h' = elim (ℕ_discrete h'.slot slot) [
    | yes q ↦ absurd (h'.alive (ap (λ s. (r'.dir s).alive) q ∙ ap (λ e. e.alive) g.vacated))
    | no ne ↦
        let same = g.others h'.slot ne in
        in_place r' h h' (omega (arith, h'.room, g.capacity)) (ap (λ e. e.alive) same)
          (ap (λ e. e.id) same) (ap (λ e. e.off) same) (ap (λ f. f ((own h).at + (56 + i))) g.bytes)
  ]

  -- Two live entries with one offset are one.
  one_offset :
      (h : Holds id i r) (slot : ℕ)
      → slot < r.hdr.dir_capacity
      → (r.dir slot).alive ≢ 0
      → (own h).at + 56 ≡ (r.dir slot).off
      → h.slot ≡ slot
  one_offset h slot room alive e =
      let o = inv.entries slot room alive in
      let at : (own h).at ≡ o.at = omega (arith, e, o.off) in
      inv.distinct h.slot slot h.room room h.alive alive
        (sym (own h).mirror.obj_id ∙ ap (λ a. (r.blk a).obj_id) at ∙ o.mirror.obj_id)

  Resized-Keeps :
      (r' : Region) (slot new_size : ℕ)
      → (r.dir slot).alive ≢ 0
      → Resized r r' cs slot new_size
      → Keeps id i r r'
  Resized-Keeps r' slot new_size alive g h h' = elim (ℕ_discrete h'.slot slot) [
    | yes q ↦
        let here : h.slot ≡ slot =
          inv.distinct h.slot slot h.room g.room h.alive alive
            (h.named ∙ sym h'.named ∙ ap (λ s. (r'.dir s).id) q ∙ ap (λ e. e.id) g.entry) in
        ap r'.bytes (omega (arith, ap (λ s. (r'.dir s).off) q, ap (λ e. e.off) g.entry))
        ∙ g.bytes i (omega (arith, h.inside, ap (λ s. (r.dir s).capacity) here)) (
            omega (arith, h'.inside, ap (λ s. (r'.dir s).capacity) q, ap (λ e. e.capacity) g.entry))
        ∙ ap r.bytes (omega (arith, ap (λ s. (r.dir s).off) here))
    | no ne ↦
        let same = g.others h'.slot ne in
        let there : h'.slot ≡ h.slot =
          same_slot r' h h' (omega (arith, h'.room, g.dir_capacity)) (ap (λ e. e.alive) same)
            (ap (λ e. e.id) same) (ap (λ e. e.off) same) in
        in_place r' h h' (omega (arith, h'.room, g.dir_capacity)) (ap (λ e. e.alive) same)
          (ap (λ e. e.id) same) (ap (λ e. e.off) same)
          (g.payloads (own h).at (own h).size (56 + i) (own h).place
            (λ e. ne (there ∙ one_offset h slot g.room alive e)) (within h))
  ]

  set_perms-Keeps :
      (slot : ℕ) (room : slot < r.hdr.dir_capacity) (alive : (r.dir slot).alive ≢ 0)
      (user_id caller_perms new_perms : ℕ) (out : Region × Status)
      → Sets r cs inv slot room alive new_perms user_id caller_perms out
      → Keeps id i r out.0
  set_perms-Keeps slot room alive user_id caller_perms new_perms out (refuses not_may) h h' =
      Keeps-refl h h'
  set_perms-Keeps slot room alive user_id caller_perms new_perms out
        (sets r' may valid at other hdr_at hdr_other hdr bytes) h h' =
      let there : h'.slot < r.hdr.dir_capacity =
        omega (arith, h'.room, ap (λ x. x.dir_capacity) hdr) in
      let kept = ap (λ f. f ((own h).at + (56 + i))) bytes in
      elim (ℕ_discrete h'.slot slot) [
        | no ne ↦
            let same = other h'.slot ne in
            in_place r' h h' there (ap (λ e. e.alive) same) (ap (λ e. e.id) same)
              (ap (λ e. e.off) same) kept
        | yes q ↦
            let here = ap (λ s. r'.dir s) q in
            let back = ap (λ s. r.dir s) (sym q) in
            in_place r' h h' there
              (ap (λ e. e.alive) here ∙ ap (λ e. e.alive) at ∙ ap (λ e. e.alive) back)
              (ap (λ e. e.id) here ∙ ap (λ e. e.id) at ∙ ap (λ e. e.id) back)
              (ap (λ e. e.off) here ∙ ap (λ e. e.off) at ∙ ap (λ e. e.off) back) kept
      ]

Step-Keeps : (id i : ℕ) (r r' : Region) → Step r r' → Valid r → Keeps id i r r'
unfolding shm_region_close
Step-Keeps id i r r' (allocates r'' size name user_id perms type_tag answer small more run)
      (cs, inv) =
    allocated_as r cs inv (Keeps id i r) (Keeps-refl id i r cs inv) size name user_id perms type_tag
      answer small more run (λ r1. Granted-Keeps id i r cs inv r1 size name user_id perms type_tag)
Step-Keeps id i r r' (frees r'' obj_id user_id caller_perms status run) (cs, inv) =
    freed_as r cs inv (Keeps id i r) (Keeps-refl id i r cs inv) obj_id user_id caller_perms status
      run (λ slot b m r1 h may. Released-Keeps id i r cs inv r1 obj_id slot b m)
Step-Keeps id i r r' (sets_perms slot user_id caller_perms new_perms room alive) (cs, inv) =
    set_perms-Keeps id i r cs inv slot room alive user_id caller_perms new_perms _
      (shm_block_set_perms-Sets r cs inv slot room alive new_perms user_id caller_perms)
Step-Keeps id i r r' (resizes r'' obj_id new_size user_id caller_perms status small fits run)
      (cs, inv) =
    resized_as r cs inv (Keeps id i r) (Keeps-refl id i r cs inv) obj_id new_size user_id
      caller_perms status small fits run
      (λ slot r1 hit may.
        Resized-Keeps id i r cs inv r1 slot new_size (has_id-facts obj_id (r.dir slot) hit).1)
Step-Keeps id i r r' attaches (cs, inv) =
    λ h h'. in_place id i r cs inv r' h h' h'.room refl refl refl refl
Step-Keeps id i r r' (closes backend unlink_name) (cs, inv) =
    elim (Bool-cases (ltb 0 r.hdr.host_count)) [
      | inl some_host ↦
          rw some_host (λ h h'. in_place id i r cs inv _ h h' h'.room refl refl refl refl)
      | inr no_host ↦ rw no_host (Keeps-refl id i r cs inv)
    ]

Lasting-Holds : (id i : ℕ) (r r' : Region) → Lasting id i r r' → Holds id i r'
Lasting-Holds id i r r' (start h) = h
Lasting-Holds id i r r' (next r1 r'' p step h) = h

Lasting-Valid : (id i : ℕ) (r r' : Region) → Lasting id i r r' → Valid r → Valid r'
Lasting-Valid id i r r' (start h) v = v
Lasting-Valid id i r r' (next r1 r'' p step h) v =
    Step-Valid r1 r' step (Lasting-Valid id i r r1 p v)

-- From a region that satisfies the invariant, while an object stays in the region and a byte of its
-- payload lies inside its capacity, no sequence of steps changes that byte, wherever the object's
-- block is moved to. The steps are those of Session: they exclude allocations and resizes whose size
-- wraps around, IDs that wrap around, and resizes that copy to a block with a recorded capacity
-- below that of the object's block, which do overwrite other payloads.
pub Lasting-byte :
    (id i : ℕ) (r r' : Region)
    → Valid r
    → Lasting id i r r'
    → (h : Holds id i r) (h' : Holds id i r') → byte r' h' ≡ byte r h
Lasting-byte id i r r' (cs, inv) (start k) h h' = Keeps-refl id i r cs inv h h'
Lasting-byte id i r r' v (next r1 r'' p step k) h h' =
    let h1 = Lasting-Holds id i r r1 p in
    Step-Keeps id i r1 r' step (Lasting-Valid id i r r1 p v) h1 h' ∙ Lasting-byte id i r r1 v p h h1
