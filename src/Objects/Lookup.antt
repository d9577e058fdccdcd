-- ===== src/Objects/Lookup.antt =====
-- `shm_lookup` and `shm_ptr` of src/shm_alloc.c on live objects.
use disagg_shmem_allocator.Base.{
  ℕ, ◌+◌, ◌-◌, ◌^◌, ◌≤◌, ◌<◌, ◌≡◌, ◌≢◌, refl, sym, ap, ◌∙◌, subst, inl, inr, List, arith, true,
  false, Bool, some, Run, returns, result_or, Option-cases, ne→==,
}
use disagg_shmem_allocator.Word.{add64}
use disagg_shmem_allocator.Layout.{ObjEntry, Region, hoff_of_poff}
use disagg_shmem_allocator.Heap.Seg.{Chunk, IsLive}
use disagg_shmem_allocator.Heap.Places.{LiveIn-IsLive}
use disagg_shmem_allocator.Access.{Status, success, Answer, ok, err, perm_read, check_block_access}
use disagg_shmem_allocator.Access.Rules.{MayAccess, check_dir_access_iff, check_block_access_iff}
use disagg_shmem_allocator.Blocks.{shm_ptr}
use disagg_shmem_allocator.Directory.{first_slot, has_id, dir_find_by_id}
use disagg_shmem_allocator.Directory.Scan.{Outcome, first_slot-all}
use disagg_shmem_allocator.Objects.{shm_alloc, shm_lookup}
use disagg_shmem_allocator.Objects.Invariant.{Backed, IsRegion}
use disagg_shmem_allocator.Objects.Release.{has_id-facts}
use disagg_shmem_allocator.Objects.Request.{
  Granted, empty, full, too_large, granted, shm_alloc-Requests,
}

has_id-holds : (e : ObjEntry) → e.alive ≢ 0 → has_id e.id e ≡ true
has_id-holds e al = ground arith

module _ (r : Region) (cs : List Chunk) (inv : IsRegion r cs) (slot : ℕ)
    (room : slot < r.hdr.dir_capacity) (alive : (r.dir slot).alive ≢ 0) where
  -- The search for the ID of a live entry ends at its slot.
  pub first_slot-entry : first_slot (has_id (r.dir slot).id) r.dir r.hdr.dir_capacity 0 ≡ some slot
  first_slot-entry = elim (Option-cases (first_slot (has_id id) r.dir r.hdr.dir_capacity 0)) [
    | inl e ↦
        let f =
          subst (Outcome (has_id id) r.dir 0 r.hdr.dir_capacity) e
            (first_slot-all (has_id id) r.dir r.hdr.dir_capacity) in
        absurd (true≢false (sym (has_id-holds (r.dir slot) alive) ∙ f slot (omega arith) room))
    | inr (j, e) ↦
        let f =
          subst (Outcome (has_id id) r.dir 0 r.hdr.dir_capacity) e
            (first_slot-all (has_id id) r.dir r.hdr.dir_capacity) in
        let (same, al) = has_id-facts id (r.dir j) f.2 in
        e ∙ ap some (inv.distinct j slot f.1 room al alive same)
  ]
    where
      id : ℕ
      id = (r.dir slot).id

      true≢false : true ≢ false
      true≢false e = ground arith

  -- For a region that satisfies the invariant, a live entry, and a caller who may read it, a lookup
  -- by the entry's ID gives its offset and size, and a pointer to that offset is given out.
  pub shm_lookup-entry :
      (caller caller_perms : ℕ)
      → MayAccess (r.dir slot).owner (r.dir slot).perms caller caller_perms perm_read
      → (shm_lookup r (r.dir slot).id caller caller_perms
          ≡ ok ((r.dir slot).off, (r.dir slot).used_size))
        × (shm_ptr r (r.dir slot).off caller caller_perms perm_read ≡ some (r.dir slot).off)
  unfolding shm_lookup dir_find_by_id shm_ptr
  shm_lookup-entry caller caller_perms may = (
    rw
        (
          ne→== (r.dir slot).id 0 own.id_pos,
          first_slot-entry,
          (check_dir_access_iff (r.dir slot) caller caller_perms perm_read).1
              (alive, own.id_pos, may),
        )
        refl,
    rw (shm_ptr, block) (ap some back),
  )
    where
      own : Backed r cs (r.dir slot)
      own = inv.entries slot room alive

      is_live : IsLive (r.blk own.at) own.size × (own.at + own.size ≤ r.size - r.hdr.data_offset)
      is_live =
          LiveIn-IsLive r.blk 0 cs (r.size - r.hdr.data_offset) r.hdr.free_list 0 own.at own.size
            inv.heap.chunks own.place

      at_b : hoff_of_poff (r.dir slot).off ≡ own.at
      at_b = omega (arith, own.off, is_live.1, inv.heap.bound)

      back : add64 (hoff_of_poff (r.dir slot).off) 56 ≡ (r.dir slot).off
      back = omega (arith, own.off, is_live.1, inv.heap.bound)

      block :
          check_block_access
            (some (r.blk (hoff_of_poff (r.dir slot).off)))
            caller
            caller_perms
            perm_read
          ≡ success
      block = rw at_b (
          (check_block_access_iff (r.blk own.at) caller caller_perms perm_read).1 (
            is_live.0.block.magic,
            omega (arith, is_live.0.tag),
            rw (own.mirror.owner, own.mirror.perms) may,
          ))

abbrev is_granted : Answer (ℕ × ℕ) → Bool
is_granted (ok a) = true
is_granted (err e) = false

abbrev ids_or : ℕ × ℕ → Answer (ℕ × ℕ) → ℕ × ℕ
ids_or d (ok a) = a
ids_or d (err e) = d

abbrev answered : Region × Answer (ℕ × ℕ) → Run (Region × Answer (ℕ × ℕ))
answered a = returns a

refused≢granted :
    (r r' : Region) (e : Status) (a : ℕ × ℕ) → answered (r, err e) ≢ returns (r', ok a)
refused≢granted r r' e a same =
    let no : false ≡ true =
      ap (λ t. is_granted (result_or {A = Region × Answer (ℕ × ℕ)} (r, err e) t).1) same in
    ground arith

module _ (r : Region) (cs : List Chunk) (size : ℕ) (name : List ℕ) (user_id perms type_tag : ℕ)
    (r' : Region) (caller caller_perms : ℕ) where
  abbrev Opens : (id off : ℕ) → Type 0
  Opens id off =
      (shm_lookup r' id caller caller_perms ≡ ok (off, size))
      × (shm_ptr r' off caller caller_perms perm_read ≡ some off)

  Granted-lookup :
      (at : ℕ)
      → Granted r r' cs size name user_id perms type_tag at
      → MayAccess user_id perms caller caller_perms perm_read
      → Opens r.hdr.next_id (at + 56)
  Granted-lookup at g may =
      let e = g.entry.1 in
      let alive : (r'.dir g.slot).alive ≢ 0 = rw e (omega arith) in
      subst
        (λ t.
          (shm_lookup r' t.id caller caller_perms ≡ ok (t.off, t.used_size))
          × (shm_ptr r' t.off caller caller_perms perm_read ≡ some t.off))
        e
        (shm_lookup-entry r' g.cs' g.valid g.slot (omega (arith, g.room, g.capacity)) alive caller
          caller_perms (rw e may))

  -- For a region that satisfies the invariant, a size that does not wrap around and IDs that have not
  -- run out: what `shm_alloc` answers, a caller who may read the object finds again, by its ID with
  -- its offset and size, and by its offset as a pointer.
  pub shm_alloc-lookup :
      (id off : ℕ)
      → IsRegion r cs
      → size + 64 < 2 ^ 64
      → r.hdr.next_id + 1 < 2 ^ 64
      → shm_alloc r size name user_id perms type_tag ≡ returns (r', ok (id, off))
      → MayAccess user_id perms caller caller_perms perm_read
      → Opens id off
  shm_alloc-lookup id off inv small more run may =
      elim (shm_alloc-Requests r cs size name user_id perms type_tag inv small more) [
        | empty z run' ↦ absurd (refused≢granted r r' _ (id, off) (sym run' ∙ run))
        | full f run' ↦ absurd (refused≢granted r r' _ (id, off) (sym run' ∙ run))
        | too_large t run' ↦ absurd (refused≢granted r r' _ (id, off) (sym run' ∙ run))
        | granted r1 at g run' ↦
            let e = sym run' ∙ run in
            let d : Region × Answer (ℕ × ℕ) = (r1, ok (r.hdr.next_id, at + 56)) in
            subst (λ p. Opens p.0 p.1)
              (ap (λ t. ids_or (id, off) (result_or {A = Region × Answer (ℕ × ℕ)} d t).1) e)
              (Granted-lookup at
                (subst (λ t. Granted r t cs size name user_id perms type_tag at)
                  (ap (λ t. (result_or {A = Region × Answer (ℕ × ℕ)} d t).0) e) g)
                may)
      ]
