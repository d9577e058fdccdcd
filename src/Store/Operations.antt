-- ===== src/Store/Operations.antt =====
-- What each operation of src/shm_alloc.c does to the store of objects.
use disagg_shmem_allocator.Base.{
  ℕ, ◌+◌, ◌≤◌, false, none, ◌<◌, ◌≡◌, ◌≢◌, refl, sym, ap, ◌∙◌, subst, List, arith, some, true,
}
use disagg_shmem_allocator.Layout.{Region, set_hdr}
use disagg_shmem_allocator.Heap.Seg.{Chunk}
use disagg_shmem_allocator.Access.{ok, Status, success}
use disagg_shmem_allocator.Access.Rules.{MayAccess}
use disagg_shmem_allocator.Blocks.Perms.{Sets, sets, refuses}
use disagg_shmem_allocator.Directory.{has_id, dir_find_by_id}
use disagg_shmem_allocator.Objects.Invariant.{IsRegion}
use disagg_shmem_allocator.Objects.Request.{Granted}
use disagg_shmem_allocator.Objects.Release.{Released, has_id-facts}
use disagg_shmem_allocator.Resize.Outcome.{Resized}
use disagg_shmem_allocator.Session.{alloc_op, free_op, resize_op, set_perms_op, hosts_op}
use disagg_shmem_allocator.Store.{
  object_of, objects, Change, creates, removes, resizes, sets_perms, set_perms_denied, hosts,
}
use disagg_shmem_allocator.Store.View.{
  Entry, has_id-miss, objects-entry, objects-none, objects-besides,
}

module _ (r : Region) (cs : List Chunk) (inv : IsRegion r cs) where
  pub Granted-Change :
      (r' : Region) (size : ℕ) (name : List ℕ) (user_id perms type_tag at : ℕ)
      → Granted r r' cs size name user_id perms type_tag at
      → Change
          (objects r)
          (objects r')
          (alloc_op size name user_id perms type_tag (ok (r.hdr.next_id, at + 56)))
  Granted-Change r' size name user_id perms type_tag at g =
      creates size name user_id perms type_tag r.hdr.next_id (at + 56)
        (objects-none r r.hdr.next_id
          (λ i lt al same. absurd (omega (arith, (inv.entries i lt al).id_lt, same))))
        (objects-entry r' g.cs' r.hdr.next_id g.valid (record {
          slot = g.slot;
          room = omega (arith, g.room, g.capacity);
          alive = rw g.entry.1 (omega arith);
          named = ap (λ e. e.id) g.entry.1;
        })
          ∙ ap (λ e. some (object_of e)) g.entry.1)
        λ j ne.
          objects-besides r r' cs g.cs' inv g.valid g.slot g.capacity g.others j
            (λ al. absurd (al g.vacant)) (λ al same. ne (sym same ∙ ap (λ e. e.id) g.entry.1))

  -- The entry that the search for an ID has found.
  abbrev entry_of :
      (obj_id slot : ℕ)
      → slot < r.hdr.dir_capacity
      → has_id obj_id (r.dir slot) ≡ true
      → Entry r obj_id
  entry_of obj_id slot room hit =
      let (named, alive) = has_id-facts obj_id (r.dir slot) hit in
      record { slot = slot; room = room; alive = alive; named = named }

  -- Two live entries with one ID are one.
  only_entry :
      (obj_id slot i : ℕ) (e : Entry r obj_id)
      → e.slot ≡ slot
      → i < r.hdr.dir_capacity
      → (r.dir i).alive ≢ 0
      → (r.dir i).id ≡ obj_id
      → i ≡ slot
  only_entry obj_id slot i e at lt al named =
      inv.distinct i e.slot lt e.room al e.alive (named ∙ sym e.named) ∙ at

  pub Released-Change :
      (r' : Region) (obj_id slot b m user_id caller_perms : ℕ)
      → has_id obj_id (r.dir slot) ≡ true
      → MayAccess (r.dir slot).owner (r.dir slot).perms user_id caller_perms 0x04
      → Released r r' cs obj_id slot b m
      → Change (objects r) (objects r') (free_op obj_id user_id caller_perms success)
  Released-Change r' obj_id slot b m user_id caller_perms hit may g =
      let e = entry_of obj_id slot g.room hit in
      let dead =
        λ (al : (r'.dir slot).alive ≢ 0). absurd {A = ⊥} (al (ap (λ x. x.alive) g.vacated)) in
      removes obj_id user_id caller_perms (object_of (r.dir slot)) (objects-entry r cs obj_id inv e)
        may
        (objects-none r' obj_id λ i lt al named.
          let ne : i ≢ slot = λ q. dead (λ z. al (ap (λ t. (r'.dir t).alive) q ∙ z)) in
          let same = g.others i ne in
          ne (
            only_entry obj_id slot i e refl (omega (arith, lt, g.capacity))
              (subst (λ t. t.alive ≢ 0) same al) (sym (ap (λ t. t.id) same) ∙ named)))
        λ j ne.
          objects-besides r r' cs g.cs' inv g.valid slot g.capacity g.others j
            (λ al same. ne (sym same ∙ e.named)) (λ al. absurd (dead al))

  pub Resized-Change :
      (r' : Region) (obj_id new_size slot user_id caller_perms : ℕ)
      → has_id obj_id (r.dir slot) ≡ true
      → MayAccess (r.dir slot).owner (r.dir slot).perms user_id caller_perms 0x08
      → new_size ≢ 0
      → Resized r r' cs slot new_size
      → Change (objects r) (objects r') (resize_op obj_id new_size user_id caller_perms success)
  Resized-Change r' obj_id new_size slot user_id caller_perms hit may some_bytes g =
      let e = entry_of obj_id slot g.room hit in
      let named' = ap (λ x. x.id) g.entry ∙ e.named in
      resizes obj_id new_size user_id caller_perms (object_of (r.dir slot)) some_bytes
        (objects-entry r cs obj_id inv e) may
        (objects-entry r' g.cs' obj_id g.valid (record {
          slot = slot;
          room = omega (arith, g.room, g.dir_capacity);
          alive = λ z. e.alive (sym (ap (λ x. x.alive) g.entry) ∙ z);
          named = named';
        })
          ∙ ap (λ x. some (object_of x)) g.entry)
        λ j ne.
          objects-besides r r' cs g.cs' inv g.valid slot g.dir_capacity g.others j
            (λ al same. ne (sym same ∙ e.named)) (λ al same. ne (sym same ∙ named'))

  pub hosts_keep :
      (n : ℕ)
      → Change (objects r) (objects (set_hdr r (record (r.hdr) { host_count = n }))) hosts_op
  unfolding objects dir_find_by_id
  hosts_keep n = hosts (λ j. refl)

  -- An ID that the scan of the directory does not find, and the ID 0, are not in the store.
  pub missed :
      (obj_id : ℕ)
      → ((i : ℕ) → 0 ≤ i → i < r.hdr.dir_capacity → has_id obj_id (r.dir i) ≡ false)
      → objects r obj_id ≡ none
  missed obj_id f =
      objects-none r obj_id
        λ i lt al named. has_id-miss obj_id (r.dir i) (f i (omega arith) lt) al named

  pub no_zero : (obj_id : ℕ) → obj_id ≡ 0 → objects r obj_id ≡ none
  no_zero obj_id z = objects-none r obj_id λ i lt al named. (inv.entries i lt al).id_pos (named ∙ z)

  -- The object of an entry that the search for an ID has found.
  pub hit_object :
      (obj_id slot : ℕ)
      → slot < r.hdr.dir_capacity
      → has_id obj_id (r.dir slot) ≡ true
      → objects r obj_id ≡ some (object_of (r.dir slot))
  hit_object obj_id slot room hit = objects-entry r cs obj_id inv (entry_of obj_id slot room hit)

  -- A change of permissions at the offset of a live object.
  pub Sets-Change :
      (slot : ℕ) (room : slot < r.hdr.dir_capacity) (alive : (r.dir slot).alive ≢ 0)
      (user_id caller_perms new_perms : ℕ) (out : Region × Status)
      → Sets r cs inv slot room alive new_perms user_id caller_perms out
      → Change
          (objects r)
          (objects out.0)
          (set_perms_op (r.dir slot).id user_id caller_perms new_perms out.1)
  Sets-Change slot room alive user_id caller_perms new_perms out (refuses not_may) =
      set_perms_denied (r.dir slot).id new_perms user_id caller_perms (object_of (r.dir slot))
        (objects-entry r cs (r.dir slot).id inv
          (record { slot = slot; room = room; alive = alive; named = refl }))
        not_may (λ j. refl)
  Sets-Change slot room alive user_id caller_perms new_perms out
        (sets r' may valid at other hdr_at hdr_other hdr bytes) =
      let capacity = ap (λ h. h.dir_capacity) hdr in
      let named' = ap (λ x. x.id) at in
      sets_perms (r.dir slot).id new_perms user_id caller_perms (object_of (r.dir slot))
        (objects-entry r cs (r.dir slot).id inv
          (record { slot = slot; room = room; alive = alive; named = refl }))
        may
        (objects-entry r' cs (r.dir slot).id valid (record {
          slot = slot;
          room = omega (arith, room, capacity);
          alive = λ z. alive (sym (ap (λ x. x.alive) at) ∙ z);
          named = named';
        })
          ∙ ap (λ x. some (object_of x)) at)
        λ j ne.
          objects-besides r r' cs cs inv valid slot capacity other j (λ al same. ne (sym same))
            (λ al same. ne (sym same ∙ named'))
