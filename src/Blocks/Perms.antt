-- ===== src/Blocks/Perms.antt =====
-- `shm_block_set_perms` of src/shm_alloc.c at the offset of a live object: the header and the entry
-- change together, so the invariant holds.
use disagg_shmem_allocator.Base.{
  ℕ, ◌+◌, ◌≤◌, ◌-◌, ◌<◌, ◌≡◌, ◌≢◌, refl, sym, ap, ◌∙◌, subst, inl, inr, List, arith, some, none,
  eq→==, ne→==,
}
use native.Mathlib.Decide.{ℕ_discrete}
use disagg_shmem_allocator.Layout.{Region, hoff_of_poff, set_blk, set_slot}
use disagg_shmem_allocator.Heap.Seg.{Chunk, IsLive}
use disagg_shmem_allocator.Heap.Places.{LiveIn-IsLive}
use disagg_shmem_allocator.Heap.Agree.{Agrees, Agrees-of_eq, IsHeap-agree}
use disagg_shmem_allocator.Access.{Status, success, eacces, perm_write, check_block_access}
use disagg_shmem_allocator.Blocks.{blk_of_poff, set_perms_at, shm_block_set_perms}
use disagg_shmem_allocator.Access.Rules.{
  MayAccess, check_block_access_iff, block_access-cases, success≢eacces,
}
use disagg_shmem_allocator.Directory.{dir_find_by_id}
use disagg_shmem_allocator.Objects.Invariant.{Backed, IsRegion}
use disagg_shmem_allocator.Objects.Lookup.{first_slot-entry}

module _ (r : Region) (cs : List Chunk) (inv : IsRegion r cs) (slot : ℕ)
    (room : slot < r.hdr.dir_capacity) (alive : (r.dir slot).alive ≢ 0) (new_perms : ℕ) where
  pub own : Backed r cs (r.dir slot)
  own = inv.entries slot room alive

  is_live : IsLive (r.blk own.at) own.size × (own.at + own.size ≤ r.size - r.hdr.data_offset)
  is_live =
      LiveIn-IsLive r.blk 0 cs (r.size - r.hdr.data_offset) r.hdr.free_list 0 own.at own.size
        inv.heap.chunks own.place

  -- The header and the entry with the new permissions.
  changed : Region
  changed =
      set_slot (set_blk r own.at (record (r.blk own.at) { perms = new_perms })) slot
        (record (r.dir slot) { perms = new_perms })

  abbrev header_set : Region
  header_set = set_blk r own.at (record (r.blk own.at) { perms = new_perms })

  id_kept : (header_set.blk own.at).obj_id ≡ (r.dir slot).id
  id_kept = rw (eq→== own.at own.at refl) own.mirror.obj_id

  found : dir_find_by_id header_set (header_set.blk own.at).obj_id ≡ some slot
  unfolding dir_find_by_id
  found = ap (dir_find_by_id header_set) id_kept ∙ first_slot-entry r cs inv slot room alive

  set_perms_at-changed : set_perms_at r own.at new_perms ≡ changed
  unfolding set_perms_at changed
  set_perms_at-changed =
      ap
        (λ o. elim o [
          | none ↦ header_set
          | some s ↦ set_slot header_set s (record (header_set.dir s) { perms = new_perms })
        ])
        found

  entry_at : changed.dir slot ≡ record (r.dir slot) { perms = new_perms }
  unfolding changed
  entry_at = rw (eq→== slot slot refl) refl

  entry_other : (i : ℕ) → i ≢ slot → changed.dir i ≡ r.dir i
  unfolding changed
  entry_other i ne = rw (ne→== slot i (λ e. ne (sym e))) refl

  header_at : changed.blk own.at ≡ record (r.blk own.at) { perms = new_perms }
  unfolding changed
  header_at = rw (eq→== own.at own.at refl) refl

  header_other : (a : ℕ) → a ≢ own.at → changed.blk a ≡ r.blk a
  unfolding changed
  header_other a ne = rw (ne→== own.at a (λ e. ne (sym e))) refl

  agrees : (a : ℕ) → Agrees (r.blk a) (changed.blk a)
  agrees a = elim (ℕ_discrete a own.at) [
    | yes e ↦
        subst (λ t. Agrees (r.blk t) (changed.blk t)) (sym e)
          (subst (Agrees (r.blk own.at)) (sym header_at)
            (record { magic = refl; allocated = refl; total = refl; cap = refl; next = refl }))
    | no ne ↦ Agrees-of_eq (header_other a ne)
  ]

  same_hdr : changed.hdr ≡ r.hdr
  unfolding changed
  same_hdr = refl

  same_size : changed.size ≡ r.size
  unfolding changed
  same_size = refl

  next_same : changed.hdr.next_id ≡ r.hdr.next_id
  next_same = ap (λ h. h.next_id) same_hdr

  lt_old : (i : ℕ) → i < changed.hdr.dir_capacity → i < r.hdr.dir_capacity
  lt_old i lt = omega (arith, lt, ap (λ h. h.dir_capacity) same_hdr)

  -- An entry keeps its ID, its tag and its offset.
  same_id : (i : ℕ) → (changed.dir i).id ≡ (r.dir i).id
  same_id i = elim (ℕ_discrete i slot) [
    | yes e ↦
        ap (λ t. (changed.dir t).id) e ∙ ap (λ t. t.id) entry_at ∙ ap (λ t. (r.dir t).id) (sym e)
    | no ne ↦ ap (λ t. t.id) (entry_other i ne)
  ]

  same_alive : (i : ℕ) → (changed.dir i).alive ≡ (r.dir i).alive
  same_alive i = elim (ℕ_discrete i slot) [
    | yes e ↦
        ap (λ t. (changed.dir t).alive) e
        ∙ ap (λ t. t.alive) entry_at
        ∙ ap (λ t. (r.dir t).alive) (sym e)
    | no ne ↦ ap (λ t. t.alive) (entry_other i ne)
  ]

  same_off : (i : ℕ) → (changed.dir i).off ≡ (r.dir i).off
  same_off i = elim (ℕ_discrete i slot) [
    | yes e ↦
        ap (λ t. (changed.dir t).off) e ∙ ap (λ t. t.off) entry_at ∙ ap (λ t. (r.dir t).off) (sym e)
    | no ne ↦ ap (λ t. t.off) (entry_other i ne)
  ]

  was_alive : (i : ℕ) → (changed.dir i).alive ≢ 0 → (r.dir i).alive ≢ 0
  was_alive i al e = al (same_alive i ∙ e)

  -- The other entries' blocks are other blocks.
  apart :
      (i : ℕ) (b : Backed r cs (r.dir i))
      → i < r.hdr.dir_capacity
      → (r.dir i).alive ≢ 0
      → i ≢ slot
      → b.at ≢ own.at
  apart i b lt al ne e = ne (
      inv.distinct i slot lt room al alive
        (sym b.mirror.obj_id ∙ ap (λ t. (r.blk t).obj_id) e ∙ own.mirror.obj_id))

  Backed-changed :
      (i : ℕ)
      → i < r.hdr.dir_capacity
      → (changed.dir i).alive ≢ 0
      → Backed changed cs (changed.dir i)
  Backed-changed i lt al = elim (ℕ_discrete i slot) [
    | yes e ↦ subst (λ t. Backed changed cs (changed.dir t)) (sym e) (rw entry_at at_slot)
    | no ne ↦
        let b = inv.entries i lt (was_alive i al) in
        rw (entry_other i ne) (record {
          id_pos = b.id_pos;
          id_lt = omega (arith, next_same, b.id_lt);
          at = b.at;
          size = b.size;
          place = b.place;
          off = b.off;
          mirror = rw (header_other b.at (apart i b lt (was_alive i al) ne)) b.mirror;
        })
  ]
    where
      at_slot : Backed changed cs (record (r.dir slot) { perms = new_perms })
      at_slot = record {
        id_pos = own.id_pos;
        id_lt = omega (arith, next_same, own.id_lt);
        at = own.at;
        size = own.size;
        place = own.place;
        off = own.off;
        mirror = rw header_at (record {
          obj_id = own.mirror.obj_id;
          owner = own.mirror.owner;
          perms = refl;
          type_tag = own.mirror.type_tag;
          cap = own.mirror.cap;
        });
      }

  changed-IsRegion : IsRegion changed cs
  changed-IsRegion = record {
    heap =
        IsHeap-agree r changed cs same_size (ap (λ h. h.data_offset) same_hdr)
          (ap (λ h. h.free_list) same_hdr) (ap (λ h. h.used_bytes) same_hdr)
          (ap (λ h. h.block_count) same_hdr) (λ a s. agrees a) inv.heap;
    next_pos = omega (arith, next_same, inv.next_pos);
    entries = λ i lt al. Backed-changed i (lt_old i lt) al;
    distinct = λ i j p q u v e.
        inv.distinct i j (lt_old i p) (lt_old j q) (was_alive i u) (was_alive j v)
          (sym (same_id i) ∙ e ∙ same_id j);
    listed = λ a k l.
        let b = inv.listed a k l in
        record {
          slot = b.slot;
          lt = omega (arith, b.lt, ap (λ h. h.dir_capacity) same_hdr);
          alive = λ z. b.alive (sym (same_alive b.slot) ∙ z);
          off = same_off b.slot ∙ b.off;
        };
  }

  at_own : hoff_of_poff (r.dir slot).off ≡ own.at
  at_own = omega (
    arith,
    own.off,
    (LiveIn-IsLive r.blk 0 cs (r.size - r.hdr.data_offset) r.hdr.free_list 0 own.at own.size
        inv.heap.chunks own.place).1,
    inv.heap.bound,
  )

  abbrev pub Granted : (user_id caller_perms : ℕ) → Type 0
  Granted user_id caller_perms =
      MayAccess (r.dir slot).owner (r.dir slot).perms user_id caller_perms perm_write

  same_bytes : changed.bytes ≡ r.bytes
  unfolding changed
  same_bytes = refl

  allowed :
      (user_id caller_perms : ℕ)
      → check_block_access (some (r.blk own.at)) user_id caller_perms perm_write ≡ success
      → Granted user_id caller_perms
  allowed user_id caller_perms e =
      rw (← own.mirror.owner, ← own.mirror.perms)
        ((check_block_access_iff (r.blk own.at) user_id caller_perms perm_write).0 e).2

  denied :
      (user_id caller_perms : ℕ)
      → check_block_access (some (r.blk own.at)) user_id caller_perms perm_write ≡ eacces
      → ¬ Granted user_id caller_perms
  denied user_id caller_perms e m = success≢eacces (
      sym (
        (check_block_access_iff (r.blk own.at) user_id caller_perms perm_write).1 (
          is_live.0.block.magic,
          omega (arith, is_live.0.tag),
          rw (own.mirror.owner, own.mirror.perms) m,
        ))
      ∙ e)

  at_block :
      {s : Status} (user_id caller_perms : ℕ)
      → check_block_access (some (r.blk own.at)) user_id caller_perms perm_write ≡ s
      → check_block_access (some (blk_of_poff r (r.dir slot).off)) user_id caller_perms perm_write
        ≡ s
  at_block user_id caller_perms e =
      ap (λ t. check_block_access (some (r.blk t)) user_id caller_perms perm_write) at_own ∙ e

  passed_out :
      (user_id caller_perms : ℕ)
      → check_block_access (some (r.blk own.at)) user_id caller_perms perm_write ≡ success
      → shm_block_set_perms r (r.dir slot).off user_id caller_perms new_perms ≡ (changed, success)
  unfolding shm_block_set_perms
  passed_out user_id caller_perms e =
      rw (shm_block_set_perms, at_block user_id caller_perms e)
        (ap (λ t. (set_perms_at r t new_perms, success)) at_own
          ∙ ap (λ t. (t, success)) set_perms_at-changed)

  refused_out :
      (user_id caller_perms : ℕ)
      → check_block_access (some (r.blk own.at)) user_id caller_perms perm_write ≡ eacces
      → shm_block_set_perms r (r.dir slot).off user_id caller_perms new_perms ≡ (r, eacces)
  unfolding shm_block_set_perms
  refused_out user_id caller_perms e =
      rw (shm_block_set_perms, at_block user_id caller_perms e) refl

  -- What a change of permissions at the offset of a live object does.
  pub data Sets (user_id caller_perms : ℕ) : Region × Status → Type 0 where
    sets :
        (r' : Region)
        → Granted user_id caller_perms
        → IsRegion r' cs
        → r'.dir slot ≡ record (r.dir slot) { perms = new_perms }
        → ((i : ℕ) → i ≢ slot → r'.dir i ≡ r.dir i)
        → r'.blk own.at ≡ record (r.blk own.at) { perms = new_perms }
        → ((a : ℕ) → a ≢ own.at → r'.blk a ≡ r.blk a)
        → r'.hdr ≡ r.hdr
        → r'.bytes ≡ r.bytes
        → Sets user_id caller_perms (r', success)
    refuses : ¬ Granted user_id caller_perms → Sets user_id caller_perms (r, eacces)

  -- For a region that satisfies the invariant and the offset of a live object: where the caller may
  -- write the object, `shm_block_set_perms` succeeds, puts the new permissions into the block's
  -- header and the object's entry, changes no other header or entry, no payload and not the region
  -- header, and keeps the invariant; where the caller may not, it fails with EACCES and leaves the
  -- region as it was.
  pub shm_block_set_perms-Sets :
      (user_id caller_perms : ℕ)
      → Sets user_id caller_perms
          (shm_block_set_perms r (r.dir slot).off user_id caller_perms new_perms)
  shm_block_set_perms-Sets user_id caller_perms =
      elim (block_access-cases (r.blk own.at) user_id caller_perms perm_write is_live.0.block.magic
        (omega (arith, is_live.0.tag))) [
          | inl passes ↦
              subst (Sets user_id caller_perms) (sym (passed_out user_id caller_perms passes)) (
                sets changed (allowed user_id caller_perms passes) changed-IsRegion entry_at
                  entry_other header_at header_other same_hdr same_bytes)
          | inr refused ↦
              subst (Sets user_id caller_perms) (sym (refused_out user_id caller_perms refused))
                (refuses (denied user_id caller_perms refused))
        ]

  pub Sets-IsRegion :
      (user_id caller_perms : ℕ) (out : Region × Status)
      → Sets user_id caller_perms out
      → IsRegion out.0 cs
  Sets-IsRegion user_id caller_perms out (sets r' may valid at other hdr_at hdr_other hdr bytes) =
      valid
  Sets-IsRegion user_id caller_perms out (refuses not_may) = inv

  -- An answer other than success leaves the region as it was.
  pub Sets-refused :
      (user_id caller_perms : ℕ) (out : Region × Status)
      → Sets user_id caller_perms out
      → out.1 ≢ success
      → out.0 ≡ r
  Sets-refused user_id caller_perms out (sets r' may valid at other hdr_at hdr_other hdr bytes) ne =
      absurd (ne refl)
  Sets-refused user_id caller_perms out (refuses not_may) ne = refl
