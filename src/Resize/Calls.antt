-- ===== src/Resize/Calls.antt =====
-- `shm_resize` of src/shm_alloc.c, from its guards on.
use disagg_shmem_allocator.Base.{
  ℕ, ◌+◌, ◌^◌, ◌<◌, ◌≡◌, ◌≢◌, sym, ◌∙◌, subst, refl, inl, inr, List, arith, true, false, some,
  Bool-cases, leb, Option-cases, ◌==◌, ==→eq, ==_false→ne,
}
use disagg_shmem_allocator.Layout.{Region, hoff_of_poff}
use disagg_shmem_allocator.Heap.Seg.{Chunk}
use disagg_shmem_allocator.Heap.Places.{LiveIn-IsLive}
use disagg_shmem_allocator.Access.{perm_resize}
use disagg_shmem_allocator.Access.Rules.{success≢eacces, check_dir_access_iff}
use disagg_shmem_allocator.Directory.{first_slot, has_id, dir_find_by_id}
use disagg_shmem_allocator.Directory.Scan.{Outcome, first_slot-all}
use disagg_shmem_allocator.Objects.{total_for}
use disagg_shmem_allocator.Objects.Invariant.{Backed, IsRegion}
use disagg_shmem_allocator.Objects.Release.{has_id-facts, dir_access-cases}
use disagg_shmem_allocator.Resize.{can_extend, shm_resize}
use disagg_shmem_allocator.Resize.Object.{
  own, exhausted_block, resized_block, overrun_block, resize_block-Block,
}
use disagg_shmem_allocator.Resize.Outcome.{
  Resizes, no_id, no_size, unknown, denied, exhausted, resized, overruns,
}

module _ (r : Region) (cs : List Chunk) (obj_id new_size user_id caller_perms : ℕ)
    (inv : IsRegion r cs) (small : new_size + 64 < 2 ^ 64) where
  module _ (slot : ℕ) (room : slot < r.hdr.dir_capacity) (hit : has_id obj_id (r.dir slot) ≡ true)
      (some_id : (obj_id == 0) ≡ false) (some_bytes : (new_size == 0) ≡ false)
      (e : first_slot (has_id obj_id) r.dir r.hdr.dir_capacity 0 ≡ some slot) where
    alive : (r.dir slot).alive ≢ 0
    alive = (has_id-facts obj_id (r.dir slot) hit).1

    some_size : new_size ≢ 0
    some_size = ==_false→ne new_size 0 some_bytes

    o : Backed r cs (r.dir slot)
    o = own r cs slot new_size inv room alive some_size small

    at_block : hoff_of_poff (r.dir slot).off ≡ o.at
    at_block = omega (
      arith,
      o.off,
      (LiveIn-IsLive r.blk 0 cs _ r.hdr.free_list 0 o.at o.size inv.heap.chunks o.place).1,
      inv.heap.bound,
    )

    at_slot : Resizes r cs obj_id new_size user_id caller_perms
    unfolding shm_resize dir_find_by_id o
    at_slot =
        let rule = check_dir_access_iff (r.dir slot) user_id caller_perms perm_resize in
        elim (dir_access-cases (r.dir slot) user_id caller_perms perm_resize alive o.id_pos) [
          | inl granted ↦
              let may = (rule.0 granted).2 in
              elim (resize_block-Block r cs slot new_size inv room alive some_size small) [
                | exhausted_block t run ↦
                    exhausted slot room hit may t
                      (rw (some_id, some_bytes, e, granted, at_block) run)
                | resized_block r' done run ↦
                    resized slot r' some_size hit may done
                      (rw (some_id, some_bytes, e, granted, at_block) run)
                | overrun_block r1 at larger cannot run less wraps ↦
                    overruns slot r1 at hit may
                      (
                        subst (λ h. leb (total_for new_size) (r.blk h).total_size ≡ false)
                            (sym at_block) larger,
                        subst (λ h. can_extend r h (total_for new_size) ≡ false) (sym at_block)
                            cannot,
                      )
                      run less wraps
              ]
          | inr refused ↦
              denied slot room hit
                (λ may. success≢eacces (sym (rule.1 (alive, o.id_pos, may)) ∙ refused))
                (rw (some_id, some_bytes, e, refused) refl)
        ]

  -- For a region that satisfies the invariant and a size that does not wrap around, `shm_resize`
  -- refuses the ID 0, the size 0, an ID that no live entry has, a caller who may not resize the
  -- object, and a size for which there is no room, each with its code and the region unchanged;
  -- otherwise it succeeds, in a region as `Resized` describes, except where the block taken for a
  -- copy tells a capacity below the object's: there the length of the zeroing wraps around.
  pub shm_resize-Resizes : Resizes r cs obj_id new_size user_id caller_perms
  unfolding shm_resize dir_find_by_id
  shm_resize-Resizes = elim (Bool-cases (obj_id == 0)) [
    | inl z ↦ no_id (==→eq obj_id 0 z) (rw z refl)
    | inr some_id ↦ elim (Bool-cases (new_size == 0)) [
      | inl z ↦ no_size (==→eq new_size 0 z) (rw (some_id, z) refl)
      | inr some_bytes ↦
          elim (Option-cases (first_slot (has_id obj_id) r.dir r.hdr.dir_capacity 0)) [
            | inl e ↦
                unknown
                  (subst (Outcome (has_id obj_id) r.dir 0 r.hdr.dir_capacity) e
                    (first_slot-all (has_id obj_id) r.dir r.hdr.dir_capacity))
                  (rw (some_id, some_bytes, e) refl)
            | inr (slot, e) ↦
                let f =
                  subst (Outcome (has_id obj_id) r.dir 0 r.hdr.dir_capacity) e
                    (first_slot-all (has_id obj_id) r.dir r.hdr.dir_capacity) in
                at_slot slot f.1 f.2 some_id some_bytes e
          ]
    ]
  ]
