-- ===== src/Cap/Revoke.antt =====
-- Capabilities of src/shm_cap.c after `shm_free` of src/shm_alloc.c.
use disagg_shmem_allocator.Base.{
  ℕ, ◌<◌, ◌≡◌, ◌≢◌, sym, ap, ◌∙◌, subst, List, arith, false, none, returns, result_or,
}
use disagg_shmem_allocator.Layout.{Region, hoff_of_poff}
use disagg_shmem_allocator.Heap.Seg.{Chunk}
use disagg_shmem_allocator.Access.{Status, success, enoent, eacces}
use disagg_shmem_allocator.Objects.{shm_free}
use disagg_shmem_allocator.Objects.Invariant.{IsRegion}
use disagg_shmem_allocator.Objects.Release.{
  no_id, unknown, denied, released, shm_free-Frees, has_id-facts,
}
use disagg_shmem_allocator.Cap.{Cap, shm_cap_is_valid, shm_cap_deref}

-- A clear tag bit in the header before the address refuses a capability.
deref_dead :
    (r : Region) (c : Cap) (required : ℕ)
    → (r.blk (hoff_of_poff c.addr)).allocated ≡ 0
    → (shm_cap_deref r c required ≡ none) × (shm_cap_is_valid r c ≡ false)
unfolding shm_cap_deref shm_cap_is_valid
deref_dead r c required dead = ground arith

module _ (r r' : Region) (cs : List Chunk) (slot user_id caller_perms : ℕ) (inv : IsRegion r cs)
    (room : slot < r.hdr.dir_capacity) (alive : (r.dir slot).alive ≢ 0) where
  -- For a region that satisfies the invariant, once the object of a live entry has been freed, no
  -- capability for its offset is valid or opens anything.
  pub shm_free-revokes :
      (c : Cap) (required : ℕ)
      → shm_free r (r.dir slot).id user_id caller_perms ≡ returns (r', success)
      → c.addr ≡ (r.dir slot).off
      → (shm_cap_deref r' c required ≡ none) × (shm_cap_is_valid r' c ≡ false)
  shm_free-revokes c required run at =
      elim (shm_free-Frees r cs (r.dir slot).id user_id caller_perms inv) [
        | no_id z run' ↦ absurd ((inv.entries slot room alive).id_pos z)
        | unknown f run' ↦ absurd (other enoent (λ e. ground arith) run')
        | denied j _ h may_not run' ↦ absurd (other eacces (λ e. ground arith) run')
        | released j b m r1 h may g run' ↦
            let (id, al) = has_id-facts (r.dir slot).id (r.dir j) h in
            let same : j ≡ slot = inv.distinct j slot g.room room al alive id in
            let here : c.addr ≡ (r.dir j).off = at ∙ ap (λ t. (r.dir t).off) (sym same) in
            let now : r1 ≡ r' =
              ap (λ t. (result_or {A = Region × Status} (r1, success) t).0) (sym run' ∙ run) in
            deref_dead r' c required (
              subst (λ t. (t.blk (hoff_of_poff c.addr)).allocated ≡ 0) now
                (ap (λ t. (r1.blk (hoff_of_poff t)).allocated) here ∙ g.dead))
      ]
    where
      other :
          (s : Status)
          → s ≢ success
          → shm_free r (r.dir slot).id user_id caller_perms ≢ returns (r, s)
      other s ne run' = ne (ap (λ t. (result_or {A = Region × Status} (r, s) t).1) (sym run' ∙ run))
