-- ===== src/Session/Errors.antt =====
-- The error paths of the operations of src/shm_alloc.c.
use disagg_shmem_allocator.Base.{
  ℕ, ◌+◌, ◌^◌, ◌<◌, ◌≡◌, ◌≢◌, sym, ap, ◌∙◌, List, arith, Bool, true, false, returns,
}
use disagg_shmem_allocator.Layout.{Region}
use disagg_shmem_allocator.Access.{Status, success, Answer, ok, err}
use disagg_shmem_allocator.Objects.{shm_alloc, shm_free}
use disagg_shmem_allocator.Objects.Request.{empty, full, too_large, granted, shm_alloc-Requests}
use disagg_shmem_allocator.Objects.Release.{no_id, unknown, denied, released, shm_free-Frees}
use disagg_shmem_allocator.Resize.{shm_resize}
use disagg_shmem_allocator.Resize.Outcome
use disagg_shmem_allocator.Resize.Outcome.{CopyFits, no_size, exhausted, resized, overruns}
use disagg_shmem_allocator.Resize.Calls.{shm_resize-Resizes}
use disagg_shmem_allocator.Blocks.{shm_block_set_perms}
use disagg_shmem_allocator.Blocks.Perms.{Sets-refused, shm_block_set_perms-Sets}
use disagg_shmem_allocator.Session.Cases.{one_outcome}
use disagg_shmem_allocator.Session.{Valid}

-- An operation that answers with an error code, from `r`, and leaves `r'`.
pub data Refusal (r r' : Region) : Type 0 where
  alloc :
      (size : ℕ) (name : List ℕ) (user_id perms type_tag : ℕ) (code : Status)
      → size + 64 < 2 ^ 64
      → r.hdr.next_id + 1 < 2 ^ 64
      → shm_alloc r size name user_id perms type_tag ≡ returns (r', err code)
      → Refusal r r'
  free :
      (obj_id user_id caller_perms : ℕ) (code : Status)
      → code ≢ success
      → shm_free r obj_id user_id caller_perms ≡ returns (r', code)
      → Refusal r r'
  resize :
      (obj_id new_size user_id caller_perms : ℕ) (code : Status)
      → code ≢ success
      → new_size + 64 < 2 ^ 64
      → CopyFits r obj_id new_size
      → shm_resize r obj_id new_size user_id caller_perms ≡ returns (r', code)
      → Refusal r r'
  set_perms :
      (slot user_id caller_perms new_perms : ℕ) (code : Status)
      → code ≢ success
      → slot < r.hdr.dir_capacity
      → (r.dir slot).alive ≢ 0
      → shm_block_set_perms r (r.dir slot).off user_id caller_perms new_perms ≡ (r', code)
      → Refusal r r'

abbrev is_ok : Answer (ℕ × ℕ) → Bool
is_ok (ok a) = true
is_ok (err e) = false

true≢false : true ≢ false
true≢false e = ground arith

-- For a region that satisfies the invariant: an allocation whose size does not wrap around, while
-- IDs last, a free, a resize whose size does not wrap around and whose copy, if it comes to one,
-- fits the new block's recorded capacity, or a change of permissions at a live object's offset,
-- that answers with an error code leaves the region as it was.
pub Refusal-same : (r r' : Region) → Valid r → Refusal r r' → r' ≡ r
Refusal-same r r' (cs, inv) (alloc size name user_id perms type_tag code small more run) =
    elim (shm_alloc-Requests r cs size name user_id perms type_tag inv small more) [
      | empty z run' ↦ (one_outcome _ run run').0
      | full f run' ↦ (one_outcome _ run run').0
      | too_large t run' ↦ (one_outcome _ run run').0
      | granted r1 at g run' ↦ absurd (true≢false (ap is_ok (one_outcome _ run' run).1))
    ]
Refusal-same r r' (cs, inv) (free obj_id user_id caller_perms code ne run) =
    elim (shm_free-Frees r cs obj_id user_id caller_perms inv) [
      | no_id z run' ↦ (one_outcome _ run run').0
      | unknown f run' ↦ (one_outcome _ run run').0
      | denied slot room h not_may run' ↦ (one_outcome _ run run').0
      | released slot b m r1 h may g run' ↦ absurd (ne (one_outcome _ run run').1)
    ]
Refusal-same r r' (cs, inv) (resize obj_id new_size user_id caller_perms code ne small fits run) =
    elim (shm_resize-Resizes r cs obj_id new_size user_id caller_perms inv small) [
      | Outcome.no_id z run' ↦ (one_outcome _ run run').0
      | no_size z run' ↦ (one_outcome _ run run').0
      | Outcome.unknown f run' ↦ (one_outcome _ run run').0
      | Outcome.denied slot room h not_may run' ↦ (one_outcome _ run run').0
      | exhausted slot room h may t run' ↦ (one_outcome _ run run').0
      | resized slot r1 some_bytes h may g run' ↦ absurd (ne (one_outcome _ run run').1)
      | overruns slot r1 at h may moves run' less wraps ↦
          absurd (omega (arith, less, fits slot at r1 h moves run'))
    ]
Refusal-same r r' (cs, inv) (set_perms slot user_id caller_perms new_perms code ne room alive run) =
    sym (ap (λ o. o.0) run)
    ∙ Sets-refused r cs inv slot room alive new_perms user_id caller_perms _
        (shm_block_set_perms-Sets r cs inv slot room alive new_perms user_id caller_perms)
        (λ e. ne (sym (ap (λ o. o.1) run) ∙ e))
