-- ===== src/Session/Cases.antt =====
-- What is true of the region after an operation of src/shm_alloc.c, whatever it answers, if it is true of
-- the region before and of the outcome where the operation succeeds.
use disagg_shmem_allocator.Base.{
  ℕ, ◌+◌, ◌^◌, ◌<◌, ◌≡◌, sym, ap, ◌∙◌, subst, List, arith, true, Run, returns, result_or,
}
use disagg_shmem_allocator.Layout.{Region}
use disagg_shmem_allocator.Heap.Seg.{Chunk}
use disagg_shmem_allocator.Access.{Status, Answer, perm_free, perm_resize}
use disagg_shmem_allocator.Access.Rules.{MayAccess}
use disagg_shmem_allocator.Directory.{has_id}
use disagg_shmem_allocator.Objects.{shm_alloc, shm_free}
use disagg_shmem_allocator.Objects.Invariant.{IsRegion}
use disagg_shmem_allocator.Objects.Request.{
  Granted, empty, full, too_large, granted, shm_alloc-Requests,
}
use disagg_shmem_allocator.Objects.Release.{
  Released, no_id, unknown, denied, released, shm_free-Frees,
}
use disagg_shmem_allocator.Resize.{shm_resize}
use disagg_shmem_allocator.Resize.Outcome
use disagg_shmem_allocator.Resize.Outcome.{CopyFits, Resized, no_size, exhausted, resized, overruns}
use disagg_shmem_allocator.Resize.Calls.{shm_resize-Resizes}

-- A run has one outcome: one region and one answer.
pub one_outcome :
    {A : Type 0} {r1 r2 : Region} {a b : A} (run : Run (Region × A))
    → run ≡ returns (r1, a)
    → run ≡ returns (r2, b)
    → (r1 ≡ r2) × (a ≡ b)
one_outcome {A} {r1} {a} run e e' =
    let same = ap (result_or {A = Region × A} (r1, a)) (sym e ∙ e') in
    (ap (λ p. p.0) same, ap (λ p. p.1) same)

module _ {ℓ} (r : Region) (cs : List Chunk) (inv : IsRegion r cs) (P : Region → Type ℓ)
    (p : P r) where
  -- From one outcome of the run to the one that is given.
  over :
      {A : Type 0} {r1 r' : Region} {a b : A} (run : Run (Region × A))
      → run ≡ returns (r1, a)
      → run ≡ returns (r', b)
      → P r1
      → P r'
  over run e e' = subst P (one_outcome run e e').0

  pub allocated_as :
      {r' : Region} (size : ℕ) (name : List ℕ) (user_id perms type_tag : ℕ)
      (answer : Answer (ℕ × ℕ))
      → size + 64 < 2 ^ 64
      → r.hdr.next_id + 1 < 2 ^ 64
      → shm_alloc r size name user_id perms type_tag ≡ returns (r', answer)
      → ((r1 : Region) (at : ℕ) → Granted r r1 cs size name user_id perms type_tag at → P r1)
      → P r'
  allocated_as size name user_id perms type_tag answer small more run f =
      elim (shm_alloc-Requests r cs size name user_id perms type_tag inv small more) [
        | empty z run' ↦ over _ run' run p
        | full g run' ↦ over _ run' run p
        | too_large t run' ↦ over _ run' run p
        | granted r1 at g run' ↦ over _ run' run (f r1 at g)
      ]

  pub freed_as :
      {r' : Region} (obj_id user_id caller_perms : ℕ) (status : Status)
      → shm_free r obj_id user_id caller_perms ≡ returns (r', status)
      → ((slot b m : ℕ) (r1 : Region)
          → has_id obj_id (r.dir slot) ≡ true
          → MayAccess (r.dir slot).owner (r.dir slot).perms user_id caller_perms perm_free
          → Released r r1 cs obj_id slot b m
          → P r1)
      → P r'
  freed_as obj_id user_id caller_perms status run f =
      elim (shm_free-Frees r cs obj_id user_id caller_perms inv) [
        | no_id z run' ↦ over _ run' run p
        | unknown g run' ↦ over _ run' run p
        | denied slot room h not_may run' ↦ over _ run' run p
        | released slot b m r1 h may g run' ↦ over _ run' run (f slot b m r1 h may g)
      ]

  pub resized_as :
      {r' : Region} (obj_id new_size user_id caller_perms : ℕ) (status : Status)
      → new_size + 64 < 2 ^ 64
      → CopyFits r obj_id new_size
      → shm_resize r obj_id new_size user_id caller_perms ≡ returns (r', status)
      → ((slot : ℕ) (r1 : Region)
          → has_id obj_id (r.dir slot) ≡ true
          → MayAccess (r.dir slot).owner (r.dir slot).perms user_id caller_perms perm_resize
          → Resized r r1 cs slot new_size
          → P r1)
      → P r'
  resized_as obj_id new_size user_id caller_perms status small fits run f =
      elim (shm_resize-Resizes r cs obj_id new_size user_id caller_perms inv small) [
        | Outcome.no_id z run' ↦ over _ run' run p
        | no_size z run' ↦ over _ run' run p
        | Outcome.unknown g run' ↦ over _ run' run p
        | Outcome.denied slot room h not_may run' ↦ over _ run' run p
        | exhausted slot room h may t run' ↦ over _ run' run p
        | resized slot r1 some_bytes h may g run' ↦ over _ run' run (f slot r1 h may g)
        | overruns slot r1 at h may moves run' less wraps ↦
            absurd (omega (arith, less, fits slot at r1 h moves run'))
      ]
