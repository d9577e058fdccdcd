-- ===== src/Handle/Free.antt =====
-- `free` of include/shm_alloc.hpp on a handle to a live object, against `shm_free` of
-- src/shm_alloc.c.
use disagg_shmem_allocator.Base.{
  ℕ, ◌<◌, ◌≡◌, ◌≢◌, refl, ap, ◌∙◌, inl, inr, List, true, false, Bool-cases, Run, returns, none,
  some, if◌then◌else◌, ne→==,
}
use disagg_shmem_allocator.Layout.{Region}
use disagg_shmem_allocator.Heap.Seg.{Chunk}
use disagg_shmem_allocator.Access.{Status, success, eacces}
use disagg_shmem_allocator.Access.Rules.{MayAccess}
use disagg_shmem_allocator.Blocks.{shm_ptr}
use disagg_shmem_allocator.Objects.{shm_free}
use disagg_shmem_allocator.Objects.Invariant.{IsRegion}
use disagg_shmem_allocator.Objects.Release.{Frees, shm_free-Frees}
use disagg_shmem_allocator.Handle.{Ptr, CppType, perm_read_write, destroy, release, free}
use disagg_shmem_allocator.Handle.Live.{bytes-IsRegion, verdict, may, may_not, own, stored_id-live}

-- The region once the destructor has run on the object at `off`.
abbrev pub destroyed_at : CppType → Region → ℕ → Region
destroyed_at t r off = record r { bytes = t.destroy_at r.bytes off }

-- How `free` frees the object of `slot`: at once; after the destructor; or not at all.
pub data Freeing (t : CppType) (r : Region) (cs : List Chunk) (slot user_id caller_perms : ℕ)
    : Type 0 where
  at_once :
      t.trivially_destructible ≡ true
      → free t r (record { off = (r.dir slot).off }) user_id caller_perms
        ≡ shm_free r (r.dir slot).id user_id caller_perms
      → Frees r cs (r.dir slot).id user_id caller_perms
      → Freeing t r cs slot user_id caller_perms
  destroyed :
      t.trivially_destructible ≡ false
      → MayAccess (r.dir slot).owner (r.dir slot).perms user_id caller_perms perm_read_write
      → free t r (record { off = (r.dir slot).off }) user_id caller_perms
        ≡ shm_free (destroyed_at t r (r.dir slot).off) (r.dir slot).id user_id caller_perms
      → Frees (destroyed_at t r (r.dir slot).off) cs (r.dir slot).id user_id caller_perms
      → Freeing t r cs slot user_id caller_perms
  denied :
      t.trivially_destructible ≡ false
      → ¬ MayAccess (r.dir slot).owner (r.dir slot).perms user_id caller_perms perm_read_write
      → free t r (record { off = (r.dir slot).off }) user_id caller_perms ≡ returns (r, eacces)
      → Freeing t r cs slot user_id caller_perms

destroy-at :
    (t : CppType) (r : Region) (off user_id caller_perms : ℕ)
    → shm_ptr r off user_id caller_perms perm_read_write ≡ some off
    → destroy t r (record { off = off }) user_id caller_perms ≡ (destroyed_at t r off, success)
unfolding destroy
destroy-at t r off user_id caller_perms opens = rw (destroy, opens) refl

destroy-denied :
    (t : CppType) (r : Region) (off user_id caller_perms : ℕ)
    → shm_ptr r off user_id caller_perms perm_read_write ≡ none
    → destroy t r (record { off = off }) user_id caller_perms ≡ (r, eacces)
unfolding destroy
destroy-denied t r off user_id caller_perms closed = rw (destroy, closed) refl

-- How `free` goes on, by what `destroy` answers.
abbrev then_release : Region × Status → Ptr → (user_id caller_perms : ℕ) → Run (Region × Status)
then_release (r1, d) handle user_id caller_perms = elim d [
  | success ↦ release r1 handle user_id caller_perms
  | refused ↦ returns (r1, refused)
]

free-destroyed :
    (t : CppType) (r : Region) (off user_id caller_perms : ℕ) (r1 : Region) (d : Status)
    → t.trivially_destructible ≡ false
    → destroy t r (record { off = off }) user_id caller_perms ≡ (r1, d)
    → free t r (record { off = off }) user_id caller_perms
      ≡ then_release (r1, d) (record { off = off }) user_id caller_perms
unfolding free
free-destroyed t r off user_id caller_perms r1 d own_destructor e =
    ap
      (λ b.
        if b
        then release r (record { off = off }) user_id caller_perms
        else then_release (destroy t r (record { off = off }) user_id caller_perms)
            (record { off = off }) user_id caller_perms)
      own_destructor
    ∙ ap (λ o. then_release o (record { off = off }) user_id caller_perms) e

module _ (r : Region) (cs : List Chunk) (inv : IsRegion r cs) (slot : ℕ)
    (room : slot < r.hdr.dir_capacity) (alive : (r.dir slot).alive ≢ 0)
    (user_id caller_perms : ℕ) where
  abbrev handle : Ptr
  handle = record { off = (r.dir slot).off }

  release-shm_free :
      release r handle user_id caller_perms ≡ shm_free r (r.dir slot).id user_id caller_perms
  unfolding release
  release-shm_free =
      rw
        (
          release,
          stored_id-live r cs inv slot room alive,
          ne→== (r.dir slot).id 0 (own r cs inv slot room alive).id_pos,
        )
        refl

module _ (t : CppType) (r : Region) (cs : List Chunk) (inv : IsRegion r cs) (slot : ℕ)
    (room : slot < r.hdr.dir_capacity) (alive : (r.dir slot).alive ≢ 0)
    (user_id caller_perms : ℕ) where
  after : Region
  after = destroyed_at t r (r.dir slot).off

  after-IsRegion : IsRegion after cs
  unfolding after
  after-IsRegion = bytes-IsRegion r cs (t.destroy_at r.bytes (r.dir slot).off) inv

  -- For a region that satisfies the invariant and a handle to a live object: for a trivially
  -- destructible type, `free` is `shm_free` of the object's ID; for another type it is refused with
  -- EACCES and changes nothing where the caller may not both read and write the object, and
  -- otherwise it is `shm_free` of the object's ID once the destructor has run, also where that
  -- `shm_free` then refuses.
  pub free-Freeing : Freeing t r cs slot user_id caller_perms
  unfolding free after
  free-Freeing = elim (Bool-cases t.trivially_destructible) [
    | inl trivial ↦
        at_once trivial
          (rw trivial (release-shm_free r cs inv slot room alive user_id caller_perms))
          (shm_free-Frees r cs (r.dir slot).id user_id caller_perms inv)
    | inr own_destructor ↦
        elim (verdict r cs inv slot room alive user_id caller_perms perm_read_write) [
          | may m opens ↦
              destroyed own_destructor m
                (free-destroyed t r (r.dir slot).off user_id caller_perms after success
                    own_destructor (destroy-at t r (r.dir slot).off user_id caller_perms opens)
                  ∙ release-shm_free after cs after-IsRegion slot room alive user_id caller_perms)
                (shm_free-Frees after cs (r.dir slot).id user_id caller_perms after-IsRegion)
          | may_not m refused ↦ denied own_destructor m (
              free-destroyed t r (r.dir slot).off user_id caller_perms r eacces own_destructor
                (destroy-denied t r (r.dir slot).off user_id caller_perms refused))
        ]
  ]
