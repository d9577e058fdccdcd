-- ===== src/Handle/Make.antt =====
-- `make` of include/shm_alloc.hpp on every branch.
use disagg_shmem_allocator.Base.{
  ℕ, ◌+◌, ◌^◌, ◌<◌, ◌≡◌, ◌≢◌, ◌⊎◌, refl, sym, inl, inr, List, returns, arith, none, some, subst,
}
use disagg_shmem_allocator.Layout.{ObjEntry, Region}
use disagg_shmem_allocator.Heap.Seg.{Chunk}
use disagg_shmem_allocator.Access.{Status, success, eacces, enospc, enomem, ok}
use disagg_shmem_allocator.Access.Rules.{MayAccess}
use disagg_shmem_allocator.Blocks.{shm_ptr}
use disagg_shmem_allocator.Objects.{shm_alloc}
use disagg_shmem_allocator.Objects.Invariant.{IsRegion}
use disagg_shmem_allocator.Objects.Request.{
  Granted, empty, full, too_large, granted, shm_alloc-Requests,
}
use disagg_shmem_allocator.Handle.{Ptr, CppType, perm_read_write, construct, alloc, make}
use disagg_shmem_allocator.Handle.Live.{bytes-IsRegion, verdict, may, may_not}

-- The region once the constructor has run at `off`.
abbrev pub constructed_at : CppType → Region → ℕ → Region
constructed_at t r off = record r { bytes = t.construct_at r.bytes off }

pub data Makes (t : CppType) (r : Region) (cs : List Chunk) (user_id perms : ℕ) (out : Ptr)
    (name : List ℕ) (tag : ℕ) : Type 0 where
  refused :
      (s : Status)
      → (s ≡ enospc) ⊎ (s ≡ enomem)
      → make t r user_id perms out name tag ≡ returns (r, out, s)
      → Makes t r cs user_id perms out name tag
  made :
      (r1 : Region) (at : ℕ) (g : Granted r r1 cs t.size name user_id perms tag at)
      → MayAccess user_id perms user_id perms perm_read_write
      → IsRegion (constructed_at t r1 (at + 56)) g.cs'
      → make t r user_id perms out name tag
        ≡ returns (constructed_at t r1 (at + 56), record { off = at + 56 }, success)
      → Makes t r cs user_id perms out name tag
  kept_unmade :
      (r1 : Region) (at : ℕ) (g : Granted r r1 cs t.size name user_id perms tag at)
      → ¬ MayAccess user_id perms user_id perms perm_read_write
      → make t r user_id perms out name tag ≡ returns (r1, record { off = at + 56 }, eacces)
      → Makes t r cs user_id perms out name tag

construct-at :
    (t : CppType) (r : Region) (off user_id perms : ℕ)
    → shm_ptr r off user_id perms perm_read_write ≡ some off
    → construct t r (record { off = off }) user_id perms ≡ (constructed_at t r off, success)
unfolding construct
construct-at t r off user_id perms opens = rw (construct, opens) refl

construct-denied :
    (t : CppType) (r : Region) (off user_id perms : ℕ)
    → shm_ptr r off user_id perms perm_read_write ≡ none
    → construct t r (record { off = off }) user_id perms ≡ (r, eacces)
unfolding construct
construct-denied t r off user_id perms closed = rw (construct, closed) refl

module _ (t : CppType) (r : Region) (cs : List Chunk) (user_id perms : ℕ) (out : Ptr)
    (name : List ℕ) (tag : ℕ) (inv : IsRegion r cs) (sized : t.size ≢ 0)
    (small : t.size + 64 < 2 ^ 64) (more : r.hdr.next_id + 1 < 2 ^ 64) where
  -- For a region that satisfies the invariant, a type whose size is not 0 and does not wrap around,
  -- and IDs that have not run out: `make` is refused with ENOSPC or ENOMEM, the region and the
  -- handle unchanged; or it takes a new block as `shm_alloc` does, and then either constructs the
  -- object there and succeeds, or, where the permissions do not let their owner read and write,
  -- fails with EACCES and keeps the block.
  pub make-Makes : Makes t r cs user_id perms out name tag
  unfolding make alloc construct
  make-Makes = elim (shm_alloc-Requests r cs t.size name user_id perms tag inv small more) [
    | empty z run ↦ absurd (sized z)
    | full f run ↦ refused enospc (inl refl) (rw (make, alloc, run) refl)
    | too_large s run ↦ refused enomem (inr refl) (rw (make, alloc, run) refl)
    | granted r1 at g run ↦ at_block r1 at g run
  ]
    where
      at_block :
          (r1 : Region) (at : ℕ) (g : Granted r r1 cs t.size name user_id perms tag at)
          → shm_alloc r t.size name user_id perms tag ≡ returns (r1, ok (r.hdr.next_id, at + 56))
          → Makes t r cs user_id perms out name tag
      at_block r1 at g run =
          let e = g.entry.1 in
          let alive : (r1.dir g.slot).alive ≢ 0 = rw e (omega arith) in
          let room : g.slot < r1.hdr.dir_capacity = omega (arith, g.room, g.capacity) in
          let by = λ (x : ObjEntry). MayAccess x.owner x.perms user_id perms perm_read_write in
          elim (verdict r1 g.cs' g.valid g.slot room alive user_id perms perm_read_write) [
            | may m opens ↦
                made r1 at g (subst by e m)
                  (bytes-IsRegion r1 g.cs' (t.construct_at r1.bytes (at + 56)) g.valid)
                  (rw
                    (
                      make,
                      alloc,
                      run,
                      construct-at t r1 (at + 56) user_id perms (subst Opens e opens),
                    )
                    refl)
            | may_not m closed ↦
                kept_unmade r1 at g (λ m'. m (subst by (sym e) m'))
                  (rw
                    (
                      make,
                      alloc,
                      run,
                      construct-denied t r1 (at + 56) user_id perms (subst Closed e closed),
                    )
                    refl)
          ]
        where
          Opens : ObjEntry → Type 0
          Opens x = shm_ptr r1 x.off user_id perms perm_read_write ≡ some x.off

          Closed : ObjEntry → Type 0
          Closed x = shm_ptr r1 x.off user_id perms perm_read_write ≡ none
