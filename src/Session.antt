-- ===== src/Session.antt =====
-- Sequences of operations on one region, by any callers on any hosts: each takes the region as the
-- operation before left it. The operations among the steps hold the region's lock while they read or
-- write the region, and Lock/Serial shows that this makes them a sequence.
pub mod Cases
pub mod Errors
pub mod Payloads
use disagg_shmem_allocator.Base.{
  ◌≢◌, ℕ, ◌+◌, ◌^◌, ◌≤◌, ◌<◌, ◌≡◌, arith, true, some, refl, sym, ap, ◌∙◌, subst, inl, inr, List, [],
  ◌∷◌, Bool, Bool-cases, returns, result_or, ltb,
}
use disagg_shmem_allocator.Layout.{Region, set_hdr}
use disagg_shmem_allocator.Heap.Seg.{Chunk}
use disagg_shmem_allocator.Heap.Agree.{Agrees-of_eq, IsHeap-agree}
use disagg_shmem_allocator.Access.{Status, Answer}
use disagg_shmem_allocator.Objects.{shm_alloc, shm_free}
use disagg_shmem_allocator.Objects.Invariant.{IsRegion}
use disagg_shmem_allocator.Objects.Request.{empty, full, too_large, granted, shm_alloc-Requests}
use disagg_shmem_allocator.Objects.Release.{no_id, unknown, denied, released, shm_free-Frees}
use disagg_shmem_allocator.Heap.{heap_alloc_block}
use disagg_shmem_allocator.Directory.{has_id}
use disagg_shmem_allocator.Objects.{total_for}
use disagg_shmem_allocator.Resize.{shm_resize}
use disagg_shmem_allocator.Resize.Outcome
use disagg_shmem_allocator.Resize.Outcome.{CopyFits}
use disagg_shmem_allocator.Resize.Calls.{shm_resize-Resizes}
use disagg_shmem_allocator.Blocks.{shm_block_set_perms}
use disagg_shmem_allocator.Blocks.Perms.{Sets-IsRegion, shm_block_set_perms-Sets}
use disagg_shmem_allocator.Session.Cases.{allocated_as, freed_as, resized_as}
use disagg_shmem_allocator.Lifecycle.{Backend, attach, shm_region_close}

-- One operation takes the region from `r` to `r'`, whatever it answers. An allocation asks for a size
-- that does not wrap around, and object IDs have not run out; a resize asks for such a size, and a
-- block it would copy to has room; permissions are set at the offset of a live object.
pub data Step (r : Region) : Region → Type 0 where
  allocates :
      (r' : Region) (size : ℕ) (name : List ℕ) (user_id perms type_tag : ℕ)
      (answer : Answer (ℕ × ℕ))
      → size + 64 < 2 ^ 64
      → r.hdr.next_id + 1 < 2 ^ 64
      → shm_alloc r size name user_id perms type_tag ≡ returns (r', answer)
      → Step r r'
  frees :
      (r' : Region) (obj_id user_id caller_perms : ℕ) (status : Status)
      → shm_free r obj_id user_id caller_perms ≡ returns (r', status)
      → Step r r'
  sets_perms :
      (slot user_id caller_perms new_perms : ℕ)
      → slot < r.hdr.dir_capacity
      → (r.dir slot).alive ≢ 0
      → Step r (shm_block_set_perms r (r.dir slot).off user_id caller_perms new_perms).0
  resizes :
      (r' : Region) (obj_id new_size user_id caller_perms : ℕ) (status : Status)
      → new_size + 64 < 2 ^ 64
      → CopyFits r obj_id new_size
      → shm_resize r obj_id new_size user_id caller_perms ≡ returns (r', status)
      → Step r r'
  attaches : Step r (attach r)
  closes :
      (backend : Backend) (unlink_name : Bool) → Step r (shm_region_close r backend unlink_name).0

-- What is called, with what it answers. An attach and a close touch the count of hosts only.
pub data Op : Type 0 where
  alloc_op : (size : ℕ) → List ℕ → (user_id perms type_tag : ℕ) → Answer (ℕ × ℕ) → Op
  free_op : (obj_id user_id caller_perms : ℕ) → Status → Op
  resize_op : (obj_id new_size user_id caller_perms : ℕ) → Status → Op
  set_perms_op : (obj_id user_id caller_perms new_perms : ℕ) → Status → Op
  hosts_op : Op

abbrev pub op_of : {r r' : Region} → Step r r' → Op
op_of (allocates r' size name user_id perms type_tag answer small more run) =
    alloc_op size name user_id perms type_tag answer
op_of (frees r' obj_id user_id caller_perms status run) = free_op obj_id user_id caller_perms status
op_of {r} (sets_perms slot user_id caller_perms new_perms room alive) =
    set_perms_op (r.dir slot).id user_id caller_perms new_perms
      (shm_block_set_perms r (r.dir slot).off user_id caller_perms new_perms).1
op_of (resizes r' obj_id new_size user_id caller_perms status small fits run) =
    resize_op obj_id new_size user_id caller_perms status
op_of attaches = hosts_op
op_of (closes backend unlink_name) = hosts_op

pub data Reaches (r : Region) : Region → Type 0 where
  start : Reaches r r
  next : (r' r'' : Region) → Reaches r r' → Step r' r'' → Reaches r r''

-- The operations of a sequence, the last one first.
abbrev pub ops_of : {r r' : Region} → Reaches r r' → List Op
ops_of start = []
ops_of (next r' r'' path step) = op_of step ∷ ops_of path

abbrev pub Valid : Region → Type 0
Valid r = (cs : List Chunk) × IsRegion r cs

hosts-IsRegion :
    (r : Region) (cs : List Chunk) (n : ℕ)
    → IsRegion r cs
    → IsRegion (set_hdr r (record (r.hdr) { host_count = n })) cs
hosts-IsRegion r cs n inv = record {
  heap =
      IsHeap-agree r (set_hdr r (record (r.hdr) { host_count = n })) cs refl refl refl refl refl
        (λ a s. Agrees-of_eq refl) inv.heap;
  next_pos = inv.next_pos;
  entries = λ i lt alive.
      let b = inv.entries i lt alive in
      record {
        id_pos = b.id_pos;
        id_lt = b.id_lt;
        at = b.at;
        size = b.size;
        place = b.place;
        off = b.off;
        mirror = b.mirror;
      };
  distinct = inv.distinct;
  listed = λ a k l.
      let b = inv.listed a k l in record { slot = b.slot; lt = b.lt; alive = b.alive; off = b.off };
}

pub Step-Valid : (r r' : Region) → Step r r' → Valid r → Valid r'
unfolding shm_region_close
Step-Valid r r' (allocates r'' size name user_id perms type_tag answer small more run) (cs, inv) =
    allocated_as r cs inv Valid (cs, inv) size name user_id perms type_tag answer small more run
      (λ r1 at g. (g.cs', g.valid))
Step-Valid r r' (frees r'' obj_id user_id caller_perms status run) (cs, inv) =
    freed_as r cs inv Valid (cs, inv) obj_id user_id caller_perms status run
      (λ slot b m r1 h may g. (g.cs', g.valid))
Step-Valid r r' (sets_perms slot user_id caller_perms new_perms room alive) (cs, inv) = (
  cs,
  Sets-IsRegion r cs inv slot room alive new_perms user_id caller_perms _
      (shm_block_set_perms-Sets r cs inv slot room alive new_perms user_id caller_perms),
)
Step-Valid r r' (resizes r'' obj_id new_size user_id caller_perms status small fits run) (cs, inv) =
    resized_as r cs inv Valid (cs, inv) obj_id new_size user_id caller_perms status small fits run
      (λ slot r1 h may g. (g.cs', g.valid))
Step-Valid r r' attaches (cs, inv) = (cs, hosts-IsRegion r cs _ inv)
Step-Valid r r' (closes backend unlink_name) (cs, inv) =
    elim (Bool-cases (ltb 0 r.hdr.host_count)) [
      | inl some_host ↦ rw some_host (cs, hosts-IsRegion r cs _ inv)
      | inr no_host ↦ rw no_host (cs, inv)
    ]

-- From a region that satisfies the invariant, every sequence of steps (allocations whose size
-- does not wrap around, while IDs last, frees, resizes that do not copy to a block with a recorded
-- capacity below the object's, changes of permissions at a live object's offset, attaches and
-- closes, granted or refused) reaches a region that satisfies it.
pub Reaches-Valid : (r r' : Region) → Valid r → Reaches r r' → Valid r'
Reaches-Valid r r' v start = v
Reaches-Valid r r' v (next r1 r2 path step) = Step-Valid r1 r' step (Reaches-Valid r r1 v path)
