-- ===== src/Objects/Release.antt =====
-- `shm_free` of src/shm_alloc.c, on every branch.
use disagg_shmem_allocator.Base.{
  ℕ, ◌+◌, ◌≤◌, ◌<◌, ◌≡◌, ◌≢◌, refl, sym, ap, ◌∙◌, subst, ◌⊎◌, inl, inr, List, arith, true, false,
  none, some, returns, Bool-cases, Option-cases, ◌==◌, ==→eq, ne→==,
}
use disagg_shmem_allocator.Layout.{ObjEntry, Region, BlockHdr, hoff_of_poff, set_slot, zero_entry}
use disagg_shmem_allocator.Heap.{heap_free_block}
use disagg_shmem_allocator.Heap.Dead.{heap_free_block-Dead}
use disagg_shmem_allocator.Heap.Seg.{Chunk}
use disagg_shmem_allocator.Heap.LastFree.{insert_free}
use disagg_shmem_allocator.Heap.State.{IsHeap}
use disagg_shmem_allocator.Heap.State.Release.{Freed, heap_free_block-Freed}
use disagg_shmem_allocator.Heap.Places.{LiveIn, LiveIn-IsLive}
use disagg_shmem_allocator.Heap.Places.Freed.{LiveIn-freed}
use disagg_shmem_allocator.Heap.Found.{Found, LiveIn-Found}
use disagg_shmem_allocator.Access.{
  success, einval, enoent, eacces, err, perm_free, check_dir_access, check_block_access,
}
use disagg_shmem_allocator.Access.Rules.{success≢eacces, MayAccess, check_dir_access_iff}
use disagg_shmem_allocator.Blocks.{shm_ptr}
use disagg_shmem_allocator.Directory.{first_slot, has_id, dir_find_by_id}
use disagg_shmem_allocator.Directory.Scan.{Outcome, first_slot-all}
use disagg_shmem_allocator.Objects.{shm_free, shm_lookup}
use disagg_shmem_allocator.Objects.Invariant.{Backed, IsRegion}
use disagg_shmem_allocator.Objects.Free.{
  dir_at, cap_same, dir_other, kept, still, freed-IsRegion, lt_old, alive_old, gone,
}

-- The state after the object `obj_id` of `slot` has been freed: the invariant holds, the block is
-- gone, the entry is empty, the ID and old pointers to the block are refused, every other object
-- keeps its block, its header and its entry, and no payload is written.
pub record Released (r r' : Region) (cs : List Chunk) (obj_id slot b m : ℕ) : Type 0 where
  pub cs' : List Chunk
  pub valid : IsRegion r' cs'
  pub was : LiveIn 0 cs b m
  pub room : slot < r.hdr.dir_capacity
  pub off : (r.dir slot).off ≡ b + 56
  pub dead : (r'.blk (hoff_of_poff (r.dir slot).off)).allocated ≡ 0
  pub ended : (k : ℕ) → LiveIn 0 cs' b k → ⊥
  pub forgotten : (user perms : ℕ) → shm_lookup r' obj_id user perms ≡ err enoent
  pub capacity : r'.hdr.dir_capacity ≡ r.hdr.dir_capacity
  pub vacated : r'.dir slot ≡ zero_entry
  pub stale : (user perms required : ℕ) → shm_ptr r' (r.dir slot).off user perms required ≡ none
  pub others : (i : ℕ) → i ≢ slot → r'.dir i ≡ r.dir i
  pub bytes : r'.bytes ≡ r.bytes
  pub blocks : (a k : ℕ) → LiveIn 0 cs a k → a ≢ b → LiveIn 0 cs' a k × (r'.blk a ≡ r.blk a)

pub data Frees (r : Region) (cs : List Chunk) (obj_id user_id caller_perms : ℕ) : Type 0 where
  no_id :
      obj_id ≡ 0
      → shm_free r obj_id user_id caller_perms ≡ returns (r, einval)
      → Frees r cs obj_id user_id caller_perms
  unknown :
      ((i : ℕ) → 0 ≤ i → i < r.hdr.dir_capacity → has_id obj_id (r.dir i) ≡ false)
      → shm_free r obj_id user_id caller_perms ≡ returns (r, enoent)
      → Frees r cs obj_id user_id caller_perms
  denied :
      (slot : ℕ)
      → slot < r.hdr.dir_capacity
      → has_id obj_id (r.dir slot) ≡ true
      → ¬ MayAccess (r.dir slot).owner (r.dir slot).perms user_id caller_perms perm_free
      → shm_free r obj_id user_id caller_perms ≡ returns (r, eacces)
      → Frees r cs obj_id user_id caller_perms
  released :
      (slot b m : ℕ) (r' : Region)
      → has_id obj_id (r.dir slot) ≡ true
      → MayAccess (r.dir slot).owner (r.dir slot).perms user_id caller_perms perm_free
      → Released r r' cs obj_id slot b m
      → shm_free r obj_id user_id caller_perms ≡ returns (r', success)
      → Frees r cs obj_id user_id caller_perms

pub dir_access-cases :
    (e : ObjEntry) (caller perms required : ℕ)
    → e.alive ≢ 0
    → e.id ≢ 0
    → (check_dir_access (some e) caller perms required ≡ success)
      ⊎ (check_dir_access (some e) caller perms required ≡ eacces)
unfolding check_dir_access
dir_access-cases e caller perms required al id = ground arith

pub has_id-facts :
    (obj_id : ℕ) (e : ObjEntry) → has_id obj_id e ≡ true → (e.id ≡ obj_id) × (e.alive ≢ 0)
has_id-facts obj_id e h = ground arith

dead_refused :
    (h : BlockHdr) (caller perms required : ℕ)
    → h.allocated ≡ 0
    → check_block_access (some h) caller perms required ≡ einval
unfolding check_block_access
dead_refused h caller perms required dead = ground arith

stale_ptr :
    (r : Region) (off : ℕ)
    → (r.blk (hoff_of_poff off)).allocated ≡ 0
    → (user perms required : ℕ) → shm_ptr r off user perms required ≡ none
unfolding shm_ptr
stale_ptr r off dead user perms required =
    rw (shm_ptr, dead_refused (r.blk (hoff_of_poff off)) user perms required dead) refl

module _ (r : Region) (cs : List Chunk) (obj_id user_id caller_perms : ℕ)
    (inv : IsRegion r cs) where
  module _ (slot : ℕ) (room : slot < r.hdr.dir_capacity) (hit : has_id obj_id (r.dir slot) ≡ true)
      (own : Backed r cs (r.dir slot)) where
    abbrev b : ℕ
    b = own.at

    at_b : hoff_of_poff (r.dir slot).off ≡ own.at
    at_b = omega (
      arith,
      own.off,
      (LiveIn-IsLive r.blk 0 cs _ r.hdr.free_list 0 own.at own.size inv.heap.chunks own.place).1,
      inv.heap.bound,
    )

    alive : (r.dir slot).alive ≢ 0
    alive = (has_id-facts obj_id (r.dir slot) hit).1

    lookup-none :
        (r' : Region)
        → ((i : ℕ) → i < r'.hdr.dir_capacity → (r'.dir i).alive ≢ 0 → (r'.dir i).id ≢ obj_id)
        → obj_id ≢ 0
        → (user perms : ℕ) → shm_lookup r' obj_id user perms ≡ err enoent
    unfolding shm_lookup dir_find_by_id
    lookup-none r' none_has nz user perms =
        elim (Option-cases (first_slot (has_id obj_id) r'.dir r'.hdr.dir_capacity 0)) [
          | inl e ↦ rw (ne→== obj_id 0 nz, e) refl
          | inr (j, e) ↦
              let f =
                subst (Outcome (has_id obj_id) r'.dir 0 r'.hdr.dir_capacity) e
                  (first_slot-all (has_id obj_id) r'.dir r'.hdr.dir_capacity) in
              let (id, al) = has_id-facts obj_id (r'.dir j) f.2 in absurd (none_has j f.1 al id)
        ]

    Released-at :
        (r1 : Region) (p : Found r cs own.at own.size)
        → heap_free_block r own.at ≡ returns r1
        → Freed r r1 p.pre own.size p.post own.at
        → Released r (set_slot r1 slot zero_entry) cs obj_id slot own.at own.size
    Released-at r1 p run f = record {
      cs' = insert_free p.pre own.size p.post;
      valid = freed-IsRegion r r1 cs own.at own.size slot inv own.place own.off room alive p f;
      was = own.place;
      room = room;
      off = own.off;
      dead = ap (λ t. (r1.blk t).allocated) at_b ∙ heap_free_block-Dead own.at r r1 run;
      ended = λ k l.
          ((LiveIn-freed p.pre own.size p.post own.at p.at own.at k
                (LiveIn-IsLive r.blk 0 cs _ r.hdr.free_list 0 own.at own.size inv.heap.chunks
                  own.place).0.block.large
                (omega (
                  arith,
                  (LiveIn-IsLive r1.blk 0 (insert_free p.pre own.size p.post) _ r1.hdr.free_list 0
                      own.at k f.heap.chunks l).0.block.large,
                ))).1
              l).1
            refl;
      forgotten =
          lookup-none (set_slot r1 slot zero_entry)
            (λ i lt al id.
              let ne =
                gone r r1 cs own.at own.size slot inv own.place own.off room alive p f i al in
              let id_was =
                ap (λ t. t.id)
                  (dir_other r r1 cs own.at own.size slot inv own.place own.off room alive p f i
                    ne) in
              ne (
                inv.distinct i slot
                  (lt_old r r1 cs own.at own.size slot inv own.place own.off room alive p f i lt)
                  room
                  (alive_old r r1 cs own.at own.size slot inv own.place own.off room alive p f i ne
                    al)
                  alive (sym id_was ∙ id ∙ sym (has_id-facts obj_id (r.dir slot) hit).0)))
            (λ z. own.id_pos ((has_id-facts obj_id (r.dir slot) hit).0 ∙ z));
      stale =
          stale_ptr (set_slot r1 slot zero_entry) (r.dir slot).off
            (ap (λ t. (r1.blk t).allocated) at_b ∙ heap_free_block-Dead own.at r r1 run);
      capacity = cap_same r r1 cs own.at own.size slot inv own.place own.off room alive p f;
      vacated = dir_at r r1 cs own.at own.size slot inv own.place own.off room alive p f;
      others = dir_other r r1 cs own.at own.size slot inv own.place own.off room alive p f;
      bytes = f.same.bytes;
      blocks = λ a k l ne. (
        still r r1 cs own.at own.size slot inv own.place own.off room alive p f a k l ne,
        kept r r1 cs own.at own.size slot inv own.place own.off room alive p f a k l ne,
      );
    }

    at_slot :
        (obj_id == 0) ≡ false
        → first_slot (has_id obj_id) r.dir r.hdr.dir_capacity 0 ≡ some slot
        → Frees r cs obj_id user_id caller_perms
    unfolding shm_free dir_find_by_id
    at_slot nz e =
        let rule = check_dir_access_iff (r.dir slot) user_id caller_perms perm_free in
        elim (dir_access-cases (r.dir slot) user_id caller_perms perm_free alive own.id_pos) [
          | inl granted ↦
              let p = LiveIn-Found r cs own.at own.size inv.heap own.place in
              let (r1, run, fr) =
                heap_free_block-Freed r p.pre own.size p.post own.at
                  (subst (IsHeap r) p.parts inv.heap) p.placed in
              released slot own.at own.size (set_slot r1 slot zero_entry) hit (rule.0 granted).2
                (Released-at r1 p run fr) (rw (nz, e, granted, at_b, run) refl)
          | inr refused ↦
              denied slot room hit
                (λ may. success≢eacces (sym (rule.1 (alive, own.id_pos, may)) ∙ refused))
                (rw (nz, e, refused) refl)
        ]

  -- For a region that satisfies the invariant, `shm_free` refuses the ID 0, an ID that no live
  -- entry has, and a caller who may not free the object, each with its code and the region
  -- unchanged; otherwise it succeeds, in a region as `Released` describes.
  pub shm_free-Frees : Frees r cs obj_id user_id caller_perms
  unfolding shm_free dir_find_by_id
  shm_free-Frees = elim (Bool-cases (obj_id == 0)) [
    | inl z ↦ no_id (==→eq obj_id 0 z) (rw z refl)
    | inr nz ↦ elim (Option-cases (first_slot (has_id obj_id) r.dir r.hdr.dir_capacity 0)) [
      | inl e ↦
          unknown
            (subst (Outcome (has_id obj_id) r.dir 0 r.hdr.dir_capacity) e
              (first_slot-all (has_id obj_id) r.dir r.hdr.dir_capacity))
            (rw (nz, e) refl)
      | inr (slot, e) ↦
          let f =
            subst (Outcome (has_id obj_id) r.dir 0 r.hdr.dir_capacity) e
              (first_slot-all (has_id obj_id) r.dir r.hdr.dir_capacity) in
          at_slot slot f.1 f.2 (inv.entries slot f.1 (has_id-facts obj_id (r.dir slot) f.2).1) nz e
    ]
  ]
