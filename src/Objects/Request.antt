-- ===== src/Objects/Request.antt =====
-- `shm_alloc` of src/shm_alloc.c, on every branch.
use disagg_shmem_allocator.Base.{
  ℕ, ◌+◌, ◌^◌, ◌≤◌, ◌<◌, ◌≡◌, ◌≢◌, refl, sym, ap, ◌∙◌, subst, inl, inr, List, arith, true, false,
  returns, Bool-cases, Option-cases, ◌==◌, ==→eq, ==_false→ne, ◌||◌,
}
use disagg_shmem_allocator.Layout.{Region}
use disagg_shmem_allocator.Heap.Seg.{Chunk}
use disagg_shmem_allocator.Heap.Carve.{taken}
use disagg_shmem_allocator.Heap.Fit.{TooSmall}
use disagg_shmem_allocator.Heap.State.Alloc.{
  Allocated, exhausted, gives, heap_alloc_block-Allocates,
}
use disagg_shmem_allocator.Heap.Places.{LiveIn}
use disagg_shmem_allocator.Heap.Places.Taken.{LiveIn-free_apart}
use disagg_shmem_allocator.Access.{einval, enospc, enomem, ok, err}
use disagg_shmem_allocator.Directory.{first_slot, is_vacant, dir_find_free_slot}
use disagg_shmem_allocator.Directory.Scan.{Outcome, first_slot-all}
use disagg_shmem_allocator.Objects.{total_for, new_entry, publish, shm_alloc}
use disagg_shmem_allocator.Objects.Invariant.{IsRegion}
use disagg_shmem_allocator.Objects.Alloc.{
  cap_same, next_up, total_for_bounds, published-IsRegion, live_at, dir_at, dir_other, kept,
  still_live, next_same, off, payload_kept, payload_zeroed,
}

-- The state after a granted request for `size` bytes: the invariant holds, the block at `at` is live
-- and was not before, the directory has one new entry, in a slot that was vacant, and every object
-- that was live keeps its block, its header, its entry and its payload. The new payload is zeroed.
pub record Granted (r r' : Region) (cs : List Chunk) (size : ℕ) (name : List ℕ)
    (user_id perms type_tag at : ℕ) : Type 0 where
  pub cs' : List Chunk
  pub valid : IsRegion r' cs'
  pub slot : ℕ
  pub room : slot < r.hdr.dir_capacity
  pub vacant : (r.dir slot).alive ≡ 0
  pub capacity : r'.hdr.dir_capacity ≡ r.hdr.dir_capacity
  pub next_id : r'.hdr.next_id ≡ r.hdr.next_id + 1
  pub block : ℕ
  pub holds : size + 56 ≤ block
  pub place : LiveIn 0 cs' at block
  pub fresh : (k : ℕ) → 0 < k → LiveIn 0 cs at k → ⊥
  pub entry :
      (cap : ℕ) × (r'.dir slot
        ≡ new_entry r.hdr.next_id name (at + 56) cap size type_tag user_id perms)
  pub others : (i : ℕ) → i ≢ slot → r'.dir i ≡ r.dir i
  pub blocks : (b k : ℕ) → LiveIn 0 cs b k → LiveIn 0 cs' b k × (r'.blk b ≡ r.blk b)
  pub payloads : (b k i : ℕ) → LiveIn 0 cs b k → i < k → r'.bytes (b + i) ≡ r.bytes (b + i)
  pub zeroed : (i : ℕ) → i < (r'.dir slot).capacity → r'.bytes (at + 56 + i) ≡ 0

pub data Requests (r : Region) (cs : List Chunk) (size : ℕ) (name : List ℕ)
    (user_id perms type_tag : ℕ) : Type 0 where
  empty :
      size ≡ 0
      → shm_alloc r size name user_id perms type_tag ≡ returns (r, err einval)
      → Requests r cs size name user_id perms type_tag
  full :
      ((i : ℕ) → 0 ≤ i → i < r.hdr.dir_capacity → is_vacant (r.dir i) ≡ false)
      → shm_alloc r size name user_id perms type_tag ≡ returns (r, err enospc)
      → Requests r cs size name user_id perms type_tag
  too_large :
      TooSmall (total_for size) cs
      → shm_alloc r size name user_id perms type_tag ≡ returns (r, err enomem)
      → Requests r cs size name user_id perms type_tag
  granted :
      (r' : Region) (at : ℕ)
      → Granted r r' cs size name user_id perms type_tag at
      → shm_alloc r size name user_id perms type_tag ≡ returns (r', ok (r.hdr.next_id, at + 56))
      → Requests r cs size name user_id perms type_tag

module _ (r : Region) (cs : List Chunk) (size : ℕ) (name : List ℕ) (user_id perms type_tag : ℕ)
    (inv : IsRegion r cs) (small : size + 64 < 2 ^ 64) (more : r.hdr.next_id + 1 < 2 ^ 64) where
  -- A slot below the capacity that the scan takes is not alive: every live entry has an ID.
  vacant-alive : (i : ℕ) → i < r.hdr.dir_capacity → is_vacant (r.dir i) ≡ true → (r.dir i).alive ≡ 0
  vacant-alive i lt v = elim (Bool-cases ((r.dir i).alive == 0)) [
    | inl e ↦ ==→eq _ _ e
    | inr ne ↦ absurd (
        (inv.entries i lt (==_false→ne _ _ ne)).id_pos
          (==→eq _ _ (sym (ap (λ t. ((r.dir i).id == 0) || t) ne ∙ or_false _) ∙ v)))
  ]
    where
      or_false : (b : _) → (b || false) ≡ b
      or_false true = refl
      or_false false = refl

  Granted-at :
      (slot at n : ℕ) (r1 : Region)
      → size ≢ 0
      → slot < r.hdr.dir_capacity
      → (r.dir slot).alive ≡ 0
      → (a : Allocated r r1 (total_for size) cs at n)
      → Granted r
          (publish r1 slot at size name user_id perms type_tag)
          cs
          size
          name
          user_id
          perms
          type_tag
          at
  unfolding taken
  Granted-at slot at n r1 nz room vacant a = record {
    cs' = _;
    valid =
        published-IsRegion r r1 cs at n (total_for size) slot size name user_id perms type_tag inv a
          vacant room more;
    slot = slot;
    room = room;
    vacant = vacant;
    capacity =
        cap_same r r1 cs at n (total_for size) slot size name user_id perms type_tag inv a vacant
          room more;
    next_id =
        next_up r r1 cs at n (total_for size) slot size name user_id perms type_tag inv a vacant
          room more;
    block = taken (total_for size) n;
    holds = ground (arith, a.enough, (total_for_bounds size nz small).1);
    place =
        live_at r r1 cs at n (total_for size) slot size name user_id perms type_tag inv a vacant
          room more;
    fresh = λ k pos l.
        let out =
          LiveIn-free_apart a.pre (total_for size) n a.post at a.place at k pos
            (subst (λ t. LiveIn 0 t at k) a.parts l) in
        omega (arith, out, a.enough, (total_for_bounds size nz small).0);
    entry = (
      _,
      dir_at r r1 cs at n (total_for size) slot size name user_id perms type_tag inv a vacant room
          more,
    );
    others =
        dir_other r r1 cs at n (total_for size) slot size name user_id perms type_tag inv a vacant
          room more;
    blocks = λ b k l. (
      still_live r r1 cs at n (total_for size) slot size name user_id perms type_tag inv a vacant
          room more b k l,
      kept r r1 cs at n (total_for size) slot size name user_id perms type_tag inv a vacant room
          more b k l,
    );
    payloads =
        payload_kept r r1 cs at n (total_for size) slot size name user_id perms type_tag inv a
          vacant room more;
    zeroed =
        payload_zeroed r r1 cs at n (total_for size) slot size name user_id perms type_tag inv a
          vacant room more;
  }

  -- For a region that satisfies the invariant, a size that does not wrap around and IDs that have
  -- not run out, `shm_alloc` refuses a size of 0, a full directory and a size for which no free
  -- chunk is large enough, each with its code and the region unchanged; otherwise it returns the
  -- next ID and the payload's offset, in a region as `Granted` describes.
  pub shm_alloc-Requests : Requests r cs size name user_id perms type_tag
  unfolding shm_alloc dir_find_free_slot
  shm_alloc-Requests = elim (Bool-cases (size == 0)) [
    | inl z ↦ empty (==→eq size 0 z) (rw z refl)
    | inr nz ↦ elim (Option-cases (first_slot is_vacant r.dir r.hdr.dir_capacity 0)) [
      | inl e ↦
          full
            (subst (Outcome is_vacant r.dir 0 r.hdr.dir_capacity) e
              (first_slot-all is_vacant r.dir r.hdr.dir_capacity))
            (rw (nz, e) refl)
      | inr (slot, e) ↦
          let f =
            subst (Outcome is_vacant r.dir 0 r.hdr.dir_capacity) e
              (first_slot-all is_vacant r.dir r.hdr.dir_capacity) in
          let ne = ==_false→ne size 0 nz in
          elim (heap_alloc_block-Allocates r (total_for size) cs inv.heap
            (total_for_bounds size ne small).0) [
              | exhausted t _ run ↦ too_large t (rw (nz, e, run) refl)
              | gives r1 at n a _ run ↦
                  granted (publish r1 slot at size name user_id perms type_tag) at
                    (Granted-at slot at n r1 ne f.1 (vacant-alive slot f.1 f.2) a)
                    (rw
                      (
                        nz,
                        e,
                        run,
                        next_same r r1 cs at n (total_for size) slot size name user_id perms
                            type_tag inv a (vacant-alive slot f.1 f.2) f.1 more,
                        off r r1 cs at n (total_for size) slot size name user_id perms type_tag inv
                            a (vacant-alive slot f.1 f.2) f.1 more,
                      )
                      refl)
            ]
    ]
  ]
