-- ===== src/Objects.antt =====
-- The public operations of src/shm_alloc.c that allocate, free, look up and enumerate objects. Each
-- takes the region and returns it with the answer. shm_alloc, shm_free and the two lookups hold the
-- region's lock meanwhile; shm_dir_next takes no lock, and is modelled on a region that does not
-- change while it runs. The handle and the required
-- out-parameters are given, so the tests for NULL among the guards have nothing to test.
pub mod Invariant
pub mod Publish
pub mod Alloc
pub mod Request
pub mod Free
pub mod Release
pub mod Lookup
pub mod Next
pub mod Enumerate
use disagg_shmem_allocator.Base.{
  ℕ, suc, ◌+◌, ◌-◌, Bool, true, false, not, ◌||◌, ◌&&◌, Option, none, some, List, [], ◌∷◌, Run,
  returns, ◌>>=◌, take, ltb, leb, ◌==◌, if◌then◌else◌, zero,
}
use disagg_shmem_allocator.Word.{add64, sub64}
use disagg_shmem_allocator.Layout.{
  BlockHdr, ObjEntry, Region, sizeof_block_hdr, heap_align, dir_name_max, magic_block, align_up,
  memset_zero, set_blk, set_slot, set_hdr, poff_of_hoff, hoff_of_poff, zero_entry,
}
use disagg_shmem_allocator.Heap.{heap_alloc_block, heap_free_block}
use disagg_shmem_allocator.Access.{
  Status, success, einval, eacces, enoent, enomem, enospc, Answer, ok, err, perm_read, perm_write,
  perm_free, check_block_access, check_dir_access,
}
use disagg_shmem_allocator.Directory.{
  dir_find_by_id, dir_find_by_name, dir_find_free_slot, dir_count_live,
}

-- The bytes of a block that holds `size` payload bytes.
abbrev pub total_for : ℕ → ℕ
total_for size = align_up (add64 sizeof_block_hdr size) heap_align

-- The header of the new block, and its directory entry.
abbrev pub own_block : (b : BlockHdr) → (id owner perms type_tag : ℕ) → BlockHdr
own_block b id owner perms type_tag = record b {
  type_tag = type_tag;
  owner = owner;
  perms = perms;
  obj_id = id;
}

abbrev pub new_entry : (id : ℕ) → List ℕ → (off cap size type_tag owner perms : ℕ) → ObjEntry
new_entry id name off cap size type_tag owner perms = record {
  id = id;
  name = take 47 name;
  off = off;
  capacity = cap;
  used_size = size;
  type_tag = type_tag;
  owner = owner;
  perms = perms;
  alive = 1;
}

-- `shm_alloc` after the block at `ho` has been taken for the object in `slot`.
unfoldable pub publish :
    Region → (slot ho size : ℕ) → List ℕ → (user_id perms type_tag : ℕ) → Region
publish r slot ho size name user_id perms type_tag =
    let id = r.hdr.next_id in
    let r1 = set_hdr r (record (r.hdr) { next_id = add64 id 1 }) in
    let r2 = set_blk r1 ho (own_block (r1.blk ho) id user_id perms type_tag) in
    let cap = (r2.blk ho).payload_cap in
    let r3 = memset_zero r2 (ho + sizeof_block_hdr) cap in
    set_slot r3 slot (new_entry id name (poff_of_hoff ho) cap size type_tag user_id perms)

-- The answer is the object's ID and payload offset.
unfoldable pub shm_alloc :
    Region
    → (payload_size : ℕ) → List ℕ
    → (user_id perms type_tag : ℕ) → Run (Region × Answer (ℕ × ℕ))
shm_alloc r payload_size name user_id perms type_tag =
    if payload_size == 0 then returns (r, err einval) else elim (dir_find_free_slot r) [
      | none ↦ returns (r, err enospc)
      | some slot ↦ do
        (r1, block) ← heap_alloc_block r (total_for payload_size)
        elim block [
          | none ↦ returns (r1, err enomem)
          | some ho ↦ returns (
            publish r1 slot ho payload_size name user_id perms type_tag,
            ok (r1.hdr.next_id, poff_of_hoff ho),
          )
        ]
    ]

unfoldable pub shm_free : Region → (obj_id user_id caller_perms : ℕ) → Run (Region × Status)
shm_free r obj_id user_id caller_perms =
    if obj_id == 0 then returns (r, einval) else elim (dir_find_by_id r obj_id) [
      | none ↦ returns (r, enoent)
      | some slot ↦ elim (check_dir_access (some (r.dir slot)) user_id caller_perms perm_free) [
        | success ↦ do
          r1 ← heap_free_block r (hoff_of_poff (r.dir slot).off)
          returns (set_slot r1 slot zero_entry, success)
        | refused ↦ returns (r, refused)
      ]
    ]

-- The answer is the object's payload offset and used size.
unfoldable pub shm_lookup : Region → (obj_id user_id caller_perms : ℕ) → Answer (ℕ × ℕ)
shm_lookup r obj_id user_id caller_perms =
    if obj_id == 0 then err einval else elim (dir_find_by_id r obj_id) [
      | none ↦ err enoent
      | some slot ↦ elim (check_dir_access (some (r.dir slot)) user_id caller_perms perm_read) [
        | success ↦ ok ((r.dir slot).off, (r.dir slot).used_size)
        | refused ↦ err refused
      ]
    ]

-- The answer is the object's ID and payload offset.
unfoldable pub shm_lookup_by_name : Region → List ℕ → (user_id caller_perms : ℕ) → Answer (ℕ × ℕ)
shm_lookup_by_name r name user_id caller_perms = elim (dir_find_by_name r name) [
  | none ↦ err enoent
  | some slot ↦ elim (check_dir_access (some (r.dir slot)) user_id caller_perms perm_read) [
    | success ↦ ok ((r.dir slot).id, (r.dir slot).off)
    | refused ↦ err refused
  ]
]

-- What the directory tells its readers of an object.
pub record DirEntry : Type 0 where
  pub id : ℕ
  pub name : List ℕ
  pub off : ℕ
  pub capacity : ℕ
  pub used_size : ℕ
  pub type_tag : ℕ
  pub owner : ℕ
  pub perms : ℕ

abbrev pub snapshot : ObjEntry → DirEntry
snapshot e = record {
  id = e.id;
  name = take 47 e.name;
  off = e.off;
  capacity = e.capacity;
  used_size = e.used_size;
  type_tag = e.type_tag;
  owner = e.owner;
  perms = e.perms;
}

-- `shm_dir_next`: the entry at the first slot from the cursor on that is alive, and the cursor
-- behind it. The rounds left are the slots behind the cursor.
unfoldable pub dir_next_loop : (ℕ → ObjEntry) → (rounds cursor : ℕ) → ℕ × Answer DirEntry
dir_next_loop dir zero cursor = (cursor, err enoent)
dir_next_loop dir (suc n) cursor =
    let rest = dir_next_loop dir n (suc cursor) in
    if not ((dir cursor).alive == 0) && not ((dir cursor).id == 0)
    then (suc cursor, ok (snapshot (dir cursor)))
    else rest

unfoldable pub shm_dir_next : Region → ℕ → ℕ × Answer DirEntry
shm_dir_next r cursor = dir_next_loop r.dir (r.hdr.dir_capacity - cursor) cursor
