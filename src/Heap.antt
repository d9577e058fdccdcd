-- ===== src/Heap.antt =====
-- The block heap of src/shm_alloc.c: the address-ordered free list (insertion with coalescing,
-- removal) and the first-fit block allocator. Each function takes and returns the region. A loop
-- runs on fuel: one round for each byte of the mapping, and one more.
pub mod Seg
pub mod Links
pub mod LastFree
pub mod Splice
pub mod SameBut
pub mod Coalesce
pub mod Insert
pub mod Fit
pub mod Carve
pub mod Taken
pub mod Chunks
pub mod State
pub mod Places
pub mod Agree
pub mod Found
pub mod Dead
pub mod Remove
use disagg_shmem_allocator.Base.{
  ℕ, zero, suc, ◌+◌, Bool, true, false, Option, none, some, Run, returns, diverges, ◌>>=◌, leb, ltb,
  ◌==◌, ◌||◌, if◌then◌else◌,
}
use disagg_shmem_allocator.Word.{add64, sub64}
use disagg_shmem_allocator.Layout.{
  BlockHdr, Region, magic_block, block_min, sizeof_block_hdr, set_blk, set_hdr, link_enc, link_dec,
}

abbrev pub fuel : Region → ℕ
fuel r = suc r.size

-- The idiom `if (prev_lnk == 0) rh->free_list = lnk; else prev->next_free = lnk;`.
unfoldable pub set_link : Region → (prev lnk : ℕ) → Region
set_link r prev lnk =
    if prev == 0
    then set_hdr r (record (r.hdr) { free_list = lnk })
    else set_blk r (link_dec prev) (record (r.blk (link_dec prev)) { next_free = lnk })

-- The walk to the insertion point: the links before and behind it.
unfoldable pub insert_walk : ℕ → (ℕ → BlockHdr) → (b_ho prev cur : ℕ) → Run (ℕ × ℕ)
insert_walk zero blk b_ho prev cur = diverges
insert_walk (suc f) blk b_ho prev cur =
    let rest = insert_walk f blk b_ho cur (blk (link_dec cur)).next_free in
    if cur == 0
    then returns (prev, cur)
    else if ltb b_ho (link_dec cur)
    then returns (prev, cur)
    else rest

unfoldable pub clear_ownership : Region → ℕ → Region
clear_ownership r b_ho =
    set_blk r b_ho
      (record (r.blk b_ho) { allocated = 0; obj_id = 0; owner = 0; perms = 0; type_tag = 0 })

unfoldable pub splice : Region → (b_ho prev cur : ℕ) → Region
splice r b_ho prev cur =
    set_link (set_blk r b_ho (record (r.blk b_ho) { next_free = cur })) prev (link_enc b_ho)

-- `b->magic = 0`, which ends the life of a merged block.
abbrev pub poison : Region → ℕ → Region
poison r ho = set_blk r ho (record (r.blk ho) { magic = 0 })

-- Absorb the successor `cur` where it begins at the end of `b`, and poison its header.
unfoldable pub coalesce_next : Region → (b_ho cur : ℕ) → Region
coalesce_next r b_ho cur =
    let b = r.blk b_ho in
    let c = r.blk (link_dec cur) in
    if cur == 0
    then r
    else if add64 b_ho b.total_size == link_dec cur
    then poison
        (set_blk r b_ho
          (record b { total_size = add64 b.total_size c.total_size; next_free = c.next_free }))
        (link_dec cur)
    else r

-- Let the predecessor `prev` absorb `b` where it ends at `b`, and poison the header of `b`.
unfoldable pub coalesce_prev : Region → (b_ho prev : ℕ) → Region
coalesce_prev r b_ho prev =
    let b = r.blk b_ho in
    let p = r.blk (link_dec prev) in
    if prev == 0
    then r
    else if add64 (link_dec prev) p.total_size == b_ho
    then poison
        (set_blk r (link_dec prev)
          (record p { total_size = add64 p.total_size b.total_size; next_free = b.next_free }))
        b_ho
    else r

unfoldable pub freelist_insert : Region → ℕ → Run Region
freelist_insert r b_ho = do
  let r1 = clear_ownership r b_ho
  (prev, cur) ← insert_walk (fuel r) r1.blk b_ho 0 r1.hdr.free_list
  let r2 = splice r1 b_ho prev cur
  let r3 = coalesce_next r2 b_ho cur
  returns (coalesce_prev r3 b_ho prev)

-- The walk to a given link.
unfoldable pub remove_walk : ℕ → (ℕ → BlockHdr) → (target prev cur : ℕ) → Run (ℕ × ℕ)
remove_walk zero blk target prev cur = diverges
remove_walk (suc f) blk target prev cur =
    let rest = remove_walk f blk target cur (blk (link_dec cur)).next_free in
    if (cur == 0) || (cur == target) then returns (prev, cur) else rest

unfoldable pub unlink : Region → (t_ho prev : ℕ) → Region
unlink r t_ho prev =
    let r1 = set_link r prev (r.blk t_ho).next_free in
    set_blk r1 t_ho (record (r1.blk t_ho) { next_free = 0 })

unfoldable pub freelist_remove : Region → ℕ → Run Region
freelist_remove r t_ho = do
  (prev, cur) ← remove_walk (fuel r) r.blk (link_enc t_ho) 0 r.hdr.free_list
  returns (if cur == link_enc t_ho then unlink r t_ho prev else r)

-- First fit: the link before the block found, and the block's header offset.
unfoldable pub find_fit : ℕ → (ℕ → BlockHdr) → (need prev cur : ℕ) → Run (Option (ℕ × ℕ))
find_fit zero blk need prev cur = diverges
find_fit (suc f) blk need prev cur =
    let rest = find_fit f blk need cur (blk (link_dec cur)).next_free in
    if cur == 0
    then returns none
    else if leb need (blk (link_dec cur)).total_size
    then returns (some (prev, link_dec cur))
    else rest

-- A free block's header as the code writes it behind a block that it cuts.
abbrev pub free_hdr : (total next : ℕ) → BlockHdr
free_hdr total next = record {
  magic = magic_block;
  type_tag = 0;
  owner = 0;
  perms = 0;
  allocated = 0;
  obj_id = 0;
  payload_cap = sub64 total sizeof_block_hdr;
  total_size = total;
  next_free = next;
}

abbrev pub set_total : Region → (ho total : ℕ) → Region
set_total r ho total =
    set_blk r ho
      (record (r.blk ho) { total_size = total; payload_cap = sub64 total sizeof_block_hdr })

unfoldable pub split_off : Region → (prev ho need rem : ℕ) → Region
split_off r prev ho need rem =
    let nb_ho = add64 ho need in
    let r1 = set_blk r nb_ho (free_hdr rem (r.blk ho).next_free) in
    set_link (set_total r1 ho need) prev (link_enc nb_ho)

unfoldable pub mark_live : Region → ℕ → Region
mark_live r ho =
    let b = r.blk ho in
    set_hdr (set_blk r ho (record b { allocated = 1; next_free = 0 })) (record (r.hdr) {
      used_bytes = add64 r.hdr.used_bytes b.total_size;
      block_count = add64 r.hdr.block_count 1;
    })

-- Take the block found at `ho` off the list, split where the remainder is large enough.
unfoldable pub carve : Region → (prev ho need : ℕ) → Region
carve r prev ho need =
    let rem = sub64 (r.blk ho).total_size need in
    mark_live
      (if leb block_min rem
        then split_off r prev ho need rem
        else set_link r prev (r.blk ho).next_free)
      ho

-- `none` is NULL: the heap is exhausted.
unfoldable pub heap_alloc_block : Region → ℕ → Run (Region × Option ℕ)
heap_alloc_block r need = do
  found ← find_fit (fuel r) r.blk need 0 r.hdr.free_list
  elim found [
    | none ↦ returns (r, none)
    | some (prev, ho) ↦ returns (carve r prev ho need, some ho)
  ]

unfoldable pub heap_free_block : Region → ℕ → Run Region
heap_free_block r b_ho =
    freelist_insert
      (set_hdr r (record (r.hdr) {
        used_bytes = sub64 r.hdr.used_bytes (r.blk b_ho).total_size;
        block_count = sub64 r.hdr.block_count 1;
      }))
      b_ho
