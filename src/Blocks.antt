-- ===== src/Blocks.antt =====
-- The public operations of src/shm_alloc.c on a block by its payload offset, and the statistics. The
-- header in front of an offset is read whether or not a block begins there.
pub mod Stats
pub mod Perms
use disagg_shmem_allocator.Base.{ℕ, not, Option, none, some, ◌==◌, if◌then◌else◌}
use disagg_shmem_allocator.Word.{add64, sub64}
use disagg_shmem_allocator.Layout.{
  BlockHdr, Region, sizeof_block_hdr, magic_block, set_blk, set_slot, hoff_of_poff,
}
use disagg_shmem_allocator.Access.{
  Status, success, einval, Answer, ok, err, perm_write, check_block_access,
}
use disagg_shmem_allocator.Directory.{dir_find_by_id, dir_count_live}

abbrev pub blk_of_poff : Region → ℕ → BlockHdr
blk_of_poff r off = r.blk (hoff_of_poff off)

-- The answer is the payload's offset from the heap base, for the pointer `(char *)b + sizeof(*b)`.
unfoldable pub shm_ptr : Region → (off user_id caller_perms required : ℕ) → Option ℕ
shm_ptr r off user_id caller_perms required =
    elim (check_block_access (some (blk_of_poff r off)) user_id caller_perms required) [
      | success ↦ some (add64 (hoff_of_poff off) sizeof_block_hdr)
      | _ ↦ none
    ]

pub record BlockInfo : Type 0 where
  pub payload_cap : ℕ
  pub owner : ℕ
  pub perms : ℕ
  pub type_tag : ℕ
  pub obj_id : ℕ

unfoldable pub shm_block_info : Region → ℕ → Answer BlockInfo
shm_block_info r off =
    let b = blk_of_poff r off in
    if not (b.magic == magic_block)
    then err einval
    else ok (record {
      payload_cap = b.payload_cap;
      owner = b.owner;
      perms = b.perms;
      type_tag = b.type_tag;
      obj_id = b.obj_id;
    })

-- The block's permissions and, where its ID is in the directory, the entry's.
unfoldable pub set_perms_at : Region → (ho new_perms : ℕ) → Region
set_perms_at r ho new_perms =
    let r1 = set_blk r ho (record (r.blk ho) { perms = new_perms }) in
    elim (dir_find_by_id r1 (r1.blk ho).obj_id) [
      | none ↦ r1
      | some slot ↦ set_slot r1 slot (record (r1.dir slot) { perms = new_perms })
    ]

unfoldable pub shm_block_set_perms :
    Region → (off user_id caller_perms new_perms : ℕ) → Region × Status
shm_block_set_perms r off user_id caller_perms new_perms =
    elim (check_block_access (some (blk_of_poff r off)) user_id caller_perms perm_write) [
      | success ↦ (set_perms_at r (hoff_of_poff off) new_perms, success)
      | refused ↦ (r, refused)
    ]

pub record PoolStats : Type 0 where
  pub total_bytes : ℕ
  pub used_bytes : ℕ
  pub free_bytes : ℕ
  pub block_count : ℕ
  pub next_id : ℕ
  pub host_count : ℕ
  pub dir_capacity : ℕ
  pub dir_used : ℕ

unfoldable pub shm_pool_stats : Region → PoolStats
shm_pool_stats r = record {
  total_bytes = sub64 r.size r.hdr.data_offset;
  used_bytes = r.hdr.used_bytes;
  free_bytes = sub64 (sub64 r.size r.hdr.data_offset) r.hdr.used_bytes;
  block_count = r.hdr.block_count;
  next_id = r.hdr.next_id;
  host_count = r.hdr.host_count;
  dir_capacity = r.hdr.dir_capacity;
  dir_used = dir_count_live r;
}
