-- ===== src/Layout.antt =====
-- The shared region as src/shm_internal.h lays it out: block headers, region header, directory
-- entries and the handle, with the offset helpers. Sizes are those of the LP64 layout.
pub mod Align
use disagg_shmem_allocator.Base.{
  ℕ, ◌+◌, ◌-◌, ◌^◌, ◌≤◌, ◌≡◌, Bool, List, [], Option, none, some, bit_and, ltb, leb, ◌&&◌, ◌==◌,
  if◌then◌else◌,
}
use disagg_shmem_allocator.Word.{add64, sub64, not64}

abbrev pub magic_region : ℕ
magic_region = 0x53484D41

abbrev pub magic_block : ℕ
magic_block = 0x424C4B21

abbrev pub layout_version : ℕ
layout_version = 2

abbrev pub heap_align : ℕ
heap_align = 8

-- sizeof(shm_block_hdr_t), sizeof(shm_region_hdr_t), sizeof(shm_obj_entry_t).
abbrev pub sizeof_block_hdr : ℕ
sizeof_block_hdr = 56

abbrev pub sizeof_region_hdr : ℕ
sizeof_region_hdr = 200

abbrev pub sizeof_obj_entry : ℕ
sizeof_obj_entry = 96

abbrev pub block_min : ℕ
block_min = sizeof_block_hdr + heap_align

abbrev pub dir_cap_default : ℕ
dir_cap_default = 256

abbrev pub dir_name_max : ℕ
dir_name_max = 48

pub record BlockHdr : Type 0 where
  pub magic : ℕ
  pub type_tag : ℕ
  pub owner : ℕ
  pub perms : ℕ
  pub allocated : ℕ
  pub obj_id : ℕ
  pub payload_cap : ℕ
  pub total_size : ℕ
  pub next_free : ℕ

pub record RegionHdr : Type 0 where
  pub magic : ℕ
  pub version : ℕ
  pub backend : ℕ
  pub dir_capacity : ℕ
  pub host_count : ℕ
  pub region_size : ℕ
  pub dir_offset : ℕ
  pub data_offset : ℕ
  pub free_list : ℕ
  pub used_bytes : ℕ
  pub block_count : ℕ
  pub next_id : ℕ
  pub ns_inode : ℕ
  pub cgroup_hash : ℕ
  pub shm_name : List ℕ

pub record ObjEntry : Type 0 where
  pub id : ℕ
  pub name : List ℕ
  pub off : ℕ
  pub capacity : ℕ
  pub used_size : ℕ
  pub type_tag : ℕ
  pub owner : ℕ
  pub perms : ℕ
  pub alive : ℕ

-- The handle's mapping size with the mapped memory: the region header, the directory slots, the
-- block header that stands at each heap offset, and the heap's bytes.
pub record Region : Type 0 where
  pub size : ℕ
  pub hdr : RegionHdr
  pub dir : ℕ → ObjEntry
  pub blk : ℕ → BlockHdr
  pub bytes : ℕ → ℕ

-- What zeroed memory reads as.
abbrev pub zero_block : BlockHdr
zero_block = record {
  magic = 0;
  type_tag = 0;
  owner = 0;
  perms = 0;
  allocated = 0;
  obj_id = 0;
  payload_cap = 0;
  total_size = 0;
  next_free = 0;
}

abbrev pub zero_region_hdr : RegionHdr
zero_region_hdr = record {
  magic = 0;
  version = 0;
  backend = 0;
  dir_capacity = 0;
  host_count = 0;
  region_size = 0;
  dir_offset = 0;
  data_offset = 0;
  free_list = 0;
  used_bytes = 0;
  block_count = 0;
  next_id = 0;
  ns_inode = 0;
  cgroup_hash = 0;
  shm_name = [];
}

abbrev pub zero_entry : ObjEntry
zero_entry = record {
  id = 0;
  name = [];
  off = 0;
  capacity = 0;
  used_size = 0;
  type_tag = 0;
  owner = 0;
  perms = 0;
  alive = 0;
}

-- A write at one index.
abbrev pub update {ℓ} : {A : Type ℓ} → (ℕ → A) → ℕ → A → ℕ → A
update f i v j = if i == j then v else f j

-- `*b = h` for the header at heap offset `hoff`, and a directory slot.
abbrev pub set_blk : Region → ℕ → BlockHdr → Region
set_blk r hoff h = record r { blk = update r.blk hoff h }

abbrev pub set_slot : Region → ℕ → ObjEntry → Region
set_slot r i e = record r { dir = update r.dir i e }

abbrev pub set_hdr : Region → RegionHdr → Region
set_hdr r h = record r { hdr = h }

unfoldable pub align_up : ℕ → ℕ → ℕ
align_up n a = bit_and (sub64 (add64 n a) 1) (not64 (sub64 a 1))

unfoldable pub heap_size : Region → ℕ
heap_size r = sub64 r.size r.hdr.data_offset

-- Payload offset to header offset and back.
abbrev pub hoff_of_poff : ℕ → ℕ
hoff_of_poff poff = sub64 poff sizeof_block_hdr

abbrev pub poff_of_hoff : ℕ → ℕ
poff_of_hoff hoff = add64 hoff sizeof_block_hdr

-- A free-list link is a header offset plus one; 0 ends the list.
abbrev pub link_enc : ℕ → ℕ
link_enc hoff = add64 hoff 1

abbrev pub link_dec : ℕ → ℕ
link_dec lnk = sub64 lnk 1

abbrev pub blk_of_link : Region → ℕ → Option BlockHdr
blk_of_link r lnk = if lnk == 0 then none else some (r.blk (link_dec lnk))

-- memset(heap + lo, 0, len): the bytes, and with them every header that lies wholly inside.
unfoldable pub memset_zero : Region → ℕ → ℕ → Region
memset_zero r lo len = record r {
  bytes = λ a. if leb lo a && ltb a (lo + len) then 0 else r.bytes a;
  blk = λ a. if leb lo a && leb (a + sizeof_block_hdr) (lo + len) then zero_block else r.blk a;
}

-- memcpy(heap + dst, heap + src, len) between ranges that do not overlap.
unfoldable pub memcpy : Region → ℕ → ℕ → ℕ → Region
memcpy r dst src len = record r {
  bytes = λ a. if leb dst a && ltb a (dst + len) then r.bytes (src + (a - dst)) else r.bytes a;
  blk = λ a.
      if leb dst a && leb (a + sizeof_block_hdr) (dst + len)
      then r.blk (src + (a - dst))
      else r.blk a;
}
