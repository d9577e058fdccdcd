-- ===== src/Lifecycle.antt =====
-- Opening and closing a region in src/shm_alloc.c: `region_init`, `shm_region_open`,
-- `shm_region_close`. The system calls are not modelled: what they answer is an argument, and the
-- ones that take or give back a resource are recorded in order.
pub mod Init
pub mod Balance
use disagg_shmem_allocator.Base.{
  ℕ, suc, ◌+◌, ◌-◌, ◌*◌, ◌^◌, ◌%◌, Bool, true, false, not, ◌&&◌, ◌||◌, Option, none, some, List, [],
  ◌∷◌, ◌++◌, take, bit_and, ltb, leb, ◌==◌, if◌then◌else◌,
}
use disagg_shmem_allocator.Word.{add64, sub64, mul64}
use disagg_shmem_allocator.Layout.{
  Region, RegionHdr, align_up, heap_align, sizeof_region_hdr, sizeof_obj_entry, magic_region,
  layout_version, dir_cap_default, zero_entry, zero_block, link_enc, update, set_hdr,
}
use disagg_shmem_allocator.Heap.{free_hdr}
use disagg_shmem_allocator.Access.{Status, einval, enoent, enomem, eperm, Answer, ok, err}

pub data Backend : Type 0 where
  posix dax : Backend

abbrev pub backend_code : Backend → ℕ
backend_code posix = 0
backend_code dax = 1

-- The layout offsets: the end of the header, and the end of the directory.
unfoldable pub dir_offset_for : ℕ
unfolding align_up
dir_offset_for = align_up sizeof_region_hdr heap_align

unfoldable pub data_offset_for : ℕ → ℕ
data_offset_for dir_cap =
    add64 (align_up sizeof_region_hdr heap_align)
      (align_up (mul64 dir_cap sizeof_obj_entry) heap_align)

-- The memory is zeroed, and the header and the one free block are written. The fingerprints are
-- those of the caller.
unfoldable pub region_init :
    Region → (total_size : ℕ) → Backend → (dir_cap : ℕ) → List ℕ → (ns cgroup : ℕ) → Region
region_init r total_size backend dir_cap name ns cgroup =
    let data_off = data_offset_for dir_cap in
    record r {
      hdr = record {
        magic = magic_region;
        version = layout_version;
        backend = backend_code backend;
        dir_capacity = dir_cap;
        host_count = 0;
        region_size = total_size;
        dir_offset = align_up sizeof_region_hdr heap_align;
        data_offset = data_off;
        free_list = link_enc 0;
        used_bytes = 0;
        block_count = 0;
        next_id = 1;
        ns_inode = ns;
        cgroup_hash = cgroup;
        shm_name = take 63 name;
      };
      dir = λ i. zero_entry;
      blk = update (λ a. zero_block) 0 (free_hdr (sub64 total_size data_off) 0);
      bytes = λ a. 0;
    }

abbrev pub open_create : ℕ
open_create = 0x01

abbrev pub open_enforce_ns : ℕ
open_enforce_ns = 0x02

abbrev pub open_enforce_cgroup : ℕ
open_enforce_cgroup = 0x04

abbrev pub has_flag : (flags flag : ℕ) → Bool
has_flag flags flag = not (bit_and flags flag == 0)

pub record OpenOpts : Type 0 where
  pub backend : Backend
  pub flags : ℕ
  pub dir_capacity : ℕ

-- What the C library and the kernel answer. `memory` is what the mapping shows.
pub record Os : Type 0 where
  pub calloc_ok : Bool
  pub strdup_ok : Bool
  pub open_fd : Answer (Unit {0})
  pub ftruncate : Answer (Unit {0})
  pub fstat : Answer ℕ
  pub mmap : Answer (Unit {0})
  pub memory : Region
  pub ns_inode : ℕ
  pub cgroup_hash : ℕ

pub data Event : Type 0 where
  opened closed unlinked mapped unmapped : Event

-- The events of a step and its answer.
pub record Traced (A : Type 0) : Type 0 where
  pub events : List Event
  pub answer : Answer A

abbrev pub traced : {A : Type 0} → List Event → Answer A → Traced A
traced events answer = record { events = events; answer = answer }

infixl 5 ◌>>=◌
abbrev pub ◌>>=◌ : {A B : Type 0} → Traced A → (A → Traced B) → Traced B
t >>= f = elim t.answer [
  | err e ↦ traced t.events (err e)
  | ok a ↦ traced (t.events ++ (f a).events) (f a).answer
]

abbrev pub unlink_if : Backend → Bool → List Event
unlink_if posix creating = if creating then unlinked ∷ [] else []
unlink_if dax creating = []

-- The size of a DAX device where the caller gave none.
abbrev pub device_size : Answer ℕ → ℕ
device_size (err e) = 2 * 2 ^ 20
device_size (ok n) = if ltb 0 n then n else 2 * 2 ^ 20

-- Open the backing file; the answer is the size to map.
unfoldable pub open_backing : Os → Backend → (creating : Bool) → ℕ → Traced ℕ
open_backing os posix creating size = elim os.open_fd [
  | err e ↦ traced [] (err e)
  | ok _ ↦
      if creating
      then (if leb 4096 size
          then elim os.ftruncate [
            | err e ↦ traced (opened ∷ closed ∷ unlinked ∷ []) (err e)
            | ok _ ↦ traced (opened ∷ []) (ok size)
          ]
          else traced (opened ∷ []) (ok size))
      else elim os.fstat [
        | err e ↦ traced (opened ∷ closed ∷ []) (err e)
        | ok n ↦ traced (opened ∷ []) (ok n)
      ]
]
open_backing os dax creating size = elim os.open_fd [
  | err e ↦ traced [] (err e)
  | ok _ ↦ traced (opened ∷ []) (ok (if ltb size 4096 then device_size os.fstat else size))
]

-- Map it.
unfoldable pub map_backing : Os → Backend → (creating : Bool) → ℕ → Traced Region
map_backing os backend creating size =
    if ltb size 4096
    then traced (closed ∷ unlink_if backend creating) (err einval)
    else elim os.mmap [
      | err e ↦ traced (closed ∷ unlink_if backend creating) (err e)
      | ok _ ↦ traced (mapped ∷ []) (ok (record (os.memory) { size = size }))
    ]

-- `enforce && recorded != 0 && mine != 0 && mine != recorded`.
abbrev pub mismatch : Bool → (recorded mine : ℕ) → Bool
mismatch enforce recorded mine =
    enforce && not (recorded == 0) && not (mine == 0) && not (mine == recorded)

-- The checks on an existing region.
unfoldable pub validate : Os → (flags : ℕ) → Region → Traced Region
validate os flags r =
    if not (r.hdr.magic == magic_region) || not (r.hdr.version == layout_version)
    then traced (unmapped ∷ closed ∷ []) (err enoent)
    else if mismatch (has_flag flags open_enforce_ns) r.hdr.ns_inode os.ns_inode
    then traced (unmapped ∷ closed ∷ []) (err eperm)
    else if mismatch (has_flag flags open_enforce_cgroup) r.hdr.cgroup_hash os.cgroup_hash
    then traced (unmapped ∷ closed ∷ []) (err eperm)
    else traced [] (ok r)

abbrev pub or_default : Option OpenOpts → OpenOpts
or_default none = record { backend = posix; flags = 0; dir_capacity = 0 }
or_default (some o) = o

-- `host_count++` under the lock.
abbrev pub attach : Region → Region
attach r = set_hdr r (record (r.hdr) { host_count = (r.hdr.host_count + 1) % 2 ^ 32 })

unfoldable pub shm_region_open : Os → List ℕ → (size : ℕ) → Option OpenOpts → Traced Region
shm_region_open os name size opts =
    let o = or_default opts in
    let creating = has_flag o.flags open_create in
    let dir_cap = if o.dir_capacity == 0 then dir_cap_default else o.dir_capacity in
    if not os.calloc_ok || not os.strdup_ok then traced [] (err enomem) else do
      n ← open_backing os o.backend creating size
      r ← map_backing os o.backend creating n
      r1 ←
          if creating
          then traced [] (ok (region_init r n o.backend dir_cap name os.ns_inode os.cgroup_hash))
          else validate os o.flags r
      traced [] (ok (attach r1))

-- The shared memory afterwards, and the resources given back.
unfoldable pub shm_region_close : Region → Backend → (unlink_name : Bool) → Region × List Event
shm_region_close r backend unlink_name = (
  if ltb 0 r.hdr.host_count
      then set_hdr r (record (r.hdr) { host_count = r.hdr.host_count - 1 })
      else r,
  unmapped ∷ closed ∷ unlink_if backend unlink_name,
)

abbrev pub shm_region_size : Region → ℕ
shm_region_size r = r.size
