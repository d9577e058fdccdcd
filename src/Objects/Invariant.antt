-- ===== src/Objects/Invariant.antt =====
-- The invariant of a region: the heap's, and that the directory's live entries and the live blocks
-- correspond to one another.
use disagg_shmem_allocator.Base.{ℕ, ◌+◌, ◌<◌, ◌≡◌, ◌≢◌, List}
use disagg_shmem_allocator.Layout.{BlockHdr, ObjEntry, Region}
use disagg_shmem_allocator.Heap.Seg.{Chunk}
use disagg_shmem_allocator.Heap.Places.{LiveIn}
use disagg_shmem_allocator.Heap.State.{IsHeap}

-- The header of a live object's block repeats what the directory says.
pub record Mirrors (b : BlockHdr) (e : ObjEntry) : Type 0 where
  pub obj_id : b.obj_id ≡ e.id
  pub owner : b.owner ≡ e.owner
  pub perms : b.perms ≡ e.perms
  pub type_tag : b.type_tag ≡ e.type_tag
  pub cap : b.payload_cap ≡ e.capacity

-- The entry names a live block, and has an ID that has been given out.
pub record Backed (r : Region) (cs : List Chunk) (e : ObjEntry) : Type 0 where
  pub id_pos : e.id ≢ 0
  pub id_lt : e.id < r.hdr.next_id
  pub at : ℕ
  pub size : ℕ
  pub place : LiveIn 0 cs at size
  pub off : e.off ≡ at + 56
  pub mirror : Mirrors (r.blk at) e

-- Some live entry names the block at `a`.
pub record Listed (r : Region) (a : ℕ) : Type 0 where
  pub slot : ℕ
  pub lt : slot < r.hdr.dir_capacity
  pub alive : (r.dir slot).alive ≢ 0
  pub off : (r.dir slot).off ≡ a + 56

pub record IsRegion (r : Region) (cs : List Chunk) : Type 0 where
  pub heap : IsHeap r cs
  pub next_pos : 0 < r.hdr.next_id
  pub entries : (i : ℕ) → i < r.hdr.dir_capacity → (r.dir i).alive ≢ 0 → Backed r cs (r.dir i)
  pub distinct :
      (i j : ℕ)
      → i < r.hdr.dir_capacity
      → j < r.hdr.dir_capacity
      → (r.dir i).alive ≢ 0
      → (r.dir j).alive ≢ 0
      → (r.dir i).id ≡ (r.dir j).id
      → i ≡ j
  pub listed : (a k : ℕ) → LiveIn 0 cs a k → Listed r a
