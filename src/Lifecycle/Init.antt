-- ===== src/Lifecycle/Init.antt =====
-- `region_init` of src/shm_alloc.c: the first state.
use disagg_shmem_allocator.Base.{ℕ, ◌+◌, ◌-◌, ◌^◌, ◌≤◌, ◌<◌, ◌≡◌, refl, List, [], ◌∷◌, arith}
use disagg_shmem_allocator.Layout.{Region}
use disagg_shmem_allocator.Heap.Seg.{free}
use disagg_shmem_allocator.Heap.State.{IsHeap}
use disagg_shmem_allocator.Heap.Chunks.{live_bytes, live_count}
use disagg_shmem_allocator.Objects.Invariant.{IsRegion}
use disagg_shmem_allocator.Lifecycle.{Backend, data_offset_for, region_init}

module _ (r : Region) (total : ℕ) (backend : Backend) (dir_cap : ℕ) (name : List ℕ) (ns cgroup : ℕ)
    (mapped : r.size ≡ total) (bound : total < 2 ^ 63)
    (room : data_offset_for dir_cap + 64 ≤ total) where
  init-IsHeap :
      IsHeap
        (region_init r total backend dir_cap name ns cgroup)
        (free (total - data_offset_for dir_cap) ∷ [])
  unfolding region_init live_bytes live_count
  init-IsHeap = record {
    offset = omega (arith, mapped, room);
    bound = omega (arith, mapped, bound);
    chunks = (
      refl,
      record {
        block = record {
          magic = refl;
          total = omega (arith, room, bound);
          large = omega (arith, room);
          fits = omega (arith, room, bound);
        };
        tag = refl;
      },
      (omega (arith, mapped), refl),
    );
    apart = (tt, tt);
    used = refl;
    count = refl;
  }

  -- Where the mapping has the size given, below 2^63, and the header, the directory and one
  -- smallest block fit, `region_init` makes a region of one free chunk that satisfies the
  -- invariant.
  pub init-IsRegion :
      IsRegion
        (region_init r total backend dir_cap name ns cgroup)
        (free (total - data_offset_for dir_cap) ∷ [])
  unfolding region_init
  init-IsRegion = record {
    heap = init-IsHeap;
    next_pos = omega arith;
    entries = λ i lt alive. absurd (alive refl);
    distinct = λ i j p q alive also e. absurd (alive refl);
    listed = λ a k l. absurd l;
  }

-- Where the mapping is smaller than the header and the directory, the size of the heap wraps
-- around, and `region_init` records the first free block as larger than the mapping.
pub init-overruns :
    (r : Region) (total : ℕ) (backend : Backend) (dir_cap : ℕ) (name : List ℕ) (ns cgroup : ℕ)
    → total < data_offset_for dir_cap
    → data_offset_for dir_cap < 2 ^ 63
    → total < ((region_init r total backend dir_cap name ns cgroup).blk 0).total_size
unfolding region_init
init-overruns r total backend dir_cap name ns cgroup less small = omega (arith, less, small)
