-- ===== src/Heap/Coalesce.antt =====
-- The joins of a freed block with its neighbours, `coalesce_next` and `coalesce_prev`.
pub mod Next
pub mod Prev
pub use disagg_shmem_allocator.Heap.Coalesce.Next.{coalesce_next-Spliced}
pub use disagg_shmem_allocator.Heap.Coalesce.Prev.{coalesce_prev-Seg}
