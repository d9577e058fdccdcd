-- ===== src/Store/Refines.antt =====
-- Sequences of operations of src/shm_alloc.c do to the store what each of them, called as it is and
-- answering as it does, is allowed to.
use disagg_shmem_allocator.Resize.Outcome
use disagg_shmem_allocator.Store
