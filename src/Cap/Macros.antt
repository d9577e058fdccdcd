-- ===== src/Cap/Macros.antt =====
-- The typed macros of include/shm_cap.h.
use disagg_shmem_allocator.Base.{ℕ, Option}
use disagg_shmem_allocator.Layout.{Region}
use disagg_shmem_allocator.Access.{perm_read}
use disagg_shmem_allocator.Handle.{perm_read_write}
use disagg_shmem_allocator.Cap.{Cap, shm_cap_derive, shm_cap_deref}

abbrev pub shm_cap_deref_as : Region → Cap → (required : ℕ) → Option ℕ
shm_cap_deref_as r c required = shm_cap_deref r c required

abbrev pub shm_cap_ro : Region → Cap → Option ℕ
shm_cap_ro r c = shm_cap_deref r c perm_read

abbrev pub shm_cap_rw : Region → Cap → Option ℕ
shm_cap_rw r c = shm_cap_deref r c perm_read_write

abbrev pub shm_cap_derive_typed : Region → (off user_id caller_perms grant_perms : ℕ) → Cap
shm_cap_derive_typed r off user_id caller_perms grant_perms =
    shm_cap_derive r off user_id caller_perms grant_perms
