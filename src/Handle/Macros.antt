-- ===== src/Handle/Macros.antt =====
-- The typed macros of include/shm_alloc.h.
use disagg_shmem_allocator.Base.{ℕ, ◌%◌, ◌^◌, Option, List, Run}
use disagg_shmem_allocator.Layout.{Region}
use disagg_shmem_allocator.Access.{Status, Answer, perm_read}
use disagg_shmem_allocator.Blocks.{shm_ptr}
use disagg_shmem_allocator.Objects.{shm_alloc, shm_free}
use disagg_shmem_allocator.Handle.{perm_read_write}

-- SHM_TYPE_TAG_OF, of a type with the given `sizeof`.
abbrev pub type_tag_of_size : ℕ → ℕ
type_tag_of_size size = size % 2 ^ 32

abbrev pub shm_alloc_typed :
    Region → (size : ℕ) → List ℕ → (user_id perms : ℕ) → Run (Region × Answer (ℕ × ℕ))
shm_alloc_typed r size name user_id perms =
    shm_alloc r size name user_id perms (type_tag_of_size size)

abbrev pub shm_cast : Region → (off user_id caller_perms : ℕ) → Option ℕ
shm_cast r off user_id caller_perms = shm_ptr r off user_id caller_perms perm_read

abbrev pub shm_cast_mut : Region → (off user_id caller_perms : ℕ) → Option ℕ
shm_cast_mut r off user_id caller_perms = shm_ptr r off user_id caller_perms perm_read_write

abbrev pub shm_free_id : Region → (obj_id user_id caller_perms : ℕ) → Run (Region × Status)
shm_free_id r obj_id user_id caller_perms = shm_free r obj_id user_id caller_perms
