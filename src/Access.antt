-- ===== src/Access.antt =====
-- Permission checks of src/shm_alloc.c: `check_block_access` and `check_dir_access`. A pointer that
-- may be NULL is an option.
pub mod Rules
use disagg_shmem_allocator.Base.{
  ℕ, Bool, not, ◌&&◌, ◌||◌, Option, none, some, bit_and, ◌==◌, if◌then◌else◌,
}
use disagg_shmem_allocator.Layout.{BlockHdr, ObjEntry, magic_block}

-- What an operation returns: 0, an error code of its own, or the `errno` of a failed system call.
pub data Status : Type 0 where
  success einval eacces enoent enomem enospc eperm : Status
  errno : ℕ → Status

-- An operation's out-parameters, or the error code.
pub data Answer {ℓ} (A : Type ℓ) : Type ℓ where
  ok : A → Answer A
  err : Status → Answer A

abbrev pub perm_read : ℕ
perm_read = 0x01

abbrev pub perm_write : ℕ
perm_write = 0x02

abbrev pub perm_free : ℕ
perm_free = 0x04

abbrev pub perm_resize : ℕ
perm_resize = 0x08

abbrev pub perm_admin : ℕ
perm_admin = 0x80

-- `(perms & required) == required`.
unfoldable pub grants : (perms required : ℕ) → Bool
grants perms required = bit_and perms required == required

-- `perms & SHM_PERM_ADMIN`.
unfoldable pub is_admin : ℕ → Bool
is_admin perms = not (bit_and perms perm_admin == 0)

unfoldable pub check_block_access : Option BlockHdr → (caller caller_perms required : ℕ) → Status
check_block_access none caller caller_perms required = einval
check_block_access (some b) caller caller_perms required =
    if not (b.magic == magic_block)
    then einval
    else if b.allocated == 0
    then einval
    else if is_admin caller_perms
    then success
    else if not (caller == b.owner)
    then eacces
    else if not (grants b.perms required)
    then eacces
    else if not (grants caller_perms required)
    then eacces
    else success

unfoldable pub check_dir_access : Option ObjEntry → (caller caller_perms required : ℕ) → Status
check_dir_access none caller caller_perms required = enoent
check_dir_access (some e) caller caller_perms required =
    if (e.alive == 0) || (e.id == 0)
    then enoent
    else if is_admin caller_perms
    then success
    else if not (caller == e.owner)
    then eacces
    else if not (grants e.perms required)
    then eacces
    else if not (grants caller_perms required)
    then eacces
    else success
