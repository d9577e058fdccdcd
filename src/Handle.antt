-- ===== src/Handle.antt =====
-- The typed handles of include/shm_alloc.hpp, over the operations of src/shm_alloc.c. The region and
-- the required out-parameters are given, so the tests for NULL have nothing to test. An
-- out-parameter is passed in and returned.
pub mod Live
pub mod Make
pub mod Free
pub mod Cast
pub mod Macros
use disagg_shmem_allocator.Base.{
  ℕ, ◌-◌, ◌%◌, ◌^◌, Bool, not, ◌&&◌, Option, none, some, List, Run, returns, ◌>>=◌, bit_or, ◌==◌,
  if◌then◌else◌,
}
use disagg_shmem_allocator.Layout.{Region}
use disagg_shmem_allocator.Access.{
  Status, success, einval, eacces, Answer, ok, err, perm_read, perm_write,
}
use disagg_shmem_allocator.Blocks.{shm_ptr, shm_block_info}
use disagg_shmem_allocator.Objects.{shm_alloc, shm_free, shm_lookup, shm_lookup_by_name}

-- SHM_OFF_NULL, which is UINT64_MAX.
abbrev pub off_null : ℕ
off_null = 2 ^ 64 - 1

pub record Ptr : Type 0 where
  pub off : ℕ

abbrev pub ptr_null : Ptr
ptr_null = record { off = off_null }

-- `operator bool`.
unfoldable pub is_set : Ptr → Bool
is_set p = not (p.off == off_null) && not (p.off == 0)

abbrev pub raw : Ptr → ℕ
raw p = p.off

-- A type whose objects are stored: its size, its tag where it is specialised, its traits, what its
-- constructor (with the arguments bound) and its destructor do to the bytes of the region, given the
-- object's address.
pub record CppType : Type 0 where
  pub size : ℕ
  pub own_tag : Option ℕ
  pub trivially_destructible : Bool
  pub polymorphic : Bool
  pub construct_at : (ℕ → ℕ) → ℕ → (ℕ → ℕ)
  pub destroy_at : (ℕ → ℕ) → ℕ → (ℕ → ℕ)

-- The language's casts from a pointer to one type to a pointer to another: `static_cast` moves the
-- pointer by where the one type lies in the other, `dynamic_cast` reads the object.
pub record Casts : Type 0 where
  pub static : ℕ → ℕ
  pub dynamic : (ℕ → ℕ) → ℕ → Option ℕ

-- `sizeof` on 32 bits.
abbrev pub size_tag : CppType → ℕ
size_tag t = t.size % 2 ^ 32

unfoldable pub type_tag_of : CppType → ℕ
type_tag_of t = elim t.own_tag [ none ↦ size_tag t | some tag ↦ tag ]

unfoldable pub alloc :
    CppType
    → Region
    → (user_id perms : ℕ) (out : Ptr) → List ℕ
    → (tag : ℕ) → Run (Region × Ptr × Status)
alloc t r user_id perms out name tag = do
  (r1, answer) ← shm_alloc r t.size name user_id perms tag
  elim answer [
    | ok (id, off) ↦ returns (r1, record { off = off }, success)
    | err refused ↦ returns (r1, out, refused)
  ]

abbrev pub get : Region → Ptr → (user_id caller_perms : ℕ) → Option ℕ
get r handle user_id caller_perms = shm_ptr r handle.off user_id caller_perms perm_read

abbrev pub perm_read_write : ℕ
perm_read_write = bit_or perm_read perm_write

abbrev pub get_mut : Region → Ptr → (user_id caller_perms : ℕ) → Option ℕ
get_mut r handle user_id caller_perms = shm_ptr r handle.off user_id caller_perms perm_read_write

abbrev pub cast : Region → Ptr → (user_id caller_perms required : ℕ) → Option ℕ
cast r handle user_id caller_perms required = shm_ptr r handle.off user_id caller_perms required

-- The header's tag, and 0 where `shm_block_info` leaves its out-parameter alone.
abbrev pub stored_tag : Region → ℕ → ℕ
stored_tag r off = elim (shm_block_info r off) [ ok info ↦ info.type_tag | err refused ↦ 0 ]

unfoldable pub cast_dyn :
    (to from : CppType) → Casts → Region → Ptr → (user_id caller_perms : ℕ) → Option ℕ
cast_dyn to from casts r handle user_id caller_perms =
    elim (shm_ptr r handle.off user_id caller_perms perm_read) [
      | none ↦ none
      | some src ↦
          let tag = stored_tag r handle.off in
          if not (tag == 0) && not (tag == type_tag_of to)
          then none
          else if from.polymorphic
          then casts.dynamic r.bytes src
          else some (casts.static src)
    ]

unfoldable pub construct : CppType → Region → Ptr → (user_id caller_perms : ℕ) → Region × Status
construct t r handle user_id caller_perms = elim (get_mut r handle user_id caller_perms) [
  | none ↦ (r, eacces)
  | some p ↦ (record r { bytes = t.construct_at r.bytes p }, success)
]

unfoldable pub destroy : CppType → Region → Ptr → (user_id caller_perms : ℕ) → Region × Status
destroy t r handle user_id caller_perms = elim (get_mut r handle user_id caller_perms) [
  | none ↦ (r, eacces)
  | some p ↦ (record r { bytes = t.destroy_at r.bytes p }, success)
]

-- The header's object ID, and 0 where `shm_block_info` leaves its out-parameter alone.
abbrev pub stored_id : Region → ℕ → ℕ
stored_id r off = elim (shm_block_info r off) [ ok info ↦ info.obj_id | err refused ↦ 0 ]

-- `free` once the destructor has run.
unfoldable pub release : Region → Ptr → (user_id caller_perms : ℕ) → Run (Region × Status)
release r handle user_id caller_perms =
    let obj_id = stored_id r handle.off in
    if obj_id == 0 then returns (r, einval) else shm_free r obj_id user_id caller_perms

unfoldable pub free : CppType → Region → Ptr → (user_id caller_perms : ℕ) → Run (Region × Status)
free t r handle user_id caller_perms =
    if t.trivially_destructible
    then release r handle user_id caller_perms
    else (let (r1, d) = destroy t r handle user_id caller_perms in
        elim d [
          | success ↦ release r1 handle user_id caller_perms
          | refused ↦ returns (r1, refused)
        ])

unfoldable pub make :
    CppType
    → Region
    → (user_id perms : ℕ) (out : Ptr) → List ℕ
    → (tag : ℕ) → Run (Region × Ptr × Status)
make t r user_id perms out name tag = do
  (r1, handle, a) ← alloc t r user_id perms out name tag
  elim a [
    | success ↦ let (r2, c) = construct t r1 handle user_id perms in returns (r2, handle, c)
    | refused ↦ returns (r1, handle, refused)
  ]

unfoldable pub find : Region → (obj_id user_id caller_perms : ℕ) → (out : Ptr) → Ptr × Status
find r obj_id user_id caller_perms out = elim (shm_lookup r obj_id user_id caller_perms) [
  | ok (off, used_size) ↦ (record { off = off }, success)
  | err refused ↦ (out, refused)
]

-- The optional `out_id` is given here.
unfoldable pub find_by_name :
    Region → List ℕ → (user_id caller_perms : ℕ) (out : Ptr) (out_id : ℕ) → Ptr × ℕ × Status
find_by_name r name user_id caller_perms out out_id =
    elim (shm_lookup_by_name r name user_id caller_perms) [
      | ok (id, off) ↦ (record { off = off }, id, success)
      | err refused ↦ (out, out_id, refused)
    ]
