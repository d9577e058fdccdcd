-- ===== src/Examples/Handles.antt =====
-- Witnesses for the theorems on typed handles and typed capabilities.
use disagg_shmem_allocator.Base.{
  ◌+◌, ◌≡◌, ◌↔◌, ◌⊎◌, refl, inr, arith, true, false, none, some, bit_and, ◌==◌, if◌then◌else◌,
}
use disagg_shmem_allocator.Layout.{align_up, memset_zero}
use disagg_shmem_allocator.Heap.{heap_alloc_block, find_fit, carve, mark_live, split_off, set_link}
use disagg_shmem_allocator.Directory.{first_slot, dir_find_free_slot}
use disagg_shmem_allocator.Objects.{shm_alloc, publish}
use disagg_shmem_allocator.Lifecycle.{region_init, data_offset_for}
use disagg_shmem_allocator.Access.{perm_read, grants}
use disagg_shmem_allocator.Access.Rules.{MayAccess}
use disagg_shmem_allocator.Handle.{CppType, Casts, ptr_null, type_tag_of, cast_dyn}
use disagg_shmem_allocator.Handle.Make.{Makes, make-Makes}
use disagg_shmem_allocator.Handle.Free.{Freeing, free-Freeing}
use disagg_shmem_allocator.Handle.Cast.{cast_answer, cast_dyn_iff}
use disagg_shmem_allocator.Cap.Typed.{TypedCap, deref, from_ptr, from_ptr-deref}
use disagg_shmem_allocator.Examples.{
  name, created, created_chunks, created-IsRegion, created_next_id, used, used-Valid, used_slot,
}

-- A type of 16 bytes whose constructor writes a 1 and whose destructor a 0 to the first byte.
abbrev counter_type : CppType
counter_type = record {
  size = 16;
  own_tag = some 3;
  trivially_destructible = false;
  polymorphic = false;
  construct_at = λ bytes at a. if a == at then 1 else bytes a;
  destroy_at = λ bytes at a. if a == at then 0 else bytes a;
}

make-Makes_example : Makes counter_type created created_chunks 7 255 ptr_null name 3
make-Makes_example =
    make-Makes counter_type created created_chunks 7 255 ptr_null name 3 created-IsRegion
      (omega arith) (omega arith) (omega (arith, created_next_id))

free-Freeing_example : Freeing counter_type used used-Valid.0 0 7 255
free-Freeing_example =
    free-Freeing counter_type used used-Valid.0 used-Valid.1 0 used_slot.0 used_slot.1 7 255

-- The target lies 8 bytes into the source.
abbrev to_member : Casts
to_member = record { static = λ at. at + 8; dynamic = λ bytes at. none }

cast_dyn_iff_example :
    (cast_dyn counter_type counter_type to_member used (record { off = (used.dir 0).off }) 7 1
      ≡ some 64)
    ↔ (MayAccess (used.dir 0).owner (used.dir 0).perms 7 1 perm_read
        × (((used.dir 0).type_tag ≡ 0) ⊎ ((used.dir 0).type_tag ≡ type_tag_of counter_type))
        × (cast_answer counter_type to_member used (used.dir 0).off ≡ some 64))
cast_dyn_iff_example =
    cast_dyn_iff counter_type counter_type to_member used used-Valid.0 used-Valid.1 0 used_slot.0
      used_slot.1 7 1 64

-- Permission bits in the top byte of the second word: READ, WRITE and FREE.
abbrev some_cap : TypedCap
some_cap = record { raw = record { addr = 56; meta = 0x0707000100000010 } }

read_only : grants 1 3 ≡ false
unfolding grants
read_only = refl

slot_facts : ((used.dir 0).owner ≡ 7) × ((used.dir 0).perms ≡ 255) × ((used.dir 0).capacity ≡ 16)
unfolding shm_alloc heap_alloc_block find_fit carve mark_live split_off set_link publish memset_zero
    region_init dir_find_free_slot first_slot align_up data_offset_for
slot_facts = (refl, refl, refl)

grant_facts : (grants (bit_and (used.dir 0).perms 255) 3 ≡ true) × (grants 3 1 ≡ true)
unfolding shm_alloc heap_alloc_block find_fit carve mark_live split_off set_link publish memset_zero
    region_init dir_find_free_slot first_slot align_up data_offset_for grants
grant_facts = (refl, refl)

from_ptr-deref_example :
    deref used (from_ptr used (record { off = (used.dir 0).off }) 7 255 3) 1 ≡ some (used.dir 0).off
from_ptr-deref_example =
    from_ptr-deref used used-Valid.0 used-Valid.1 0 used_slot.0 used_slot.1 7 255 3 1
      (inr (omega (arith, slot_facts.0))) grant_facts.0 (omega (arith, slot_facts.2)) (omega arith)
      grant_facts.1
