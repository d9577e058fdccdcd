-- ===== src/Directory.antt =====
-- The object directory of src/shm_alloc.c: the linear scans over the slots. A slot is named by its
-- index; a C string is the list of its bytes before the NUL.
pub mod Scan
use disagg_shmem_allocator.Base.{
  ℕ, zero, suc, ◌+◌, Bool, true, false, not, ◌&&◌, ◌||◌, Option, none, some, List, [], ◌∷◌, ltb,
  ◌==◌, if◌then◌else◌,
}
use disagg_shmem_allocator.Layout.{ObjEntry, Region}

-- strcmp(s, t) == 0.
unfoldable pub str_eq : List ℕ → List ℕ → Bool
str_eq [] [] = true
str_eq [] (y ∷ t) = false
str_eq (x ∷ s) [] = false
str_eq (x ∷ s) (y ∷ t) = (x == y) && str_eq s t

-- `for (i = first; n slots left; i++) if (test(slot i)) return slot i; return NULL;`
unfoldable pub first_slot : (ObjEntry → Bool) → (ℕ → ObjEntry) → (n i : ℕ) → Option ℕ
first_slot test dir zero i = none
first_slot test dir (suc n) i =
    let rest = first_slot test dir n (suc i) in if test (dir i) then some i else rest

abbrev pub has_id : ℕ → ObjEntry → Bool
has_id obj_id e = (e.id == obj_id) && not (e.alive == 0)

abbrev pub has_name : List ℕ → ObjEntry → Bool
has_name name e = not (e.alive == 0) && str_eq e.name name

abbrev pub is_vacant : ObjEntry → Bool
is_vacant e = (e.id == 0) || (e.alive == 0)

unfoldable pub dir_find_by_id : Region → ℕ → Option ℕ
dir_find_by_id r obj_id = first_slot (has_id obj_id) r.dir r.hdr.dir_capacity 0

unfoldable pub dir_find_by_name : Region → List ℕ → Option ℕ
dir_find_by_name r name = first_slot (has_name name) r.dir r.hdr.dir_capacity 0

unfoldable pub dir_find_free_slot : Region → Option ℕ
dir_find_free_slot r = first_slot is_vacant r.dir r.hdr.dir_capacity 0

unfoldable pub count_live : (ℕ → ObjEntry) → (n i : ℕ) → ℕ
count_live dir zero i = 0
count_live dir (suc n) i =
    let rest = count_live dir n (suc i) in if (dir i).alive == 0 then rest else suc rest

unfoldable pub dir_count_live : Region → ℕ
unfolding count_live
dir_count_live r = count_live r.dir r.hdr.dir_capacity 0
