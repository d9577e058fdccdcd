-- ===== src/Store.antt =====
-- What a region of src/shm_alloc.c promises its users: a store of objects by ID, and what each
-- operation makes of it. The view forgets slots, blocks and offsets.
pub mod View
pub mod Operations
pub mod Refines
use disagg_shmem_allocator.Base.{ℕ, ◌≡◌, ◌≢◌, List, [], ◌∷◌, Option, none, some, take}
use disagg_shmem_allocator.Layout.{ObjEntry, Region}
use disagg_shmem_allocator.Access.{
  Status, success, einval, eacces, enomem, Answer, ok, err, perm_write, perm_free, perm_resize,
}
use disagg_shmem_allocator.Access.Rules.{MayAccess}
use disagg_shmem_allocator.Directory.{dir_find_by_id}
use disagg_shmem_allocator.Session.{Op, alloc_op, free_op, resize_op, set_perms_op, hosts_op}

pub record Object : Type 0 where
  pub name : List ℕ
  pub owner : ℕ
  pub perms : ℕ
  pub type_tag : ℕ
  pub size : ℕ

abbrev pub object_of : ObjEntry → Object
object_of e = record {
  name = e.name;
  owner = e.owner;
  perms = e.perms;
  type_tag = e.type_tag;
  size = e.used_size;
}

unfoldable pub objects : Region → ℕ → Option Object
objects r id = elim (dir_find_by_id r id) [
  | none ↦ none
  | some slot ↦ some (object_of (r.dir slot))
]

abbrev pub Same : (s s' : ℕ → Option Object) → Type 0
Same s s' = (j : ℕ) → s' j ≡ s j

-- At every ID but `id` the stores are the same.
abbrev pub SameBesides : (s s' : ℕ → Option Object) (id : ℕ) → Type 0
SameBesides s s' id = (j : ℕ) → j ≢ id → s' j ≡ s j

-- What an operation, called with its arguments and answering what it does, makes of the store. An
-- allocation answers with an ID that was not in use. A free, a resize and a change of permissions
-- take place where the object is there and the caller of that very operation may do it (and, for a
-- resize, where there is room), and answer success; in every other case the answer is an error, and
-- the store is as it was.
pub data Change (s s' : ℕ → Option Object) : Op → Type 0 where
  creates :
      (size : ℕ) (name : List ℕ) (user_id perms type_tag id off : ℕ)
      → s id ≡ none
      → s' id
        ≡ some (record {
          name = take 47 name;
          owner = user_id;
          perms = perms;
          type_tag = type_tag;
          size = size;
        })
      → SameBesides s s' id
      → Change s s' (alloc_op size name user_id perms type_tag (ok (id, off)))
  alloc_refused :
      (size : ℕ) (name : List ℕ) (user_id perms type_tag : ℕ) (code : Status)
      → Same s s'
      → Change s s' (alloc_op size name user_id perms type_tag (err code))
  removes :
      (id user_id caller_perms : ℕ) (o : Object)
      → s id ≡ some o
      → MayAccess o.owner o.perms user_id caller_perms perm_free
      → s' id ≡ none
      → SameBesides s s' id
      → Change s s' (free_op id user_id caller_perms success)
  free_absent :
      (id user_id caller_perms : ℕ) (code : Status)
      → s id ≡ none
      → code ≢ success
      → Same s s'
      → Change s s' (free_op id user_id caller_perms code)
  free_denied :
      (id user_id caller_perms : ℕ) (o : Object)
      → s id ≡ some o
      → ¬ MayAccess o.owner o.perms user_id caller_perms perm_free
      → Same s s'
      → Change s s' (free_op id user_id caller_perms eacces)
  resizes :
      (id size user_id caller_perms : ℕ) (o : Object)
      → size ≢ 0
      → s id ≡ some o
      → MayAccess o.owner o.perms user_id caller_perms perm_resize
      → s' id ≡ some (record o { size = size })
      → SameBesides s s' id
      → Change s s' (resize_op id size user_id caller_perms success)
  resize_empty :
      (id size user_id caller_perms : ℕ)
      → size ≡ 0
      → Same s s'
      → Change s s' (resize_op id size user_id caller_perms einval)
  resize_absent :
      (id size user_id caller_perms : ℕ) (code : Status)
      → s id ≡ none
      → code ≢ success
      → Same s s'
      → Change s s' (resize_op id size user_id caller_perms code)
  resize_denied :
      (id size user_id caller_perms : ℕ) (o : Object)
      → s id ≡ some o
      → ¬ MayAccess o.owner o.perms user_id caller_perms perm_resize
      → Same s s'
      → Change s s' (resize_op id size user_id caller_perms eacces)
  no_room :
      (id size user_id caller_perms : ℕ) (o : Object)
      → s id ≡ some o
      → MayAccess o.owner o.perms user_id caller_perms perm_resize
      → Same s s'
      → Change s s' (resize_op id size user_id caller_perms enomem)
  sets_perms :
      (id perms user_id caller_perms : ℕ) (o : Object)
      → s id ≡ some o
      → MayAccess o.owner o.perms user_id caller_perms perm_write
      → s' id ≡ some (record o { perms = perms })
      → SameBesides s s' id
      → Change s s' (set_perms_op id user_id caller_perms perms success)
  set_perms_denied :
      (id perms user_id caller_perms : ℕ) (o : Object)
      → s id ≡ some o
      → ¬ MayAccess o.owner o.perms user_id caller_perms perm_write
      → Same s s'
      → Change s s' (set_perms_op id user_id caller_perms perms eacces)
  hosts : Same s s' → Change s s' hosts_op

-- What a sequence of operations, the last one first, makes of the store.
pub data Changes (s : ℕ → Option Object) : List Op → (ℕ → Option Object) → Type 0 where
  start : Changes s [] s
  next :
      (ops : List Op) (op : Op) (s' s'' : ℕ → Option Object)
      → Changes s ops s'
      → Change s' s'' op
      → Changes s (op ∷ ops) s''
