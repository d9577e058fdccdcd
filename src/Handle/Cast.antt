-- ===== src/Handle/Cast.antt =====
-- When `cast_dyn` of include/shm_alloc.hpp gives an object out.
use disagg_shmem_allocator.Base.{
  ℕ, ◌<◌, ◌≡◌, ◌≢◌, ◌↔◌, ◌⊎◌, refl, sym, ◌∙◌, inl, inr, List, Option, none, some, arith,
  if◌then◌else◌,
}
use disagg_shmem_allocator.Layout.{Region}
use disagg_shmem_allocator.Heap.Seg.{Chunk}
use disagg_shmem_allocator.Access.{perm_read}
use disagg_shmem_allocator.Access.Rules.{MayAccess}
use disagg_shmem_allocator.Blocks.{shm_ptr}
use disagg_shmem_allocator.Objects.Invariant.{IsRegion}
use disagg_shmem_allocator.Handle.{CppType, Casts, type_tag_of, stored_tag, cast_dyn}
use disagg_shmem_allocator.Handle.Live.{verdict, may, may_not, stored_tag-live}

-- What the language's cast says of the object at `off`, once its tag has passed.
abbrev pub cast_answer : (from : CppType) → Casts → Region → ℕ → Option ℕ
cast_answer from casts r off =
    if from.polymorphic then casts.dynamic r.bytes off else some (casts.static off)

tag_passes :
    (to from : CppType) (casts : Casts) (r : Region) (off q caller perms : ℕ)
    → shm_ptr r off caller perms perm_read ≡ some off
    → (cast_dyn to from casts r (record { off = off }) caller perms ≡ some q) ↔ (
        ((stored_tag r off ≡ 0) ⊎ (stored_tag r off ≡ type_tag_of to))
        × (cast_answer from casts r off ≡ some q))
unfolding cast_dyn
tag_passes to from casts r off q caller perms opens = rw (cast_dyn, opens) (ground arith)

module _ (to from : CppType) (casts : Casts) (r : Region) (cs : List Chunk) (inv : IsRegion r cs)
    (slot : ℕ) (room : slot < r.hdr.dir_capacity) (alive : (r.dir slot).alive ≢ 0)
    (user_id caller_perms : ℕ) where
  abbrev tag : ℕ
  tag = (r.dir slot).type_tag

  -- For a region that satisfies the invariant and a handle to a live object: `cast_dyn` gives an
  -- address out exactly where the caller may read the object, its tag is 0 or the target's, and the
  -- language's cast answers that address.
  pub cast_dyn_iff :
      (q : ℕ)
      → (cast_dyn to from casts r (record { off = (r.dir slot).off }) user_id caller_perms ≡ some q)
        ↔ (MayAccess (r.dir slot).owner (r.dir slot).perms user_id caller_perms perm_read
            × ((tag ≡ 0) ⊎ (tag ≡ type_tag_of to))
            × (cast_answer from casts r (r.dir slot).off ≡ some q))
  unfolding cast_dyn
  cast_dyn_iff q = elim (verdict r cs inv slot room alive user_id caller_perms perm_read) [
    | may m opens ↦
        let same = stored_tag-live r cs inv slot room alive in
        let p = tag_passes to from casts r (r.dir slot).off q user_id caller_perms opens in
        (λ e. (m, tags same (p.0 e).0, (p.0 e).1), λ h. p.1 (tags (sym same) h.1, h.2))
    | may_not m refused ↦
        (λ e. absurd (none≢some q (sym (rw (cast_dyn, refused) refl) ∙ e)), λ h. absurd (m h.0))
  ]
    where
      none≢some : (a : ℕ) → none ≢ some a
      none≢some a e = ground arith

      tags : {a b : ℕ} → a ≡ b → (a ≡ 0) ⊎ (a ≡ type_tag_of to) → (b ≡ 0) ⊎ (b ≡ type_tag_of to)
      tags e (inl z) = inl (sym e ∙ z)
      tags e (inr z) = inr (sym e ∙ z)
