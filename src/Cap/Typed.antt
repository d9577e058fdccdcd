-- ===== src/Cap/Typed.antt =====
-- The class `shm::cap` of include/shm_cap.hpp, over the operations of src/shm_cap.c.
use disagg_shmem_allocator.Base.{
  ℕ, ◌≤◌, ◌<◌, ◌≡◌, ◌≢◌, ◌⊎◌, sym, ap, ◌∙◌, inl, inr, List, Bool, true, not, Option, some, bit_and,
  arith,
}
use disagg_shmem_allocator.Layout.{Region}
use disagg_shmem_allocator.Heap.Seg.{Chunk}
use disagg_shmem_allocator.Access.{grants, is_admin, perm_read}
use disagg_shmem_allocator.Blocks.{blk_of_poff}
use disagg_shmem_allocator.Objects.Invariant.{Mirrors, IsRegion}
use disagg_shmem_allocator.Handle.{Ptr, perm_read_write}
use disagg_shmem_allocator.Handle.Live.{own, live_header, payload_back}
use disagg_shmem_allocator.Cap.{
  Cap, cap_null, cap_is_null, cap_perms, cap_bounds, cap_offset, cap_epoch, shm_cap_derive,
  shm_cap_is_valid, shm_cap_deref, shm_cap_narrow,
}
use disagg_shmem_allocator.Cap.Access.{MayDerive, deref-derive}

-- A capability with the type of its payload, which leaves no trace at run time.
pub record TypedCap : Type 0 where
  pub raw : Cap

abbrev pub null : TypedCap
null = record { raw = cap_null }

unfoldable pub is_set : TypedCap → Bool
is_set c = not (cap_is_null c.raw)

abbrev pub valid : Region → TypedCap → Bool
valid r c = shm_cap_is_valid r c.raw

-- `get` with its default.
unfoldable pub get : Region → TypedCap → Option ℕ
get r c = shm_cap_deref r c.raw perm_read

-- `rw`.
unfoldable pub rw_ptr : Region → TypedCap → Option ℕ
rw_ptr r c = shm_cap_deref r c.raw perm_read_write

unfoldable pub deref : Region → TypedCap → (required : ℕ) → Option ℕ
deref r c required = shm_cap_deref r c.raw required

unfoldable pub narrow : TypedCap → ℕ → TypedCap
narrow c new_perms = record { raw = shm_cap_narrow c.raw new_perms }

abbrev pub perms : TypedCap → ℕ
perms c = cap_perms c.raw

abbrev pub bounds : TypedCap → ℕ
bounds c = cap_bounds c.raw

abbrev pub offset : TypedCap → ℕ
offset c = cap_offset c.raw

abbrev pub epoch : TypedCap → ℕ
epoch c = cap_epoch c.raw

abbrev pub reinterpret_as : TypedCap → TypedCap
reinterpret_as c = record { raw = c.raw }

unfoldable pub from_off : Region → (off user_id caller_perms grant_perms : ℕ) → TypedCap
from_off r off user_id caller_perms grant_perms = record {
  raw = shm_cap_derive r off user_id caller_perms grant_perms;
}

unfoldable pub from_ptr : Region → Ptr → (user_id caller_perms grant_perms : ℕ) → TypedCap
from_ptr r handle user_id caller_perms grant_perms = record {
  raw = shm_cap_derive r handle.off user_id caller_perms grant_perms;
}

module _ (r : Region) (cs : List Chunk) (inv : IsRegion r cs) (slot : ℕ)
    (room : slot < r.hdr.dir_capacity) (alive : (r.dir slot).alive ≢ 0)
    (user_id caller_perms grant_perms : ℕ) where
  -- For a region that satisfies the invariant and a handle to a live object whose capacity has 32
  -- bits: a capability that its owner or an administrator derives, for permissions below 256 that
  -- the object and the call both grant, opens the object for whatever those permissions grant.
  pub from_ptr-deref :
      (required : ℕ)
      → (is_admin caller_perms ≡ true) ⊎ (user_id ≡ (r.dir slot).owner)
      → grants (bit_and (r.dir slot).perms caller_perms) grant_perms ≡ true
      → (r.dir slot).capacity ≤ 0xFFFFFFFF
      → grant_perms < 256
      → grants grant_perms required ≡ true
      → deref r
          (from_ptr r (record { off = (r.dir slot).off }) user_id caller_perms grant_perms)
          required
        ≡ some (r.dir slot).off
  unfolding deref from_ptr
  from_ptr-deref required who available small low sub =
      deref-derive r (r.dir slot).off user_id caller_perms grant_perms required nz low may sub
      ∙ ap some (payload_back r cs inv slot room alive)
    where
      header : (blk_of_poff r (r.dir slot).off) ≡ r.blk (own r cs inv slot room alive).at
      header = (live_header r cs inv slot room alive).2

      own_mirror : Mirrors (r.blk (own r cs inv slot room alive).at) (r.dir slot)
      own_mirror = (own r cs inv slot room alive).mirror

      nz : (r.dir slot).off ≢ 0
      nz z = omega (arith, z, (own r cs inv slot room alive).off)

      may : MayDerive r (r.dir slot).off user_id caller_perms grant_perms
      may = record {
        magic = (live_header r cs inv slot room alive).0;
        tag = (live_header r cs inv slot room alive).1;
        owner = owner who;
        available =
            ap (λ h. grants (bit_and h caller_perms) grant_perms)
              (ap (λ h. h.perms) header ∙ own_mirror.perms)
            ∙ available;
        small = omega (arith, small, ap (λ h. h.payload_cap) header, own_mirror.cap);
      }
        where
          owner :
              (is_admin caller_perms ≡ true) ⊎ (user_id ≡ (r.dir slot).owner)
              → (is_admin caller_perms ≡ true) ⊎ (user_id ≡ (blk_of_poff r (r.dir slot).off).owner)
          owner (inl a) = inl a
          owner (inr e) = inr (e ∙ sym (ap (λ h. h.owner) header ∙ own_mirror.owner))
