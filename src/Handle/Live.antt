-- ===== src/Handle/Live.antt =====
-- What `shm_ptr` and `shm_block_info` of src/shm_alloc.c answer at the offset of a live object, and
-- that the bytes of the payloads do not matter to the invariant.
use disagg_shmem_allocator.Base.{
  ℕ, ◌+◌, ◌-◌, ◌≤◌, ◌<◌, ◌≡◌, ◌≢◌, refl, sym, ap, ◌∙◌, inl, inr, List, arith, none, some, eq→==,
}
use disagg_shmem_allocator.Word.{add64}
use disagg_shmem_allocator.Layout.{Region, magic_block, hoff_of_poff}
use disagg_shmem_allocator.Heap.Seg.{Chunk, IsLive}
use disagg_shmem_allocator.Heap.Places.{LiveIn-IsLive}
use disagg_shmem_allocator.Heap.Agree.{Agrees-of_eq, IsHeap-agree}
use disagg_shmem_allocator.Access.{success, eacces, check_block_access}
use disagg_shmem_allocator.Access.Rules.{
  MayAccess, check_block_access_iff, block_access-cases, success≢eacces,
}
use disagg_shmem_allocator.Blocks.{shm_ptr, shm_block_info}
use disagg_shmem_allocator.Objects.Invariant.{Backed, IsRegion}
use disagg_shmem_allocator.Handle.{stored_id, stored_tag}

pub bytes-IsRegion :
    (r : Region) (cs : List Chunk) (b : ℕ → ℕ)
    → IsRegion r cs
    → IsRegion (record r { bytes = b }) cs
bytes-IsRegion r cs b inv = record {
  heap =
      IsHeap-agree r (record r { bytes = b }) cs refl refl refl refl refl (λ a s. Agrees-of_eq refl)
        inv.heap;
  next_pos = inv.next_pos;
  entries = λ i lt alive.
      let o = inv.entries i lt alive in
      record {
        id_pos = o.id_pos;
        id_lt = o.id_lt;
        at = o.at;
        size = o.size;
        place = o.place;
        off = o.off;
        mirror = o.mirror;
      };
  distinct = inv.distinct;
  listed = λ a k l.
      let o = inv.listed a k l in record { slot = o.slot; lt = o.lt; alive = o.alive; off = o.off };
}

module _ (r : Region) (cs : List Chunk) (inv : IsRegion r cs) (slot : ℕ)
    (room : slot < r.hdr.dir_capacity) (alive : (r.dir slot).alive ≢ 0) where
  abbrev pub off : ℕ
  off = (r.dir slot).off

  pub own : Backed r cs (r.dir slot)
  own = inv.entries slot room alive

  is_live : IsLive (r.blk own.at) own.size × (own.at + own.size ≤ r.size - r.hdr.data_offset)
  is_live =
      LiveIn-IsLive r.blk 0 cs (r.size - r.hdr.data_offset) r.hdr.free_list 0 own.at own.size
        inv.heap.chunks own.place

  pub at_own : hoff_of_poff off ≡ own.at
  at_own = omega (arith, own.off, is_live.1, inv.heap.bound)

  pub payload_back : add64 (hoff_of_poff off) 56 ≡ off
  payload_back = omega (arith, own.off, is_live.1, inv.heap.bound)

  pub live_header :
      ((r.blk (hoff_of_poff off)).magic ≡ magic_block)
      × ((r.blk (hoff_of_poff off)).allocated ≢ 0)
      × ((r.blk (hoff_of_poff off)) ≡ r.blk own.at)
  live_header = (
    ap (λ t. (r.blk t).magic) at_own ∙ is_live.0.block.magic,
    (λ z. absurd (omega (arith, z, ap (λ t. (r.blk t).allocated) at_own, is_live.0.tag))),
    ap r.blk at_own,
  )

  pub shm_ptr-opens :
      (caller perms required : ℕ)
      → MayAccess (r.dir slot).owner (r.dir slot).perms caller perms required
      → shm_ptr r off caller perms required ≡ some off
  unfolding shm_ptr
  shm_ptr-opens caller perms required may = rw (shm_ptr, block) (ap some payload_back)
    where
      block : check_block_access (some (r.blk (hoff_of_poff off))) caller perms required ≡ success
      block = rw at_own (
          (check_block_access_iff (r.blk own.at) caller perms required).1 (
            is_live.0.block.magic,
            omega (arith, is_live.0.tag),
            rw (own.mirror.owner, own.mirror.perms) may,
          ))

  -- Whether a caller may access the object, with what `shm_ptr` then answers.
  pub data Verdict (caller perms required : ℕ) : Type 0 where
    may :
        MayAccess (r.dir slot).owner (r.dir slot).perms caller perms required
        → shm_ptr r off caller perms required ≡ some off
        → Verdict caller perms required
    may_not :
        ¬ MayAccess (r.dir slot).owner (r.dir slot).perms caller perms required
        → shm_ptr r off caller perms required ≡ none
        → Verdict caller perms required

  pub verdict : (caller perms required : ℕ) → Verdict caller perms required
  unfolding shm_ptr
  verdict caller perms required =
      let b = r.blk own.at in
      let at_block = λ (e : check_block_access (some b) caller perms required ≡ eacces).
        ap (λ t. check_block_access (some (r.blk t)) caller perms required) at_own ∙ e in
      let magic = is_live.0.block.magic in
      let tag : b.allocated ≢ 0 = omega (arith, is_live.0.tag) in
      let rule = check_block_access_iff b caller perms required in
      elim (block_access-cases b caller perms required magic tag) [
        | inl yes_may ↦
            let m : MayAccess (r.dir slot).owner (r.dir slot).perms caller perms required =
              rw (← own.mirror.owner, ← own.mirror.perms) (rule.0 yes_may).2 in
            may m (shm_ptr-opens caller perms required m)
        | inr refused ↦
            may_not
              (λ m.
                success≢eacces
                  (sym (rule.1 (magic, tag, rw (own.mirror.owner, own.mirror.perms) m)) ∙ refused))
              (rw (shm_ptr, at_block refused) refl)
      ]

  pub stored_id-live : stored_id r off ≡ (r.dir slot).id
  unfolding shm_block_info
  stored_id-live =
      rw (stored_id, shm_block_info, eq→== _ _ live_header.0)
        (ap (λ t. (r.blk t).obj_id) at_own ∙ own.mirror.obj_id)

  pub stored_tag-live : stored_tag r off ≡ (r.dir slot).type_tag
  unfolding shm_block_info
  stored_tag-live =
      rw (stored_tag, shm_block_info, eq→== _ _ live_header.0)
        (ap (λ t. (r.blk t).type_tag) at_own ∙ own.mirror.type_tag)
