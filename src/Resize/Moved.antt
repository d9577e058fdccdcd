-- ===== src/Resize/Moved.antt =====
-- What a change of one block's size or place does to the region of src/shm_alloc.c, and that the
-- invariant holds again once the directory entry says so.
use disagg_shmem_allocator.Base.{
  ℕ, ◌+◌, ◌<◌, ◌≡◌, ◌≢◌, refl, sym, ap, ◌∙◌, subst, ◌⊎◌, inl, inr, List, arith,
}
use native.Mathlib.Decide.{ℕ_discrete}
use disagg_shmem_allocator.Layout.{BlockHdr, ObjEntry, Region}
use disagg_shmem_allocator.Heap.Seg.{Chunk}
use disagg_shmem_allocator.Heap.Places.{LiveIn}
use disagg_shmem_allocator.Heap.State.{IsHeap}
use disagg_shmem_allocator.Heap.Agree.{Agrees-of_eq, IsHeap-agree}
use disagg_shmem_allocator.Objects.Invariant.{Backed, Listed, IsRegion}

-- The headers belong to the same object.
pub record SameOwner (h h' : BlockHdr) : Type 0 where
  pub obj_id : h'.obj_id ≡ h.obj_id
  pub owner : h'.owner ≡ h.owner
  pub perms : h'.perms ≡ h.perms
  pub type_tag : h'.type_tag ≡ h.type_tag

-- The object of the block at `ho` has the block at `nho` afterwards. The other live blocks are what
-- they were, with their payloads, and there is no other.
pub record Moved (r r' : Region) (cs cs' : List Chunk) (ho nho : ℕ) : Type 0 where
  pub heap : IsHeap r' cs'
  pub dir : r'.dir ≡ r.dir
  pub next_id : r'.hdr.next_id ≡ r.hdr.next_id
  pub capacity : r'.hdr.dir_capacity ≡ r.hdr.dir_capacity
  pub owned : SameOwner (r.blk ho) (r'.blk nho)
  pub bytes : (i : ℕ) → i < (r.blk ho).payload_cap → r'.bytes (nho + 56 + i) ≡ r.bytes (ho + 56 + i)
  pub block : ℕ
  pub place : LiveIn 0 cs' nho block
  pub others :
      (a k : ℕ) → LiveIn 0 cs a k → a ≢ ho → LiveIn 0 cs' a k × (r'.blk a ≡ r.blk a) × (a ≢ nho)
  pub payloads : (a k i : ℕ) → LiveIn 0 cs a k → a ≢ ho → i < k → r'.bytes (a + i) ≡ r.bytes (a + i)
  pub only : (a k : ℕ) → LiveIn 0 cs' a k → (a ≡ nho) ⊎ (LiveIn 0 cs a k × (a ≢ ho))

-- The entry of `slot` says where the object is and how large.
pub record Entered (r r' : Region) (slot nho new_size : ℕ) : Type 0 where
  pub size : r'.size ≡ r.size
  pub hdr : r'.hdr ≡ r.hdr
  pub blk : r'.blk ≡ r.blk
  pub bytes : r'.bytes ≡ r.bytes
  pub at_slot : r'.dir slot ≡ record (r.dir slot) {
    off = nho + 56;
    capacity = (r.blk nho).payload_cap;
    used_size = new_size;
  }
  pub other : (i : ℕ) → i ≢ slot → r'.dir i ≡ r.dir i

module _ (r r1 r' : Region) (cs cs' : List Chunk) (ho nho slot new_size : ℕ) (inv : IsRegion r cs)
    (off : (r.dir slot).off ≡ ho + 56) (room : slot < r.hdr.dir_capacity)
    (alive : (r.dir slot).alive ≢ 0) (m : Moved r r1 cs cs' ho nho)
    (e : Entered r1 r' slot nho new_size) where
  next_same : r'.hdr.next_id ≡ r.hdr.next_id
  next_same = ap (λ h. h.next_id) e.hdr ∙ m.next_id

  pub cap_same : r'.hdr.dir_capacity ≡ r.hdr.dir_capacity
  cap_same = ap (λ h. h.dir_capacity) e.hdr ∙ m.capacity

  pub dir_other : (i : ℕ) → i ≢ slot → r'.dir i ≡ r.dir i
  dir_other i ne = e.other i ne ∙ ap (λ d. d i) m.dir

  pub dir_at : r'.dir slot ≡ record (r.dir slot) {
    off = nho + 56;
    capacity = (r1.blk nho).payload_cap;
    used_size = new_size;
  }
  dir_at =
      e.at_slot
      ∙ ap {A = ObjEntry} {B = ObjEntry}
          (λ x. record x {
            off = nho + 56;
            capacity = (r1.blk nho).payload_cap;
            used_size = new_size;
          })
          (ap (λ d. d slot) m.dir)

  lt_old : (i : ℕ) → i < r'.hdr.dir_capacity → i < r.hdr.dir_capacity
  lt_old i lt = omega (arith, lt, cap_same)

  own : Backed r cs (r.dir slot)
  own = inv.entries slot room alive

  at_ho : own.at ≡ ho
  at_ho = omega (arith, own.off, off)

  -- An entry keeps its ID and its tag.
  same_id : (i : ℕ) → (r'.dir i).id ≡ (r.dir i).id
  same_id i = elim (ℕ_discrete i slot) [
    | yes q ↦ ap (λ t. (r'.dir t).id) q ∙ ap (λ t. t.id) dir_at ∙ ap (λ t. (r.dir t).id) (sym q)
    | no ne ↦ ap (λ t. t.id) (dir_other i ne)
  ]

  same_alive : (i : ℕ) → (r'.dir i).alive ≡ (r.dir i).alive
  same_alive i = elim (ℕ_discrete i slot) [
    | yes q ↦
        ap (λ t. (r'.dir t).alive) q ∙ ap (λ t. t.alive) dir_at ∙ ap (λ t. (r.dir t).alive) (sym q)
    | no ne ↦ ap (λ t. t.alive) (dir_other i ne)
  ]

  alive_old : (i : ℕ) → (r'.dir i).alive ≢ 0 → (r.dir i).alive ≢ 0
  alive_old i al z = al (same_alive i ∙ z)

  -- Another entry names another block.
  not_here :
      (i : ℕ) (b : Backed r cs (r.dir i))
      → i < r.hdr.dir_capacity
      → (r.dir i).alive ≢ 0
      → i ≢ slot
      → b.at ≢ ho
  not_here i b lt al ne q = ne (
      inv.distinct i slot lt room al alive
        (sym b.mirror.obj_id ∙ ap (λ t. (r.blk t).obj_id) (q ∙ sym at_ho) ∙ own.mirror.obj_id))

  header_at : r'.blk nho ≡ r1.blk nho
  header_at = ap (λ b. b nho) e.blk

  Backed-slot : Backed r' cs' (r'.dir slot)
  Backed-slot = rw dir_at (record {
    id_pos = own.id_pos;
    id_lt = omega (arith, next_same, own.id_lt);
    at = nho;
    size = m.block;
    place = m.place;
    off = refl;
    mirror = rw header_at (record {
      obj_id = m.owned.obj_id ∙ ap (λ t. (r.blk t).obj_id) (sym at_ho) ∙ own.mirror.obj_id;
      owner = m.owned.owner ∙ ap (λ t. (r.blk t).owner) (sym at_ho) ∙ own.mirror.owner;
      perms = m.owned.perms ∙ ap (λ t. (r.blk t).perms) (sym at_ho) ∙ own.mirror.perms;
      type_tag = m.owned.type_tag ∙ ap (λ t. (r.blk t).type_tag) (sym at_ho) ∙ own.mirror.type_tag;
      cap = refl;
    });
  })

  pub kept :
      (a k : ℕ) → LiveIn 0 cs a k → a ≢ ho → LiveIn 0 cs' a k × (r'.blk a ≡ r.blk a) × (a ≢ nho)
  kept a k l ne = let (l', same, na) = m.others a k l ne in (l', ap (λ b. b a) e.blk ∙ same, na)

  Backed-other :
      (i : ℕ) → i < r.hdr.dir_capacity → (r.dir i).alive ≢ 0 → i ≢ slot → Backed r' cs' (r'.dir i)
  Backed-other i lt al ne =
      let b = inv.entries i lt al in
      let (l', same, na) = kept b.at b.size b.place (not_here i b lt al ne) in
      rw (dir_other i ne) (record {
        id_pos = b.id_pos;
        id_lt = omega (arith, next_same, b.id_lt);
        at = b.at;
        size = b.size;
        place = l';
        off = b.off;
        mirror = rw same b.mirror;
      })

  listed' : (a k : ℕ) → LiveIn 0 cs' a k → Listed r' a
  listed' a k l = elim (m.only a k l) [
    | inl q ↦ record {
      slot = slot;
      lt = omega (arith, room, cap_same);
      alive = λ z. alive (sym (same_alive slot) ∙ z);
      off = ap (λ t. t.off) dir_at ∙ ap (λ t. t + 56) (sym q);
    }
    | inr (was, na) ↦
        let old = inv.listed a k was in
        let ne : old.slot ≢ slot =
          λ q. na (omega (arith, old.off, off, ap (λ t. (r.dir t).off) q)) in
        record {
          slot = old.slot;
          lt = omega (arith, old.lt, cap_same);
          alive = λ z. old.alive (sym (same_alive old.slot) ∙ z);
          off = ap (λ t. t.off) (dir_other old.slot ne) ∙ old.off;
        }
  ]

  pub Moved-IsRegion : IsRegion r' cs'
  Moved-IsRegion = record {
    heap =
        IsHeap-agree r1 r' cs' e.size (ap (λ h. h.data_offset) e.hdr) (ap (λ h. h.free_list) e.hdr)
          (ap (λ h. h.used_bytes) e.hdr) (ap (λ h. h.block_count) e.hdr)
          (λ a s. Agrees-of_eq (ap (λ b. b a) e.blk)) m.heap;
    next_pos = omega (arith, inv.next_pos, next_same);
    entries = λ i lt al. elim (ℕ_discrete i slot) [
      | yes q ↦ subst (λ t. Backed r' cs' (r'.dir t)) (sym q) Backed-slot
      | no ne ↦ Backed-other i (lt_old i lt) (alive_old i al) ne
    ];
    distinct = λ i j u v p q w.
        inv.distinct i j (lt_old i u) (lt_old j v) (alive_old i p) (alive_old j q)
          (sym (same_id i) ∙ w ∙ same_id j);
    listed = listed';
  }
