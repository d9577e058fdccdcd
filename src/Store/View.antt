-- ===== src/Store/View.antt =====
-- The view of a region as a store of objects: what `dir_find_by_id` of src/shm_alloc.c finds.
use disagg_shmem_allocator.Base.{
  ℕ, ◌<◌, ◌≡◌, ◌≢◌, refl, sym, ap, ◌∙◌, subst, ◌⊎◌, inl, inr, List, arith, false, none, some,
  Option-cases,
}
use disagg_shmem_allocator.Layout.{ObjEntry, Region}
use disagg_shmem_allocator.Heap.Seg.{Chunk}
use disagg_shmem_allocator.Directory.{first_slot, has_id, dir_find_by_id}
use disagg_shmem_allocator.Directory.Scan.{Outcome, first_slot-all}
use disagg_shmem_allocator.Objects.Invariant.{IsRegion}
use disagg_shmem_allocator.Objects.Lookup.{first_slot-entry}
use disagg_shmem_allocator.Objects.Release.{has_id-facts}
use disagg_shmem_allocator.Store.{object_of, objects}

-- The live entry of an ID.
pub record Entry (r : Region) (id : ℕ) : Type 0 where
  pub slot : ℕ
  pub room : slot < r.hdr.dir_capacity
  pub alive : (r.dir slot).alive ≢ 0
  pub named : (r.dir slot).id ≡ id

abbrev pub NoEntry : Region → ℕ → Type 0
NoEntry r id = (i : ℕ) → i < r.hdr.dir_capacity → (r.dir i).alive ≢ 0 → (r.dir i).id ≢ id

pub objects-entry :
    (r : Region) (cs : List Chunk) (id : ℕ)
    → IsRegion r cs
    → (e : Entry r id) → objects r id ≡ some (object_of (r.dir e.slot))
unfolding objects dir_find_by_id
objects-entry r cs id inv e =
    let found = first_slot-entry r cs inv e.slot e.room e.alive in
    rw
      (
        objects,
        dir_find_by_id,
        ap (λ t. first_slot (has_id t) r.dir r.hdr.dir_capacity 0) (sym e.named) ∙ found,
      )
      refl

pub objects-none : (r : Region) (id : ℕ) → NoEntry r id → objects r id ≡ none
unfolding objects dir_find_by_id
objects-none r id absent = elim (Option-cases (first_slot (has_id id) r.dir r.hdr.dir_capacity 0)) [
  | inl e ↦ rw (objects, dir_find_by_id, e) refl
  | inr (j, e) ↦
      let f =
        subst (Outcome (has_id id) r.dir 0 r.hdr.dir_capacity) e
          (first_slot-all (has_id id) r.dir r.hdr.dir_capacity) in
      let (same, al) = has_id-facts id (r.dir j) f.2 in absurd (absent j f.1 al same)
]

pub has_id-miss : (id : ℕ) (e : ObjEntry) → has_id id e ≡ false → e.alive ≢ 0 → e.id ≢ id
has_id-miss id e miss al same = ground arith

pub entry-cases : (r : Region) (id : ℕ) → Entry r id ⊎ NoEntry r id
entry-cases r id = elim (Option-cases (first_slot (has_id id) r.dir r.hdr.dir_capacity 0)) [
  | inl e ↦
      let f =
        subst (Outcome (has_id id) r.dir 0 r.hdr.dir_capacity) e
          (first_slot-all (has_id id) r.dir r.hdr.dir_capacity) in
      inr λ i lt al same. has_id-miss id (r.dir i) (f i (omega arith) lt) al same
  | inr (j, e) ↦
      let f =
        subst (Outcome (has_id id) r.dir 0 r.hdr.dir_capacity) e
          (first_slot-all (has_id id) r.dir r.hdr.dir_capacity) in
      let (same, al) = has_id-facts id (r.dir j) f.2 in
      inl (record { slot = j; room = f.1; alive = al; named = same })
]

-- Where only the entry of one slot differs, and that is not the entry of `id` before or after, the
-- store has the same at `id`.
module _ (r r' : Region) (cs cs' : List Chunk) (inv : IsRegion r cs) (inv' : IsRegion r' cs')
    (slot : ℕ) (capacity : r'.hdr.dir_capacity ≡ r.hdr.dir_capacity)
    (others : (i : ℕ) → i ≢ slot → r'.dir i ≡ r.dir i) (id : ℕ)
    (before : (r.dir slot).alive ≢ 0 → (r.dir slot).id ≢ id)
    (after : (r'.dir slot).alive ≢ 0 → (r'.dir slot).id ≢ id) where
  moved_entry : (e : Entry r id) → (e' : Entry r' id) × (r'.dir e'.slot ≡ r.dir e.slot)
  moved_entry e =
      let ne : e.slot ≢ slot = λ q.
        before (λ z. e.alive (ap (λ t. (r.dir t).alive) q ∙ z))
          (ap (λ t. (r.dir t).id) (sym q) ∙ e.named) in
      let same = others e.slot ne in
      (
        record {
          slot = e.slot;
          room = omega (arith, e.room, capacity);
          alive = subst (λ t. t.alive ≢ 0) (sym same) e.alive;
          named = ap (λ t. t.id) same ∙ e.named;
        },
        same,
      )

  no_entry : NoEntry r id → NoEntry r' id
  no_entry absent i lt al named =
      let ne : i ≢ slot = λ q.
        after (λ z. al (ap (λ t. (r'.dir t).alive) q ∙ z))
          (ap (λ t. (r'.dir t).id) (sym q) ∙ named) in
      let same = others i ne in
      absent i (omega (arith, lt, capacity)) (subst (λ t. t.alive ≢ 0) same al)
        (sym (ap (λ t. t.id) same) ∙ named)

  pub objects-besides : objects r' id ≡ objects r id
  objects-besides = elim (entry-cases r id) [
    | inl e ↦
        let (e', same) = moved_entry e in
        objects-entry r' cs' id inv' e'
        ∙ ap (λ t. some (object_of t)) same
        ∙ sym (objects-entry r cs id inv e)
    | inr absent ↦ objects-none r' id (no_entry absent) ∙ sym (objects-none r id absent)
  ]
