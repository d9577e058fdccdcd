-- ===== src/Objects/Free.antt =====
-- `shm_free` of src/shm_alloc.c, on every branch, and its effect on the invariant.
use disagg_shmem_allocator.Base.{
  ℕ, ◌+◌, ◌≤◌, ◌<◌, ◌≡◌, ◌≢◌, refl, sym, ap, ◌∙◌, subst, List, arith, eq→==, ne→==,
}
use disagg_shmem_allocator.Layout.{Region, set_slot, zero_entry}
use disagg_shmem_allocator.Heap.Seg.{Chunk}
use disagg_shmem_allocator.Heap.LastFree.{insert_free}
use disagg_shmem_allocator.Heap.State.Release.{Freed}
use disagg_shmem_allocator.Heap.Places.{LiveIn, LiveIn-IsLive}
use disagg_shmem_allocator.Heap.Places.Freed.{LiveIn-freed}
use disagg_shmem_allocator.Heap.Agree.{Agrees-of_eq, IsHeap-agree}
use disagg_shmem_allocator.Heap.Found.{Found}
use disagg_shmem_allocator.Objects.Invariant.{Backed, Listed, IsRegion}

-- The region in which the block of the object in `slot` has been freed.
module _ (r r1 : Region) (cs : List Chunk) (b m slot : ℕ) (inv : IsRegion r cs)
    (l : LiveIn 0 cs b m) (off : (r.dir slot).off ≡ b + 56) (room : slot < r.hdr.dir_capacity)
    (alive : (r.dir slot).alive ≢ 0) (p : Found r cs b m) (f : Freed r r1 p.pre m p.post b) where
  abbrev pub freed : Region
  freed = set_slot r1 slot zero_entry

  abbrev pub cs' : List Chunk
  cs' = insert_free p.pre m p.post

  is_live : (a k : ℕ) → LiveIn 0 cs a k → 64 ≤ k
  is_live a k h = (LiveIn-IsLive r.blk 0 cs _ r.hdr.free_list 0 a k inv.heap.chunks h).0.block.large

  pub cap_same : freed.hdr.dir_capacity ≡ r.hdr.dir_capacity
  cap_same = ap (λ h. h.dir_capacity) f.same.hdr

  next_same : freed.hdr.next_id ≡ r.hdr.next_id
  next_same = ap (λ h. h.next_id) f.same.hdr

  pub dir_other : (i : ℕ) → i ≢ slot → freed.dir i ≡ r.dir i
  dir_other i ne = rw (ne→== slot i (λ e. ne (sym e)), f.same.dir) refl

  pub dir_at : freed.dir slot ≡ zero_entry
  dir_at = rw (eq→== slot slot refl) refl

  pub still : (a k : ℕ) → LiveIn 0 cs a k → a ≢ b → LiveIn 0 cs' a k
  still a k h ne =
      (LiveIn-freed p.pre m p.post b p.at a k (is_live b m l) (omega (arith, is_live a k h))).0
        (subst (λ t. LiveIn 0 t a k) p.parts h, ne)

  pub kept : (a k : ℕ) → LiveIn 0 cs a k → a ≢ b → freed.blk a ≡ r.blk a
  kept a k h ne =
      f.same.headers a ne (LiveIn-IsLive r.blk 0 cs _ r.hdr.free_list 0 a k inv.heap.chunks h).0.tag

  pub gone : (i : ℕ) → (freed.dir i).alive ≢ 0 → i ≢ slot
  gone i al e = al (ap (λ t. (freed.dir t).alive) e ∙ ap (λ t. t.alive) dir_at)

  pub lt_old : (i : ℕ) → i < freed.hdr.dir_capacity → i < r.hdr.dir_capacity
  lt_old i lt = omega (arith, lt, cap_same)

  pub alive_old : (i : ℕ) → i ≢ slot → (freed.dir i).alive ≢ 0 → (r.dir i).alive ≢ 0
  alive_old i ne = subst (λ t. t.alive ≢ 0) (dir_other i ne)

  -- Another entry names another block: the header there tells whose it is.
  not_here :
      (i : ℕ)
      → (bk : Backed r cs (r.dir i)) → i < r.hdr.dir_capacity
      → (r.dir i).alive ≢ 0
      → i ≢ slot
      → bk.at ≢ b
  not_here i bk lt al ne e =
      let own = inv.entries slot room alive in
      let here : own.at ≡ b = omega (arith, own.off, off) in
      ne (
        inv.distinct i slot lt room al alive
          (sym bk.mirror.obj_id ∙ ap (λ t. (r.blk t).obj_id) (e ∙ sym here) ∙ own.mirror.obj_id))

  backed :
      (i : ℕ) → (freed.dir i).alive ≢ 0 → i < r.hdr.dir_capacity → Backed freed cs' (freed.dir i)
  backed i al lt =
      let ne = gone i al in
      let bk = inv.entries i lt (alive_old i ne al) in
      let nb = not_here i bk lt (alive_old i ne al) ne in
      rw (dir_other i ne) (record {
        id_pos = bk.id_pos;
        id_lt = omega (arith, next_same, bk.id_lt);
        at = bk.at;
        size = bk.size;
        place = still bk.at bk.size bk.place nb;
        off = bk.off;
        mirror = rw (kept bk.at bk.size bk.place nb) bk.mirror;
      })

  listed' : (a k : ℕ) → LiveIn 0 cs' a k → Listed freed a
  listed' a k h =
      let large =
        (LiveIn-IsLive r1.blk 0 cs' _ r1.hdr.free_list 0 a k f.heap.chunks h).0.block.large in
      let (was, na) =
        (LiveIn-freed p.pre m p.post b p.at a k (is_live b m l) (omega (arith, large))).1 h in
      let old = inv.listed a k (subst (λ t. LiveIn 0 t a k) (sym p.parts) was) in
      let ne : old.slot ≢ slot = λ e. na (omega (arith, old.off, off, ap (λ t. (r.dir t).off) e)) in
      record {
        slot = old.slot;
        lt = omega (arith, old.lt, cap_same);
        alive = subst (λ t. t.alive ≢ 0) (sym (dir_other old.slot ne)) old.alive;
        off = ap (λ t. t.off) (dir_other old.slot ne) ∙ old.off;
      }

  pub freed-IsRegion : IsRegion freed cs'
  freed-IsRegion = record {
    heap = IsHeap-agree r1 freed cs' refl refl refl refl refl (λ a s. Agrees-of_eq refl) f.heap;
    next_pos = omega (arith, inv.next_pos, next_same);
    entries = λ i lt al. backed i al (lt_old i lt);
    distinct = λ i j u v p q e.
        let ni = gone i p in
        let nj = gone j q in
        inv.distinct i j (lt_old i u) (lt_old j v) (alive_old i ni p) (alive_old j nj q)
          (sym (ap (λ t. t.id) (dir_other i ni)) ∙ e ∙ ap (λ t. t.id) (dir_other j nj));
    listed = listed';
  }
