-- ===== src/Objects/Next.antt =====
-- `shm_dir_next` of src/shm_alloc.c: one step of an enumeration.
use disagg_shmem_allocator.Base.{
  ℕ, zero, suc, ◌+◌, ◌-◌, ◌≤◌, ◌<◌, ◌≡◌, subst, inl, inr, arith, true, false, Bool, not, ◌&&◌,
  Bool-cases, ◌==◌, ==→eq,
}
use disagg_shmem_allocator.Layout.{ObjEntry, Region}
use disagg_shmem_allocator.Access.{enoent, Answer, ok, err}
use disagg_shmem_allocator.Objects.{DirEntry, snapshot, dir_next_loop, shm_dir_next}

abbrev pub is_listed : ObjEntry → Bool
is_listed e = not (e.alive == 0) && not (e.id == 0)

-- From `lo` on, below `hi`: the first entry that is listed, with the cursor behind it, or that there
-- is none, with the cursor at the end.
pub data Next (dir : ℕ → ObjEntry) (lo hi : ℕ) : ℕ × Answer DirEntry → Type 0 where
  done : ((i : ℕ) → lo ≤ i → i < hi → is_listed (dir i) ≡ false) → Next dir lo hi (hi, err enoent)
  entry :
      (k : ℕ)
      → lo ≤ k
      → k < hi
      → is_listed (dir k) ≡ true
      → ((i : ℕ) → lo ≤ i → i < k → is_listed (dir i) ≡ false)
      → Next dir lo hi (suc k, ok (snapshot (dir k)))

at_or_after :
    (dir : ℕ → ObjEntry) (lo : ℕ)
    → is_listed (dir lo) ≡ false
    → (hi : ℕ) → ((i : ℕ) → suc lo ≤ i → i < hi → is_listed (dir i) ≡ false)
    → (i : ℕ) → lo ≤ i
    → i < hi
    → is_listed (dir i) ≡ false
at_or_after dir lo miss hi rest i le lt = elim (Bool-cases (lo == i)) [
  | inl e ↦ subst (λ t. is_listed (dir t) ≡ false) (==→eq lo i e) miss
  | inr ne ↦ rest i (ground arith) lt
]

later :
    (dir : ℕ → ObjEntry) (lo hi : ℕ) (out : ℕ × Answer DirEntry)
    → is_listed (dir lo) ≡ false
    → Next dir (suc lo) hi out
    → Next dir lo hi out
later dir lo hi out miss (done f) = done (at_or_after dir lo miss hi f)
later dir lo hi out miss (entry k p q hit f) =
    entry k (omega arith) q hit (at_or_after dir lo miss k f)

dir_next_loop-Next :
    (dir : ℕ → ObjEntry) (n lo hi : ℕ) → lo + n ≡ hi → Next dir lo hi (dir_next_loop dir n lo)
unfolding dir_next_loop
dir_next_loop-Next dir zero lo hi e =
    subst (λ t. Next dir lo hi (t, err enoent)) (omega arith) (done (λ i p q. absurd (omega arith)))
dir_next_loop-Next dir (suc n) lo hi e = elim (Bool-cases (is_listed (dir lo))) [
  | inl hit ↦ rw hit (entry lo (omega arith) (omega arith) hit (λ i p q. absurd (omega arith)))
  | inr miss ↦ rw miss (later dir lo hi _ miss (dir_next_loop-Next dir n (suc lo) hi (omega arith)))
]

-- From a cursor in the directory, `shm_dir_next` gives the first entry from there on that is alive
-- and has an ID, and moves the cursor behind it; where there is none, it answers that there is none.
pub shm_dir_next-Next :
    (r : Region) (cursor : ℕ)
    → cursor ≤ r.hdr.dir_capacity
    → Next r.dir cursor r.hdr.dir_capacity (shm_dir_next r cursor)
unfolding shm_dir_next
shm_dir_next-Next r cursor le =
    dir_next_loop-Next r.dir (r.hdr.dir_capacity - cursor) cursor r.hdr.dir_capacity (omega arith)
