-- ===== src/Objects/Enumerate.antt =====
-- The loop `while (shm_dir_next(region, &cursor, &entry) == 0)` that README.md gives for walking the
-- directory of src/shm_alloc.c.
use disagg_shmem_allocator.Base.{
  ℕ, zero, suc, ◌+◌, ◌-◌, ◌≤◌, ◌<◌, ◌≡◌, refl, sym, ap, ◌∙◌, subst, arith, true, false, List, [],
  ◌∷◌, Run, returns, diverges, ◌>>=◌, if◌then◌else◌,
}
use native.Mathlib.Decide.{ℕ_discrete}
use disagg_shmem_allocator.Layout.{ObjEntry, Region}
use disagg_shmem_allocator.Access.{Answer, ok, err}
use disagg_shmem_allocator.Objects.{DirEntry, snapshot, shm_dir_next}
use disagg_shmem_allocator.Objects.Next.{is_listed, Next, done, entry, shm_dir_next-Next}

unfoldable pub walk : Region → (fuel cursor : ℕ) → Run (List DirEntry)
walk r zero cursor = diverges
walk r (suc fuel) cursor =
    let (next, answer) = shm_dir_next r cursor in
    let rest = walk r fuel next in
    elim answer [ ok e ↦ (do later ← rest; returns (e ∷ later)) | err refused ↦ returns [] ]

-- What is told of the entries among `n` slots from `lo` on that are alive and have an ID, in the
-- order of the slots.
unfoldable pub listed_from : (ℕ → ObjEntry) → (n lo : ℕ) → List DirEntry
listed_from dir zero lo = []
listed_from dir (suc n) lo =
    let rest = listed_from dir n (suc lo) in
    if is_listed (dir lo) then snapshot (dir lo) ∷ rest else rest

listed-none :
    (dir : ℕ → ObjEntry) (n lo : ℕ)
    → ((i : ℕ) → lo ≤ i → i < lo + n → is_listed (dir i) ≡ false)
    → listed_from dir n lo ≡ []
unfolding listed_from
listed-none dir zero lo f = refl
listed-none dir (suc n) lo f =
    rw (f lo (omega arith) (omega arith))
      (listed-none dir n (suc lo) (λ i p q. f i (omega arith) (omega arith)))

listed-first :
    (dir : ℕ → ObjEntry) (n lo k : ℕ)
    → lo ≤ k
    → k < lo + n
    → ((i : ℕ) → lo ≤ i → i < k → is_listed (dir i) ≡ false)
    → is_listed (dir k) ≡ true
    → listed_from dir n lo ≡ snapshot (dir k) ∷ listed_from dir (lo + n - suc k) (suc k)
unfolding listed_from
listed-first dir zero lo k le lt f hit = absurd (omega arith)
listed-first dir (suc n) lo k le lt f hit = elim (ℕ_discrete lo k) [
  | yes e ↦
      subst
        (λ t.
          listed_from dir (suc n) lo
          ≡ snapshot (dir t) ∷ listed_from dir (lo + suc n - suc t) (suc t))
        e
        (rw (subst (λ t. is_listed (dir t) ≡ true) (sym e) hit)
          (ap (λ m. snapshot (dir lo) ∷ listed_from dir m (suc lo)) (omega arith)))
  | no ne ↦ rw (f lo (omega arith) (omega arith)) (
      listed-first dir n (suc lo) k (omega arith) (omega arith) (λ i p q. f i (omega arith) q) hit
      ∙ ap (λ m. snapshot (dir k) ∷ listed_from dir m (suc k)) (omega arith))
]

module _ (r : Region) where
  abbrev cap : ℕ
  cap = r.hdr.dir_capacity

  -- One round of the loop, by what `shm_dir_next` has answered.
  abbrev round : (fuel : ℕ) → ℕ × Answer DirEntry → Run (List DirEntry)
  round fuel (next, answer) = elim answer [
    | ok e ↦ (do later ← walk r fuel next; returns (e ∷ later))
    | err refused ↦ returns []
  ]

  round-listed :
      (fuel cursor n : ℕ) (out : ℕ × Answer DirEntry)
      → cursor + n ≡ cap
      → ((k : ℕ)
          → cursor ≤ k
          → k < cap
          → walk r fuel (suc k) ≡ returns (listed_from r.dir (cursor + n - suc k) (suc k)))
      → Next r.dir cursor cap out
      → round fuel out ≡ returns (listed_from r.dir n cursor)
  round-listed fuel cursor n out e rest (done f) =
      ap returns (sym (listed-none r.dir n cursor (λ i p q. f i p (omega arith))))
  round-listed fuel cursor n out e rest (entry k p q hit f) =
      ap (λ t. t >>= λ later. returns (snapshot (r.dir k) ∷ later)) (rest k p q)
      ∙ ap returns (sym (listed-first r.dir n cursor k p (omega arith) f hit))

  walk-from :
      (fuel cursor n : ℕ)
      → cursor + n ≡ cap
      → n < fuel
      → walk r fuel cursor ≡ returns (listed_from r.dir n cursor)
  unfolding walk
  walk-from zero cursor n e enough = absurd (omega arith)
  walk-from (suc fuel) cursor n e enough =
      round-listed fuel cursor n (shm_dir_next r cursor) e
        (λ k p q. walk-from fuel (suc k) (cursor + n - suc k) (omega arith) (omega arith))
        (shm_dir_next-Next r cursor (omega arith))

  -- Walking the directory from cursor 0 with `shm_dir_next` ends after at most one round for each
  -- slot and one more, and gives every entry that is alive and has an ID, once, in the order of the
  -- slots, and no other.
  pub walk-listed : walk r (suc cap) 0 ≡ returns (listed_from r.dir cap 0)
  walk-listed = walk-from (suc cap) 0 cap (omega arith) (omega arith)
