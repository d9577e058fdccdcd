-- ===== src/Heap/Places/Taken.antt =====
-- The live chunks after a block has been taken.
use disagg_shmem_allocator.Base.{
  ℕ, ◌+◌, ◌-◌, ◌≤◌, ◌<◌, ◌≡◌, ◌↔◌, sym, subst, ◌⊎◌, inl, inr, List, ◌∷◌, ◌++◌, arith, Bool-cases,
  leb,
}
use disagg_shmem_allocator.Heap.Seg.{Chunk, free}
use disagg_shmem_allocator.Heap.Carve.{cut, taken}
use disagg_shmem_allocator.Heap.Places.{
  LiveIn, extent, LiveIn-le, LiveIn-end, LiveIn-append, LiveIn-left, LiveIn-right,
}

module _ (pre : List Chunk) (need n : ℕ) (post : List Chunk) (at : ℕ)
    (here : at ≡ 0 + extent pre) where
  -- Where a cut chunk's part is live, and what stands behind.
  cut-LiveIn :
      (a k : ℕ)
      → need ≤ n
      → LiveIn at (cut need n ++ post) a k
      → ((a ≡ at) × (k ≡ taken need n)) ⊎ LiveIn (at + n) post a k
  unfolding cut taken
  cut-LiveIn a k fits = elim (Bool-cases (leb 64 (n - need))) [
    | inl large ↦ rw large λ l. elim l [
      | inl p ↦ inl (sym p.0, sym p.1)
      | inr h ↦ inr (subst (λ t. LiveIn t post a k) (omega arith) h)
    ]
    | inr tight ↦ rw tight λ l. elim l [ inl p ↦ inl (sym p.0, sym p.1) | inr h ↦ inr h ]
  ]

  LiveIn-cut :
      (a k : ℕ)
      → need ≤ n
      → ((a ≡ at) × (k ≡ taken need n)) ⊎ LiveIn (at + n) post a k
      → LiveIn at (cut need n ++ post) a k
  unfolding cut taken
  LiveIn-cut a k fits = elim (Bool-cases (leb 64 (n - need))) [
    | inl large ↦ rw large λ l. elim l [
      | inl p ↦ inl (sym p.0, sym p.1)
      | inr h ↦ inr (subst (λ t. LiveIn t post a k) (omega arith) h)
    ]
    | inr tight ↦ rw tight λ l. elim l [ inl p ↦ inl (sym p.0, sym p.1) | inr h ↦ inr h ]
  ]

  -- A live chunk lies before the free one or behind it.
  pub LiveIn-free_apart :
      (a k : ℕ) → 0 < k → LiveIn 0 (pre ++ free n ∷ post) a k → (a < at) ⊎ (at + n ≤ a)
  LiveIn-free_apart a k pos l = elim (LiveIn-append 0 pre (free n ∷ post) at a k here l) [
    | inl h ↦ inl (omega (arith, LiveIn-end 0 pre a k h, here, pos))
    | inr h ↦ inr (LiveIn-le (at + n) post a k h)
  ]

  -- After an allocation the live chunks are those before, and the one taken.
  pub LiveIn-taken :
      (a k : ℕ)
      → need ≤ n
      → (((a ≡ at) × (k ≡ taken need n)) ⊎ LiveIn 0 (pre ++ free n ∷ post) a k)
        ↔ LiveIn 0 (pre ++ (cut need n ++ post)) a k
  LiveIn-taken a k fits = (
    λ l. elim l [
      | inl p ↦ LiveIn-right 0 pre _ at a k here (LiveIn-cut a k fits (inl p))
      | inr h ↦ elim (LiveIn-append 0 pre (free n ∷ post) at a k here h) [
        | inl h' ↦ LiveIn-left 0 pre _ a k h'
        | inr h' ↦ LiveIn-right 0 pre _ at a k here (LiveIn-cut a k fits (inr h'))
      ]
    ],
    λ l. elim (LiveIn-append 0 pre (cut need n ++ post) at a k here l) [
      | inl h ↦ inr (LiveIn-left 0 pre (free n ∷ post) a k h)
      | inr h ↦ elim (cut-LiveIn a k fits h) [
        | inl p ↦ inl p
        | inr h' ↦ inr (LiveIn-right 0 pre (free n ∷ post) at a k here h')
      ]
    ],
  )
