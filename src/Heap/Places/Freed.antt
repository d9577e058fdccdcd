-- ===== src/Heap/Places/Freed.antt =====
-- The live chunks after a block has been freed.
use disagg_shmem_allocator.Base.{
  ℕ, ◌+◌, ◌≤◌, ◌<◌, ◌≡◌, ◌≢◌, ◌↔◌, sym, subst, ◌⊎◌, inl, inr, List, [], ◌∷◌, ◌++◌, arith,
}
use disagg_shmem_allocator.Heap.Seg.{Chunk, free, live}
use disagg_shmem_allocator.Heap.LastFree.{join_prev, absorbed, behind, insert_free}
use disagg_shmem_allocator.Heap.Places.{
  LiveIn, extent, LiveIn-le, LiveIn-end, LiveIn-append, LiveIn-left, LiveIn-right,
}

-- Joining a free block changes no live chunk.
join_prev-LiveIn :
    (o : ℕ) (pre : List Chunk) (m : ℕ) (rest : List Chunk) (d a k : ℕ)
    → d ≡ o + extent pre + m
    → LiveIn o (join_prev pre m rest) a k
    → LiveIn o pre a k ⊎ LiveIn d rest a k
unfolding join_prev extent
join_prev-LiveIn o [] m rest d a k e l = inr (subst (λ t. LiveIn t rest a k) (omega arith) l)
join_prev-LiveIn o (free j ∷ []) m rest d a k e l =
    inr (subst (λ t. LiveIn t rest a k) (omega arith) l)
join_prev-LiveIn o (live j ∷ []) m rest d a k e (inl p) = inl (inl p)
join_prev-LiveIn o (live j ∷ []) m rest d a k e (inr l) =
    inr (subst (λ t. LiveIn t rest a k) (omega arith) l)
join_prev-LiveIn o (free j ∷ c ∷ cs) m rest d a k e l =
    join_prev-LiveIn (o + j) (c ∷ cs) m rest d a k (omega arith) l
join_prev-LiveIn o (live j ∷ c ∷ cs) m rest d a k e (inl p) = inl (inl p)
join_prev-LiveIn o (live j ∷ c ∷ cs) m rest d a k e (inr l) =
    elim (join_prev-LiveIn (o + j) (c ∷ cs) m rest d a k (omega arith) l) [
      | inl h ↦ inl (inr h)
      | inr h ↦ inr h
    ]

LiveIn-join_prev :
    (o : ℕ) (pre : List Chunk) (m : ℕ) (rest : List Chunk) (d a k : ℕ)
    → d ≡ o + extent pre + m
    → LiveIn o pre a k ⊎ LiveIn d rest a k
    → LiveIn o (join_prev pre m rest) a k
unfolding join_prev extent
LiveIn-join_prev o [] m rest d a k e (inl l) = absurd l
LiveIn-join_prev o [] m rest d a k e (inr l) = subst (λ t. LiveIn t rest a k) (omega arith) l
LiveIn-join_prev o (free j ∷ []) m rest d a k e (inl l) = absurd l
LiveIn-join_prev o (free j ∷ []) m rest d a k e (inr l) =
    subst (λ t. LiveIn t rest a k) (omega arith) l
LiveIn-join_prev o (live j ∷ []) m rest d a k e (inl (inl p)) = inl p
LiveIn-join_prev o (live j ∷ []) m rest d a k e (inl (inr l)) = absurd l
LiveIn-join_prev o (live j ∷ []) m rest d a k e (inr l) =
    inr (subst (λ t. LiveIn t rest a k) (omega arith) l)
LiveIn-join_prev o (free j ∷ c ∷ cs) m rest d a k e l =
    LiveIn-join_prev (o + j) (c ∷ cs) m rest d a k (omega arith) l
LiveIn-join_prev o (live j ∷ c ∷ cs) m rest d a k e (inl (inl p)) = inl p
LiveIn-join_prev o (live j ∷ c ∷ cs) m rest d a k e (inl (inr l)) =
    inr (LiveIn-join_prev (o + j) (c ∷ cs) m rest d a k (omega arith) (inl l))
LiveIn-join_prev o (live j ∷ c ∷ cs) m rest d a k e (inr l) =
    inr (LiveIn-join_prev (o + j) (c ∷ cs) m rest d a k (omega arith) (inr l))

behind-LiveIn :
    (b m : ℕ) (post : List Chunk) (a k : ℕ)
    → LiveIn (b + absorbed m post) (behind post) a k
    → LiveIn (b + m) post a k
unfolding absorbed behind
behind-LiveIn b m [] a k l = l
behind-LiveIn b m (free j ∷ post) a k l = subst (λ t. LiveIn t post a k) (omega arith) l
behind-LiveIn b m (live j ∷ post) a k l = l

LiveIn-behind :
    (b m : ℕ) (post : List Chunk) (a k : ℕ)
    → LiveIn (b + m) post a k
    → LiveIn (b + absorbed m post) (behind post) a k
unfolding absorbed behind
LiveIn-behind b m [] a k l = l
LiveIn-behind b m (free j ∷ post) a k l = subst (λ t. LiveIn t post a k) (omega arith) l
LiveIn-behind b m (live j ∷ post) a k l = l

module _ (pre : List Chunk) (m : ℕ) (post : List Chunk) (b : ℕ) (at : b ≡ 0 + extent pre) where
  -- After a free the live chunks are those before, less the one freed.
  pub LiveIn-freed :
      (a k : ℕ)
      → 64 ≤ m
      → 0 < k
      → (LiveIn 0 (pre ++ live m ∷ post) a k × (a ≢ b)) ↔ LiveIn 0 (insert_free pre m post) a k
  unfolding insert_free
  LiveIn-freed a k big pos = (
    λ (l, ne). elim (LiveIn-append 0 pre (live m ∷ post) b a k at l) [
      | inl h ↦ LiveIn-join_prev 0 pre _ _ (b + absorbed m post) a k (omega (arith, at)) (inl h)
      | inr h ↦ elim h [
        | inl p ↦ absurd (ne (sym p.0))
        | inr h' ↦
            LiveIn-join_prev 0 pre _ _ (b + absorbed m post) a k (omega (arith, at))
              (inr (LiveIn-behind b m post a k h'))
      ]
    ],
    λ l. elim (join_prev-LiveIn 0 pre _ _ (b + absorbed m post) a k (omega (arith, at)) l) [
      | inl h ↦ (
        LiveIn-left 0 pre (live m ∷ post) a k h,
        λ e. omega (arith, LiveIn-end 0 pre a k h, e, at, pos),
      )
      | inr h ↦
          let h' = behind-LiveIn b m post a k h in
          (
            LiveIn-right 0 pre (live m ∷ post) b a k at (inr h'),
            λ e. omega (arith, LiveIn-le (b + m) post a k h', e, big),
          )
    ],
  )
