-- ===== src/Heap/Places/Middle.antt =====
-- The live chunks around one live chunk, and around what is left of it after its end has been freed.
use disagg_shmem_allocator.Base.{
  ℕ, ◌+◌, ◌≤◌, ◌<◌, ◌≡◌, ◌≢◌, refl, sym, subst, ◌⊎◌, inl, inr, List, [], ◌∷◌, ◌++◌, arith,
}
use disagg_shmem_allocator.Heap.Seg.{Chunk, live}
use disagg_shmem_allocator.Heap.LastFree.{insert_free}
use disagg_shmem_allocator.Heap.Places.{
  LiveIn, extent, LiveIn-le, LiveIn-end, LiveIn-append, LiveIn-left, LiveIn-right,
}
use disagg_shmem_allocator.Heap.Places.Freed.{LiveIn-freed}

-- A live chunk before the chunk that begins at `ho`, or behind it.
abbrev pub Elsewhere : (pre : List Chunk) (from : ℕ) (post : List Chunk) (a k : ℕ) → Type 0
Elsewhere pre from post a k = LiveIn 0 pre a k ⊎ LiveIn from post a k

pub Elsewhere-apart :
    (pre : List Chunk) (from : ℕ) (post : List Chunk) (ho a k : ℕ)
    → ho ≡ 0 + extent pre
    → Elsewhere pre from post a k
    → (a + k ≤ ho) ⊎ (from ≤ a)
Elsewhere-apart pre from post ho a k at (inl l) = inl (omega (arith, LiveIn-end 0 pre a k l, at))
Elsewhere-apart pre from post ho a k at (inr l) = inr (LiveIn-le from post a k l)

module _ (pre : List Chunk) (m : ℕ) (post : List Chunk) (ho : ℕ) (at : ho ≡ 0 + extent pre) where
  pub LiveIn-cases :
      (a k : ℕ)
      → LiveIn 0 (pre ++ live m ∷ post) a k
      → ((ho ≡ a) × (m ≡ k)) ⊎ Elsewhere pre (ho + m) post a k
  LiveIn-cases a k l = elim (LiveIn-append 0 pre (live m ∷ post) ho a k at l) [
    | inl h ↦ inr (inl h)
    | inr h ↦ elim h [ inl p ↦ inl p | inr q ↦ inr (inr q) ]
  ]

  pub LiveIn-around :
      (a k : ℕ) → Elsewhere pre (ho + m) post a k → LiveIn 0 (pre ++ live m ∷ post) a k
  LiveIn-around a k (inl l) = LiveIn-left 0 pre (live m ∷ post) a k l
  LiveIn-around a k (inr l) = LiveIn-right 0 pre (live m ∷ post) ho a k at (inr l)

  pub LiveIn-this : LiveIn 0 (pre ++ live m ∷ post) ho m
  LiveIn-this = LiveIn-right 0 pre (live m ∷ post) ho ho m at (inl (refl, refl))

module _ (pre : List Chunk) (total rem : ℕ) (post : List Chunk) (ho : ℕ) (at : ho ≡ 0 + extent pre)
    (at_tail : ho + total ≡ 0 + extent (pre ++ live total ∷ [])) (some_left : 64 ≤ total)
    (some_cut : 64 ≤ rem) where
  abbrev pub cut_list : List Chunk
  cut_list = insert_free (pre ++ live total ∷ []) rem post

  to_cut :
      (a k : ℕ)
      → 0 < k
      → LiveIn 0 ((pre ++ live total ∷ []) ++ live rem ∷ post) a k
      → a ≢ ho + total
      → LiveIn 0 cut_list a k
  to_cut a k pos l ne =
      (LiveIn-freed (pre ++ live total ∷ []) rem post (ho + total) at_tail a k some_cut pos).0
        (l, ne)

  pub cut-this : LiveIn 0 cut_list ho total
  cut-this =
      to_cut ho total (omega arith)
        (LiveIn-left 0 (pre ++ live total ∷ []) (live rem ∷ post) ho total
          (LiveIn-this pre total [] ho at))
        (λ e. absurd (omega arith))

  pub cut-around :
      (a k : ℕ) → 0 < k → Elsewhere pre (ho + (total + rem)) post a k → LiveIn 0 cut_list a k
  cut-around a k pos (inl l) =
      to_cut a k pos
        (LiveIn-left 0 (pre ++ live total ∷ []) (live rem ∷ post) a k
          (LiveIn-left 0 pre (live total ∷ []) a k l))
        (λ e. absurd (omega (arith, LiveIn-end 0 pre a k l, at, e)))
  cut-around a k pos (inr l) =
      to_cut a k pos
        (LiveIn-right 0 (pre ++ live total ∷ []) (live rem ∷ post) (ho + total) a k at_tail
          (inr (subst (λ t. LiveIn t post a k) (omega arith) l)))
        (λ e. absurd (omega (arith, LiveIn-le (ho + (total + rem)) post a k l, e)))

  pub cut-cases :
      (a k : ℕ)
      → 0 < k
      → LiveIn 0 cut_list a k
      → ((ho ≡ a) × (total ≡ k)) ⊎ Elsewhere pre (ho + (total + rem)) post a k
  cut-cases a k pos l =
      let (was, ne) =
        (LiveIn-freed (pre ++ live total ∷ []) rem post (ho + total) at_tail a k some_cut pos).1
          l in
      elim (LiveIn-append 0 (pre ++ live total ∷ []) (live rem ∷ post) (ho + total) a k at_tail
        was) [
          | inl h ↦ elim (LiveIn-cases pre total [] ho at a k h) [
            | inl p ↦ inl p
            | inr q ↦ elim q [ inl q' ↦ inr (inl q') | inr q' ↦ absurd q' ]
          ]
          | inr h ↦ elim h [
            | inl p ↦ absurd (ne (sym p.0))
            | inr q ↦ inr (inr (subst (λ t. LiveIn t post a k) (omega arith) q))
          ]
        ]
