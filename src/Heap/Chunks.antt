-- ===== src/Heap/Chunks.antt =====
-- Lists of chunks by themselves: what is in use, no two free chunks side by side, and first fit as a
-- function on the list.
use mathlib.Core.Option
use disagg_shmem_allocator.Base.{
  ℕ, suc, ◌+◌, ◌-◌, ◌≡◌, refl, ap, ◌∙◌, List, [], ◌∷◌, ◌++◌, arith, Bool-cases, inl, inr, leb,
  gt→leb, if◌then◌else◌, Option, none, some,
}
use disagg_shmem_allocator.Heap.Seg.{Chunk, free, live}
use disagg_shmem_allocator.Heap.LastFree.{join_prev, absorbed, behind, insert_free}
use disagg_shmem_allocator.Heap.Fit.{TooSmall}
use disagg_shmem_allocator.Heap.Carve.{cut, taken}

unfoldable pub live_bytes : List Chunk → ℕ
live_bytes [] = 0
live_bytes (free n ∷ cs) = live_bytes cs
live_bytes (live n ∷ cs) = n + live_bytes cs

unfoldable pub live_count : List Chunk → ℕ
live_count [] = 0
live_count (free n ∷ cs) = live_count cs
live_count (live n ∷ cs) = suc (live_count cs)

abbrev pub HeadLive : List Chunk → Type 0
HeadLive [] = Unit {0}
HeadLive (free n ∷ cs) = ⊥
HeadLive (live n ∷ cs) = Unit {0}

-- No two free chunks stand side by side.
abbrev pub Coalesced : List Chunk → Type 0
Coalesced [] = Unit {0}
Coalesced (free n ∷ cs) = HeadLive cs × Coalesced cs
Coalesced (live n ∷ cs) = Coalesced cs

-- First fit on the list: the offset of the chunk taken and the new list.
unfoldable pub first_fit : (need o : ℕ) → List Chunk → Option (ℕ × List Chunk)
first_fit need o [] = none
first_fit need o (free n ∷ cs) =
    if leb need n
    then some (o, cut need n ++ cs)
    else Option.map (λ (a, ds). (a, free n ∷ ds)) (first_fit need (o + n) cs)
first_fit need o (live n ∷ cs) =
    Option.map (λ (a, ds). (a, live n ∷ ds)) (first_fit need (o + n) cs)

pub live_bytes-append : (xs ys : List Chunk) → live_bytes (xs ++ ys) ≡ live_bytes xs + live_bytes ys
unfolding live_bytes
live_bytes-append [] ys = omega arith
live_bytes-append (free n ∷ xs) ys = live_bytes-append xs ys
live_bytes-append (live n ∷ xs) ys = omega (arith, live_bytes-append xs ys)

pub live_count-append : (xs ys : List Chunk) → live_count (xs ++ ys) ≡ live_count xs + live_count ys
unfolding live_count
live_count-append [] ys = omega arith
live_count-append (free n ∷ xs) ys = live_count-append xs ys
live_count-append (live n ∷ xs) ys = omega (arith, live_count-append xs ys)

live_bytes-join_prev :
    (pre : List Chunk) (m : ℕ) (rest : List Chunk)
    → live_bytes (join_prev pre m rest) ≡ live_bytes pre + live_bytes rest
unfolding live_bytes join_prev
live_bytes-join_prev [] m rest = omega arith
live_bytes-join_prev (free k ∷ []) m rest = omega arith
live_bytes-join_prev (live k ∷ []) m rest = omega arith
live_bytes-join_prev (free k ∷ d ∷ cs) m rest = live_bytes-join_prev (d ∷ cs) m rest
live_bytes-join_prev (live k ∷ d ∷ cs) m rest = omega (arith, live_bytes-join_prev (d ∷ cs) m rest)

live_count-join_prev :
    (pre : List Chunk) (m : ℕ) (rest : List Chunk)
    → live_count (join_prev pre m rest) ≡ live_count pre + live_count rest
unfolding live_count join_prev
live_count-join_prev [] m rest = omega arith
live_count-join_prev (free k ∷ []) m rest = omega arith
live_count-join_prev (live k ∷ []) m rest = omega arith
live_count-join_prev (free k ∷ d ∷ cs) m rest = live_count-join_prev (d ∷ cs) m rest
live_count-join_prev (live k ∷ d ∷ cs) m rest = omega (arith, live_count-join_prev (d ∷ cs) m rest)

live_bytes-behind : (post : List Chunk) → live_bytes (behind post) ≡ live_bytes post
unfolding live_bytes behind
live_bytes-behind [] = refl
live_bytes-behind (free n ∷ post) = refl
live_bytes-behind (live n ∷ post) = refl

live_count-behind : (post : List Chunk) → live_count (behind post) ≡ live_count post
unfolding live_count behind
live_count-behind [] = refl
live_count-behind (free n ∷ post) = refl
live_count-behind (live n ∷ post) = refl

pub live_bytes-insert_free :
    (pre : List Chunk) (m : ℕ) (post : List Chunk)
    → live_bytes (insert_free pre m post) ≡ live_bytes pre + live_bytes post
unfolding insert_free
live_bytes-insert_free pre m post =
    live_bytes-join_prev pre (absorbed m post) (behind post)
    ∙ ap (λ t. live_bytes pre + t) (live_bytes-behind post)

pub live_count-insert_free :
    (pre : List Chunk) (m : ℕ) (post : List Chunk)
    → live_count (insert_free pre m post) ≡ live_count pre + live_count post
unfolding insert_free
live_count-insert_free pre m post =
    live_count-join_prev pre (absorbed m post) (behind post)
    ∙ ap (λ t. live_count pre + t) (live_count-behind post)

Coalesced-join_prev :
    (pre : List Chunk) (m : ℕ) (rest : List Chunk)
    → Coalesced pre
    → HeadLive rest
    → Coalesced rest
    → Coalesced (join_prev pre m rest)
unfolding join_prev
Coalesced-join_prev [] m rest c h t = (h, t)
Coalesced-join_prev (free k ∷ []) m rest c h t = (h, t)
Coalesced-join_prev (live k ∷ []) m rest c h t = (h, t)
Coalesced-join_prev (free k ∷ free j ∷ cs) m rest c h t = absurd c.0
Coalesced-join_prev (free k ∷ live j ∷ []) m rest c h t = (tt, (h, t))
Coalesced-join_prev (free k ∷ live j ∷ d ∷ cs) m rest c h t =
    (tt, Coalesced-join_prev (live j ∷ d ∷ cs) m rest c.1 h t)
Coalesced-join_prev (live k ∷ d ∷ cs) m rest c h t = Coalesced-join_prev (d ∷ cs) m rest c h t

pub Coalesced-left : (xs ys : List Chunk) → Coalesced (xs ++ ys) → Coalesced xs
Coalesced-left [] ys c = tt
Coalesced-left (free n ∷ []) ys c = (tt, tt)
Coalesced-left (free n ∷ free k ∷ xs) ys c = absurd c.0
Coalesced-left (free n ∷ live k ∷ xs) ys c = (tt, Coalesced-left (live k ∷ xs) ys c.1)
Coalesced-left (live n ∷ xs) ys c = Coalesced-left xs ys c

pub Coalesced-right : (xs ys : List Chunk) → Coalesced (xs ++ ys) → Coalesced ys
Coalesced-right [] ys c = c
Coalesced-right (free n ∷ xs) ys c = Coalesced-right xs ys c.1
Coalesced-right (live n ∷ xs) ys c = Coalesced-right xs ys c

Coalesced-behind : (post : List Chunk) → Coalesced post → Coalesced (behind post)
unfolding behind
Coalesced-behind [] c = tt
Coalesced-behind (free n ∷ post) c = c.1
Coalesced-behind (live n ∷ post) c = c

HeadLive-behind : (post : List Chunk) → Coalesced post → HeadLive (behind post)
unfolding behind
HeadLive-behind [] c = tt
HeadLive-behind (free n ∷ post) c = c.0
HeadLive-behind (live n ∷ post) c = tt

pub Coalesced-insert_free :
    (pre : List Chunk) (m n : ℕ) (post : List Chunk)
    → Coalesced (pre ++ live n ∷ post)
    → Coalesced (insert_free pre m post)
unfolding insert_free
Coalesced-insert_free pre m n post c =
    let right : Coalesced post = Coalesced-right pre (live n ∷ post) c in
    Coalesced-join_prev pre (absorbed m post) (behind post) (Coalesced-left pre (live n ∷ post) c)
      (HeadLive-behind post right) (Coalesced-behind post right)

-- A live chunk may stand anywhere.
pub Coalesced-live :
    (xs : List Chunk) (n : ℕ) (ys : List Chunk)
    → Coalesced xs
    → Coalesced ys
    → Coalesced (xs ++ live n ∷ ys)
Coalesced-live [] n ys c d = d
Coalesced-live (free k ∷ []) n ys c d = (tt, d)
Coalesced-live (free k ∷ free j ∷ xs) n ys c d = absurd c.0
Coalesced-live (free k ∷ live j ∷ xs) n ys c d = (tt, Coalesced-live (live j ∷ xs) n ys c.1 d)
Coalesced-live (live k ∷ xs) n ys c d = Coalesced-live xs n ys c d

pub Coalesced-cut :
    (pre : List Chunk) (need n : ℕ) (post : List Chunk)
    → Coalesced (pre ++ free n ∷ post)
    → Coalesced (pre ++ (cut need n ++ post))
unfolding cut
Coalesced-cut pre need n post c =
    let left = Coalesced-left pre (free n ∷ post) c in
    let right = Coalesced-right pre (free n ∷ post) c in
    elim (Bool-cases (leb 64 (n - need))) [
      | inl large ↦ rw large (Coalesced-live pre need (free (n - need) ∷ post) left right)
      | inr tight ↦ rw tight (Coalesced-live pre n post left right.1)
    ]

pub live_bytes-cut :
    (need n : ℕ) (post : List Chunk)
    → live_bytes (cut need n ++ post) ≡ taken need n + live_bytes post
unfolding cut taken live_bytes
live_bytes-cut need n post = elim (Bool-cases (leb 64 (n - need))) [
  | inl large ↦ rw large refl
  | inr tight ↦ rw tight refl
]

pub live_count-cut :
    (need n : ℕ) (post : List Chunk) → live_count (cut need n ++ post) ≡ suc (live_count post)
unfolding cut live_count
live_count-cut need n post = elim (Bool-cases (leb 64 (n - need))) [
  | inl large ↦ rw large refl
  | inr tight ↦ rw tight refl
]

pub first_fit-none : (need o : ℕ) (cs : List Chunk) → TooSmall need cs → first_fit need o cs ≡ none
unfolding first_fit
first_fit-none need o [] t = refl
first_fit-none need o (free n ∷ cs) t =
    rw (gt→leb need n t.0, first_fit-none need (o + n) cs t.1) refl
first_fit-none need o (live n ∷ cs) t = rw (first_fit-none need (o + n) cs t) refl

-- The counts around one chunk.
module _ (pre : List Chunk) (n : ℕ) (post : List Chunk) where
  pub live_bytes-free : live_bytes (pre ++ free n ∷ post) ≡ live_bytes pre + live_bytes post
  unfolding live_bytes
  live_bytes-free = live_bytes-append pre (free n ∷ post)

  pub live_bytes-live : live_bytes (pre ++ live n ∷ post) ≡ live_bytes pre + (n + live_bytes post)
  unfolding live_bytes
  live_bytes-live = live_bytes-append pre (live n ∷ post)

  pub live_count-free : live_count (pre ++ free n ∷ post) ≡ live_count pre + live_count post
  unfolding live_count
  live_count-free = live_count-append pre (free n ∷ post)

  pub live_count-live : live_count (pre ++ live n ∷ post) ≡ live_count pre + suc (live_count post)
  unfolding live_count
  live_count-live = live_count-append pre (live n ∷ post)
