-- ===== src/Persist/Lines.antt =====
-- Which cache lines `shm_persist` of src/shm_persist.h flushes.
use disagg_shmem_allocator.Base.{
  ℕ, zero, suc, ◌+◌, ◌-◌, ◌*◌, ◌/◌, ◌%◌, ◌^◌, ◌≤◌, ◌<◌, ◌≡◌, refl, ap, subst, ◌⊎◌, inl, inr, ◌↔◌,
  List, [], ◌∷◌, ◌++◌, arith, false, returns, ltb, lt→ltb, ltb→lt, ge→ltb, bit_and, Bool-cases,
  ◌==◌, ==→eq, ==_false→ne,
}
use disagg_shmem_allocator.Word.{add64, not64}
use disagg_shmem_allocator.Word.Bits.{bit_and_mask_shifted, bit_and_low}
use disagg_shmem_allocator.Persist.{
  CacheMode, Insn, shm_flush_line, flush_walk, flush_fuel, shm_persist, cache_line_bytes,
}

-- The instructions that flush the given lines, in that order.
unfoldable pub flushes : CacheMode → List ℕ → List Insn
flushes mode [] = []
flushes mode (l ∷ ls) = shm_flush_line mode l ++ flushes mode ls

abbrev pub Among : ℕ → List ℕ → Type 0
Among l [] = ⊥
Among l (x ∷ xs) = (l ≡ x) ⊎ Among l xs

-- Each line is above the one before it, from `low` on.
abbrev pub Ascends : ℕ → List ℕ → Type 0
Ascends low [] = Unit {0}
Ascends low (x ∷ xs) = (low ≤ x) × Ascends (x + 1) xs

-- The cache line at `l` overlaps the bytes from `addr` on, `len` of them.
pub record Overlaps (l addr len : ℕ) : Type 0 where
  pub aligned : l % 64 ≡ 0
  pub byte : ℕ
  pub in_line : (l ≤ byte) × (byte < l + 64)
  pub in_range : (addr ≤ byte) × (byte < addr + len)

-- The lines from number `k` on, `n` of them.
abbrev pub lines_from : ℕ → ℕ → List ℕ
lines_from k zero = []
lines_from k (suc n) = k * 64 ∷ lines_from (suc k) n

lines_from-Ascends : (n k low : ℕ) → low ≤ k * 64 → Ascends low (lines_from k n)
lines_from-Ascends zero k low h = tt
lines_from-Ascends (suc n) k low h = (h, lines_from-Ascends n (suc k) (k * 64 + 1) (omega arith))

Among-bounds :
    (n k l : ℕ) → Among l (lines_from k n) → (l % 64 ≡ 0) × (k * 64 ≤ l) × (l < (k + n) * 64)
Among-bounds zero k l m = absurd m
Among-bounds (suc n) k l (inl e) = omega arith
Among-bounds (suc n) k l (inr m) = let b = Among-bounds n (suc k) l m in omega arith

Among-intro : (n k q : ℕ) → k ≤ q → q < k + n → Among (q * 64) (lines_from k n)
Among-intro zero k q le lt = absurd (omega arith)
Among-intro (suc n) k q le lt = elim (same k q) [
  | inl e ↦ inl (ap (λ t. t * 64) e)
  | inr ne ↦ inr (Among-intro n (suc k) q (omega (arith, ne)) (omega arith))
]
  where
    same : (a b : ℕ) → (b ≡ a) ⊎ ¬ (b ≡ a)
    same a b = elim (Bool-cases (b == a)) [
      | inl e ↦ inl (==→eq b a e)
      | inr e ↦ inr (==_false→ne b a e)
    ]

flush_walk-lines :
    (mode : CacheMode) (n fuel k end : ℕ)
    → n < fuel
    → end ≤ (k + n) * 64
    → (n ≡ 0) ⊎ ((k + n) * 64 < end + 64)
    → (k + n) * 64 < 2 ^ 64
    → flush_walk mode fuel (k * 64) end ≡ returns (flushes mode (lines_from k n))
unfolding flush_walk flushes
flush_walk-lines mode n zero k end lt a b c = absurd (omega arith)
flush_walk-lines mode zero (suc fuel) k end lt a b c = rw (ge→ltb (k * 64) end (omega arith)) refl
flush_walk-lines mode (suc n) (suc fuel) k end lt a b c =
    rw
      (
        lt→ltb (k * 64) end (ground arith),
        next,
        flush_walk-lines mode n fuel (suc k) end (omega arith) (omega arith) (ground arith)
            (omega arith),
      )
      refl
  where
    next : add64 (k * 64) 64 ≡ suc k * 64
    next = omega arith

aligned_down : (a : ℕ) → a < 2 ^ 64 → bit_and a (not64 (cache_line_bytes - 1)) ≡ a / 64 * 64
aligned_down a small =
    omega (arith, bit_and_mask_shifted 6 a (2 ^ 58 - 1), bit_and_low 58 (a / 2 ^ 6))

-- What `shm_persist` emits: a flush of each line that overlaps the range, and of no other line, each
-- once and in ascending order.
pub record Persists (mode : CacheMode) (addr len : ℕ) : Type 0 where
  pub lines : List ℕ
  pub run : shm_persist mode addr len ≡ returns (flushes mode lines)
  pub ascends : Ascends 0 lines
  pub covers : (l : ℕ) → Among l lines ↔ Overlaps l addr len

ltb_false→ge : (a b : ℕ) → ltb a b ≡ false → b ≤ a
ltb_false→ge a b h = ground arith

module _ (mode : CacheMode) (addr len : ℕ) (some_bytes : 0 < len)
    (fits : addr + len + 64 < 2 ^ 64) where
  abbrev first : ℕ
  first = addr / 64

  abbrev count : ℕ
  count = (addr + len + 63) / 64 - first

  to_byte : (l : ℕ) → Among l (lines_from first count) → Overlaps l addr len
  to_byte l m = elim (Bool-cases (ltb l addr)) [
    | inl before ↦
        let lt = ltb→lt l addr before in
        record { aligned = b.0; byte = addr; in_line = omega (arith, b); in_range = omega arith }
    | inr after ↦
        let le = ltb_false→ge l addr after in
        record { aligned = b.0; byte = l; in_line = omega arith; in_range = omega (arith, b) }
  ]
    where
      b : (l % 64 ≡ 0) × (first * 64 ≤ l) × (l < (first + count) * 64)
      b = Among-bounds count first l m

  of_byte : (l : ℕ) → Overlaps l addr len → Among l (lines_from first count)
  of_byte l o =
      subst (λ t. Among t (lines_from first count)) (omega (arith, o.aligned))
        (Among-intro count first (l / 64) (omega (arith, o.aligned, o.in_line, o.in_range))
          (omega (arith, o.aligned, o.in_line, o.in_range)))

  -- For a range of at least one byte that does not reach the last line of the address space,
  -- `shm_persist` ends and emits, in any cache mode, a flush of each cache line that overlaps the
  -- range and of no other line, each once and in ascending order.
  pub shm_persist-Persists : Persists mode addr len
  unfolding shm_persist
  shm_persist-Persists = record {
    lines = lines_from first count;
    run =
        rw
          (
            aligned_down addr (omega arith),
            flush_walk-lines mode count (flush_fuel len) first (add64 addr len) (omega arith)
                (omega arith) (inr (omega arith)) (omega arith),
          )
          refl;
    ascends = lines_from-Ascends count first 0 (omega arith);
    covers = λ l. (to_byte l, of_byte l);
  }
