-- ===== src/Word/Bits.antt =====
-- Laws of the bitwise operations at variables, from the recursion on binary digits that the native
-- operations stand for.
use Prim.Native.Nat.{digits, bitwise, bit_and-bitwise, bit_or-bitwise, max}
use native.Mathlib.Nat.{pow-suc, one-le-pow}
use disagg_shmem_allocator.Base.{
  ℕ, zero, suc, ◌+◌, ◌-◌, ◌*◌, ◌/◌, ◌%◌, ◌^◌, ◌≤◌, ◌<◌, ◌≡◌, refl, ap, arith, bit_and, bit_or, min,
}

-- Induction along halves.
pub halving : (P : ℕ → Type 0) → P 0 → ((a : ℕ) → P (suc a / 2) → P (suc a)) → (a : ℕ) → P a
halving P base step a = below a a (omega arith)
  where
    below : (bound x : ℕ) → x ≤ bound → P x
    below bound zero le = base
    below zero (suc x) le = absurd (omega arith)
    below (suc bound) (suc x) le = step x (below bound (suc x / 2) (omega arith))

-- An operation on digits, of which `leaf` is what is left when the first number has run out.
module _ (leaf : ℕ → ℕ) (op : ℕ → ℕ → ℕ)
    (law : (b : ℕ) → leaf b ≡ leaf (b / 2) * 2 + op 0 (b % 2)) where
  same_count :
      (count a b : ℕ)
      → a ≤ count
      → (other : ℕ) → a ≤ other
      → digits leaf op count a b ≡ digits leaf op other a b
  same_count zero zero b le zero le' = refl
  same_count zero zero b le (suc other) le' = refl
  same_count zero (suc a) b le other le' = absurd (omega arith)
  same_count (suc count) zero b le zero le' = refl
  same_count (suc count) zero b le (suc other) le' = refl
  same_count (suc count) (suc a) b le zero le' = absurd (omega arith)
  same_count (suc count) (suc a) b le (suc other) le' =
      ap (λ t. t * 2 + op (suc a % 2) (b % 2))
        (same_count count (suc a / 2) (b / 2) (omega arith) other (omega arith))

  pub lowest_digit :
      (a b : ℕ) → bitwise leaf op a b ≡ bitwise leaf op (a / 2) (b / 2) * 2 + op (a % 2) (b % 2)
  lowest_digit zero b = law b
  lowest_digit (suc a) b =
      ap (λ t. t * 2 + op (suc a % 2) (b % 2))
        (same_count a (suc a / 2) (b / 2) (omega arith) (suc a / 2) (omega arith))

pub zero-bit_and : (b : ℕ) → bit_and 0 b ≡ 0
zero-bit_and b = bit_and-bitwise 0 b

pub zero-bit_or : (b : ℕ) → bit_or 0 b ≡ b
zero-bit_or b = bit_or-bitwise 0 b

pub bit_and_step : (a b : ℕ) → bit_and a b ≡ bit_and (a / 2) (b / 2) * 2 + min (a % 2) (b % 2)
bit_and_step a b = omega (
  arith,
  bit_and-bitwise a b,
  bit_and-bitwise (a / 2) (b / 2),
  lowest_digit (λ x. zero) min (λ x. omega arith) a b,
)

pub bit_or_step : (a b : ℕ) → bit_or a b ≡ bit_or (a / 2) (b / 2) * 2 + max (a % 2) (b % 2)
bit_or_step a b = omega (
  arith,
  bit_or-bitwise a b,
  bit_or-bitwise (a / 2) (b / 2),
  lowest_digit (λ x. x) max (λ x. omega arith) a b,
)

pub bit_or-zero : (a : ℕ) → bit_or a 0 ≡ a
bit_or-zero =
    halving (λ a. bit_or a 0 ≡ a) refl λ a half. omega (arith, bit_or_step (suc a) 0, half)

pub bit_and-zero : (a : ℕ) → bit_and a 0 ≡ 0
bit_and-zero =
    halving (λ a. bit_and a 0 ≡ 0) refl λ a half. omega (arith, bit_and_step (suc a) 0, half)

pub bit_and_comm : (a b : ℕ) → bit_and a b ≡ bit_and b a
bit_and_comm =
    halving (λ a. (b : ℕ) → bit_and a b ≡ bit_and b a)
      (λ b. omega (arith, zero-bit_and b, bit_and-zero b))
      λ a half b. omega (arith, bit_and_step (suc a) b, bit_and_step b (suc a), half (b / 2))

pub bit_or_comm : (a b : ℕ) → bit_or a b ≡ bit_or b a
bit_or_comm =
    halving (λ a. (b : ℕ) → bit_or a b ≡ bit_or b a)
      (λ b. omega (arith, zero-bit_or b, bit_or-zero b))
      λ a half b. omega (arith, bit_or_step (suc a) b, bit_or_step b (suc a), half (b / 2))

pub bit_and-div : (a b : ℕ) → bit_and a b / 2 ≡ bit_and (a / 2) (b / 2)
bit_and-div a b = omega (arith, bit_and_step a b)

pub bit_and-mod : (a b : ℕ) → bit_and a b % 2 ≡ min (a % 2) (b % 2)
bit_and-mod a b = omega (arith, bit_and_step a b)

pub bit_and_assoc : (a b c : ℕ) → bit_and (bit_and a b) c ≡ bit_and a (bit_and b c)
bit_and_assoc =
    halving (λ a. (b c : ℕ) → bit_and (bit_and a b) c ≡ bit_and a (bit_and b c))
      (λ b c.
        omega (
          arith,
          ap (λ t. bit_and t c) (zero-bit_and b),
          zero-bit_and c,
          zero-bit_and (bit_and b c),
        ))
      λ a half b c. omega (
        arith,
        bit_and_step (bit_and (suc a) b) c,
        bit_and_step (suc a) (bit_and b c),
        ap (λ t. bit_and t (c / 2)) (bit_and-div (suc a) b),
        ap (λ t. bit_and (suc a / 2) t) (bit_and-div b c),
        bit_and-mod (suc a) b,
        bit_and-mod b c,
        half (b / 2) (c / 2),
      )

pub bit_and_self : (a : ℕ) → bit_and a a ≡ a
bit_and_self =
    halving (λ a. bit_and a a ≡ a) refl λ a half. omega (arith, bit_and_step (suc a) (suc a), half)

twice_scaled : (k q : ℕ) → q * 2 ^ k * 2 ≡ q * 2 ^ suc k
twice_scaled k q = omega (arith, ap (λ p. q * p) (pow-suc 2 k))

-- `q << k | r` is a sum where `r` fits in `k` bits.
pub bit_or_shifted : (k q r : ℕ) → r < 2 ^ k → bit_or (q * 2 ^ k) r ≡ q * 2 ^ k + r
bit_or_shifted zero q r h = ground (arith, bit_or-zero q)
bit_or_shifted (suc k) q r h = ground (
  arith,
  pow-suc 2 k,
  twice_scaled k q,
  bit_or_step (q * 2 ^ suc k) r,
  bit_or_shifted k q (r / 2) (omega (arith, pow-suc 2 k)),
)

bit_and_high : (k q r m : ℕ) → r < 2 ^ k → bit_and (q * 2 ^ k + r) (m * 2 ^ k) ≡ bit_and q m * 2 ^ k
bit_and_high zero q r m h = ground (arith, ap (λ t. bit_and t m) (at_zero q r h))
  where
    at_zero : (q r : ℕ) → r < 2 ^ 0 → q * 2 ^ 0 + r ≡ q
    at_zero q r h = omega arith
bit_and_high (suc k) q r m h = ground (
  arith,
  pow-suc 2 k,
  twice_scaled k q,
  twice_scaled k m,
  twice_scaled k (bit_and q m),
  bit_and_step (q * 2 ^ suc k + r) (m * 2 ^ suc k),
  bit_and_high k q (r / 2) m (omega (arith, pow-suc 2 k)),
)

-- A mask `m << k` reads the bits from `k` on.
pub bit_and_mask_shifted : (k x m : ℕ) → bit_and x (m * 2 ^ k) ≡ bit_and (x / 2 ^ k) m * 2 ^ k
bit_and_mask_shifted k x m =
    ground (arith, one-le-pow k 2, bit_and_high k (x / 2 ^ k) (x % 2 ^ k) m)

bit_and_ones : (k q r : ℕ) → r < 2 ^ k → bit_and (q * 2 ^ k + r) (2 ^ k - 1) ≡ r
bit_and_ones zero q r h = omega (arith, bit_and-zero (q * 2 ^ 0 + r))
bit_and_ones (suc k) q r h = ground (
  arith,
  pow-suc 2 k,
  one-le-pow k 2,
  twice_scaled k q,
  bit_and_step (q * 2 ^ suc k + r) (2 ^ suc k - 1),
  bit_and_ones k q (r / 2) (omega (arith, pow-suc 2 k)),
)

-- A mask of `k` ones is the remainder by `2 ^ k`.
pub bit_and_low : (k x : ℕ) → bit_and x (2 ^ k - 1) ≡ x % 2 ^ k
bit_and_low k x = ground (arith, one-le-pow k 2, bit_and_ones k (x / 2 ^ k) (x % 2 ^ k))
