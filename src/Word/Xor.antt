-- ===== src/Word/Xor.antt =====
-- Laws of the exclusive or at variables.
use Prim.Native.Nat.{bit_xor-bitwise, differ}
use native.Mathlib.Nat.{pow-suc}
use disagg_shmem_allocator.Base.{
  ℕ, zero, suc, ◌+◌, ◌*◌, ◌/◌, ◌%◌, ◌^◌, ◌<◌, ◌≡◌, refl, arith, bit_xor,
}
use disagg_shmem_allocator.Word.Bits.{halving, lowest_digit}

zero-bit_xor : (b : ℕ) → bit_xor 0 b ≡ b
zero-bit_xor b = bit_xor-bitwise 0 b

zero-differ : (q : ℕ) → differ 0 q ≡ q
zero-differ q = refl

differ_sum : (p q : ℕ) → p < 2 → q < 2 → differ p q ≡ (p + q) % 2
differ_sum zero q p_small q_small = omega arith
differ_sum (suc zero) zero p_small q_small = refl
differ_sum (suc zero) (suc zero) p_small q_small = refl
differ_sum (suc zero) (suc (suc q)) p_small q_small = absurd (omega arith)
differ_sum (suc (suc p)) q p_small q_small = absurd (omega arith)

bit_xor_step : (a b : ℕ) → bit_xor a b ≡ bit_xor (a / 2) (b / 2) * 2 + (a % 2 + b % 2) % 2
bit_xor_step a b = omega (
  arith,
  bit_xor-bitwise a b,
  bit_xor-bitwise (a / 2) (b / 2),
  differ_sum (a % 2) (b % 2) (omega arith) (omega arith),
  lowest_digit (λ x. x) differ (λ x. omega arith) a b,
)

-- Each argument is determined by the other one and the result.
pub bit_xor_right : (a b c : ℕ) → bit_xor a b ≡ bit_xor a c → b ≡ c
bit_xor_right =
    halving (λ a. (b c : ℕ) → bit_xor a b ≡ bit_xor a c → b ≡ c)
      (λ b c e. omega (arith, zero-bit_xor b, zero-bit_xor c))
      λ a half b c e.
        let below =
          half (b / 2) (c / 2) (omega (arith, bit_xor_step (suc a) b, bit_xor_step (suc a) c)) in
        omega (arith, bit_xor_step (suc a) b, bit_xor_step (suc a) c)

bit_xor_comm : (a b : ℕ) → bit_xor a b ≡ bit_xor b a
bit_xor_comm =
    halving (λ a. (b : ℕ) → bit_xor a b ≡ bit_xor b a)
      (λ b. omega (arith, zero-bit_xor b, bit_xor-zero b))
      λ a half b. omega (arith, bit_xor_step (suc a) b, bit_xor_step b (suc a), half (b / 2))
  where
    bit_xor-zero : (a : ℕ) → bit_xor a 0 ≡ a
    bit_xor-zero =
        halving (λ a. bit_xor a 0 ≡ a) refl λ a half. omega (arith, bit_xor_step (suc a) 0, half)

pub bit_xor_left : (a b c : ℕ) → bit_xor a c ≡ bit_xor b c → a ≡ b
bit_xor_left a b c e = bit_xor_right c a b (omega (arith, bit_xor_comm a c, bit_xor_comm b c))

pub bit_xor_bound : (n a b : ℕ) → a < 2 ^ n → b < 2 ^ n → bit_xor a b < 2 ^ n
bit_xor_bound zero a b a_small b_small =
    let a_zero : a ≡ 0 = omega arith in
    let b_zero : b ≡ 0 = omega arith in rw (a_zero, b_zero) (omega (arith, zero-bit_xor 0))
bit_xor_bound (suc n) a b a_small b_small = omega (
  arith,
  pow-suc 2 n,
  bit_xor_step a b,
  bit_xor_bound n (a / 2) (b / 2) (omega (arith, pow-suc 2 n)) (omega (arith, pow-suc 2 n)),
)
