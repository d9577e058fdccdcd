-- ===== src/Directory/Scan.antt =====
-- What a scan of the directory finds: the first slot that passes the test, or that none does.
use disagg_shmem_allocator.Base.{
  ℕ, zero, suc, ◌+◌, ◌≤◌, ◌<◌, ◌≡◌, subst, inl, inr, Bool, true, false, Option, none, some, arith,
  Bool-cases, ◌==◌, ==→eq, ==_false→ne,
}
use disagg_shmem_allocator.Layout.{ObjEntry}
use disagg_shmem_allocator.Directory.{first_slot}

abbrev pub Outcome : (ObjEntry → Bool) → (ℕ → ObjEntry) → (lo hi : ℕ) → Option ℕ → Type 0
Outcome test dir lo hi none = (i : ℕ) → lo ≤ i → i < hi → test (dir i) ≡ false
Outcome test dir lo hi (some k) =
    (lo ≤ k) × (k < hi) × (test (dir k) ≡ true) × ((i : ℕ) → lo ≤ i → i < k → test (dir i) ≡ false)

pub first_slot-Outcome :
    (test : ObjEntry → Bool) (dir : ℕ → ObjEntry) (n i : ℕ)
    → Outcome test dir i (i + n) (first_slot test dir n i)
unfolding first_slot
first_slot-Outcome test dir zero i = λ k p q. absurd (omega arith)
first_slot-Outcome test dir (suc n) i = elim (Bool-cases (test (dir i))) [
  | inl hit ↦ rw hit (omega arith, omega arith, hit, λ k p q. absurd (omega arith))
  | inr miss ↦
      rw miss (later (first_slot test dir n (suc i)) miss (first_slot-Outcome test dir n (suc i)))
]
  where
    here :
        (k : ℕ)
        → i ≤ k
        → test (dir i) ≡ false
        → (suc i ≤ k → test (dir k) ≡ false)
        → test (dir k) ≡ false
    here k le miss rest = elim (Bool-cases (i == k)) [
      | inl e ↦ subst (λ t. test (dir t) ≡ false) (==→eq i k e) miss
      | inr ne ↦ rest (omega (arith, ==_false→ne i k ne))
    ]

    later :
        (o : Option ℕ)
        → test (dir i) ≡ false
        → Outcome test dir (suc i) (suc i + n) o
        → Outcome test dir i (i + suc n) o
    later none miss f = λ k p q. here k p miss (λ le. f k le (omega arith))
    later (some j) miss (p, q, hit, f) =
        (omega arith, omega arith, hit, λ k le lt. here k le miss (λ le'. f k le' lt))

-- A scan of `n` slots finds the first one that passes the test, or that none passes.
pub first_slot-all :
    (test : ObjEntry → Bool) (dir : ℕ → ObjEntry) (n : ℕ)
    → Outcome test dir 0 n (first_slot test dir n 0)
first_slot-all test dir n =
    let all : 0 + n ≡ n = omega arith in
    subst (λ h. Outcome test dir 0 h (first_slot test dir n 0)) all
      (first_slot-Outcome test dir n 0)
