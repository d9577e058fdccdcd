-- ===== src/Lock.antt =====
-- The region's lock in src/shm_alloc.c: `region_lock` and `region_unlock` over a robust mutex that
-- the hosts share. The mutex is the C library's, and is a parameter with its documented laws.
pub mod System
pub mod Owned
pub mod Safety
pub mod Serial
use disagg_shmem_allocator.Base.{ℕ, ◌≡◌, ◌≢◌, Option, none, some, ◌==◌, if◌then◌else◌}

abbrev pub eownerdead : ℕ
eownerdead = 130

-- What a robust mutex can be: unlocked; locked by a host; left behind by a host that died with it;
-- taken over from a dead host and not yet marked consistent; or lost for good.
pub data View : Type 0 where
  free orphaned unusable : View
  held inconsistent : ℕ → View

-- The calls of a robust mutex by a host, and the death of a host. `lock` answers the return code,
-- and `none` while the call blocks.
pub record Robust (M : Type 0) : Type 0 where
  pub view : M → View
  pub lock : M → ℕ → Option (M × ℕ)
  pub consistent : M → M
  pub unlock : M → ℕ → M
  pub death : M → ℕ → M
  pub lock_free :
      (m : M) (t : ℕ) → view m ≡ free → (m' : M) × (lock m t ≡ some (m', 0)) × (view m' ≡ held t)
  pub lock_orphaned :
      (m : M) (t : ℕ)
      → view m ≡ orphaned
      → (m' : M) × (lock m t ≡ some (m', eownerdead)) × (view m' ≡ inconsistent t)
  pub lock_held : (m : M) (t o : ℕ) → view m ≡ held o → o ≢ t → lock m t ≡ none
  pub consistent_lem : (m : M) (t : ℕ) → view m ≡ inconsistent t → view (consistent m) ≡ held t
  pub unlock_held : (m : M) (t : ℕ) → view m ≡ held t → view (unlock m t) ≡ free
  pub unlock_inconsistent : (m : M) (t : ℕ) → view m ≡ inconsistent t → view (unlock m t) ≡ unusable
  pub death_held : (m : M) (t : ℕ) → view m ≡ held t → view (death m t) ≡ orphaned
  pub death_inconsistent : (m : M) (t : ℕ) → view m ≡ inconsistent t → view (death m t) ≡ orphaned
  pub death_other : (m : M) (t o : ℕ) → view m ≡ held o → o ≢ t → view (death m t) ≡ held o
  pub death_free : (m : M) (t : ℕ) → view m ≡ free → view (death m t) ≡ free
  pub death_orphaned : (m : M) (t : ℕ) → view m ≡ orphaned → view (death m t) ≡ orphaned

module _ {M : Type 0} (robust : Robust M) where
  open robust use {lock, consistent, unlock}

  -- The mutex and the return code; `none` while the call blocks.
  unfoldable pub region_lock : M → ℕ → Option (M × ℕ)
  region_lock m t = elim (lock m t) [
    | none ↦ none
    | some (m', rc) ↦ if rc == eownerdead then some (consistent m', 0) else some (m', rc)
  ]

  unfoldable pub region_unlock : M → ℕ → M
  region_unlock m t = unlock m t
