-- ===== src/Lock/Safety.antt =====
-- What the lock of src/shm_alloc.c guarantees to hosts that run in any order and may die.
use disagg_shmem_allocator.Base.{ℕ, ◌≡◌, ◌≢◌, sym, ◌∙◌, true, some}
use disagg_shmem_allocator.Layout.{Region}
use disagg_shmem_allocator.Lock.{free, held, Robust, region_lock}
use disagg_shmem_allocator.Lock.System.{in_section, Hosts, Reaches, fresh}
use disagg_shmem_allocator.Lock.Owned.{nobody, owner, lock-Open, Reaches-Owned, fresh-Owned}

module _ {M : Type 0} (robust : Robust M) where
  open robust use {view}

  -- From an unlocked mutex, whatever order the hosts run in and wherever they die: two hosts inside
  -- the critical section are the same host, although no caller looks at what `region_lock` returns.
  pub mutual_exclusion :
      (m : M) (r : Region) (s : Hosts M)
      → view m ≡ free
      → Reaches robust (fresh m r) s
      → (t u : ℕ) → in_section (s.pc t) ≡ true
      → in_section (s.pc u) ≡ true
      → t ≡ u
  mutual_exclusion m r s e path t u in_t in_u =
      elim (Reaches-Owned robust (fresh m r) s path (fresh-Owned robust m r e)) [
        | nobody op none_in ↦ absurd (none_in t in_t)
        | owner o v own only ↦ only t in_t ∙ sym (only u in_u)
      ]

  -- From an unlocked mutex, whatever order the hosts run in and wherever they die: where no host is
  -- inside the critical section, `region_lock` gives any host the lock and returns 0, also after a
  -- host has died inside or while it recovered the lock.
  pub region_lock-recovers :
      (m : M) (r : Region) (s : Hosts M)
      → view m ≡ free
      → Reaches robust (fresh m r) s
      → ((t : ℕ) → in_section (s.pc t) ≢ true)
      → (t : ℕ) → (m' : M) × (region_lock robust s.mutex t ≡ some (m', 0)) × (view m' ≡ held t)
  region_lock-recovers m r s e path none_in t =
      elim (Reaches-Owned robust (fresh m r) s path (fresh-Owned robust m r e)) [
        | nobody op _ ↦ lock-Open robust s.mutex t op
        | owner o v own only ↦ absurd (none_in o own)
      ]
