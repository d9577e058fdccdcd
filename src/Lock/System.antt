-- ===== src/Lock/System.antt =====
-- Hosts that share one region, interleaved in any order: each takes the lock, runs operations of
-- src/shm_alloc.c and gives the lock back, and may die at any point.
use disagg_shmem_allocator.Base.{
  ℕ, ◌≡◌, Bool, true, false, some, ◌==◌, List, [], ◌∷◌, if◌then◌else◌,
}
use disagg_shmem_allocator.Layout.{Region}
use disagg_shmem_allocator.Lock.{Robust, eownerdead, region_lock, region_unlock}
use disagg_shmem_allocator.Session
use disagg_shmem_allocator.Session.{Op}

-- What a host is doing; a host that works on an operation has read the region as it was then.
pub data Pc : Type 0 where
  outside inside dead : Pc
  working : Region → Pc

-- Between `region_lock` and `region_unlock`.
abbrev pub in_section : Pc → Bool
in_section outside = false
in_section inside = true
in_section dead = false
in_section (working r) = true

-- `torn` says that a host has died with its operation half done; `log` holds the operations that have
-- been completed, the last one first.
pub record Hosts (M : Type 0) : Type 0 where
  pub mutex : M
  pub pc : ℕ → Pc
  pub region : Region
  pub torn : Bool
  pub log : List Op

abbrev pub update : (ℕ → Pc) → ℕ → Pc → ℕ → Pc
update f t p u = if u == t then p else f u

module _ {M : Type 0} (robust : Robust M) where
  -- The callers do not look at what `region_lock` returns. A host may die in `region_lock`, before
  -- it has marked the mutex consistent. An operation takes several steps: it begins on the region as
  -- the host finds it, writes anything at all to the shared memory, and is completed when the region
  -- is what the operation makes of the one that it began on. Nothing but the lock keeps the other
  -- hosts from beginning an operation in between. A host that dies at work leaves what it has written.
  pub data Step (s : Hosts M) : Hosts M → Type 0 where
    enters :
        (t : ℕ) (m : M) (rc : ℕ)
        → s.pc t ≡ outside
        → region_lock robust s.mutex t ≡ some (m, rc)
        → Step s (record s { mutex = m; pc = update s.pc t inside })
    begins : (t : ℕ) → s.pc t ≡ inside → Step s (record s { pc = update s.pc t (working s.region) })
    writes : (t : ℕ) (found r : Region) → s.pc t ≡ working found → Step s (record s { region = r })
    completes :
        (t : ℕ) (found r : Region)
        → s.pc t ≡ working found
        → (step : Session.Step found r)
        → Step s
            (record s { pc = update s.pc t inside; region = r; log = Session.op_of step ∷ s.log })
    leaves :
        (t : ℕ)
        → s.pc t ≡ inside
        → Step s (record s { mutex = region_unlock robust s.mutex t; pc = update s.pc t outside })
    dies_outside :
        (t : ℕ)
        → s.pc t ≡ outside
        → Step s (record s { mutex = robust.death s.mutex t; pc = update s.pc t dead })
    dies_recovering :
        (t : ℕ) (m : M)
        → s.pc t ≡ outside
        → robust.lock s.mutex t ≡ some (m, eownerdead)
        → Step s (record s { mutex = robust.death m t; pc = update s.pc t dead })
    dies_inside :
        (t : ℕ)
        → s.pc t ≡ inside
        → Step s (record s { mutex = robust.death s.mutex t; pc = update s.pc t dead })
    dies_working :
        (t : ℕ) (found : Region)
        → s.pc t ≡ working found
        → Step s (record s { mutex = robust.death s.mutex t; pc = update s.pc t dead; torn = true })

  pub data Reaches (s : Hosts M) : Hosts M → Type 0 where
    start : Reaches s s
    next : (s' s'' : Hosts M) → Reaches s s' → Step s' s'' → Reaches s s''

-- The hosts on a region whose lock has just been made.
abbrev pub fresh : {M : Type 0} → M → Region → Hosts M
fresh m r = record { mutex = m; pc = λ t. outside; region = r; torn = false; log = [] }
