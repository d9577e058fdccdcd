-- ===== src/Examples/Hosts.antt =====
-- Witnesses for the theorems on the hosts' lock, with a mutex that is what its `View` says, and on
-- the cache lines.
use disagg_shmem_allocator.Base.{
  false, [], ◌∷◌, Bool-cases, inl, inr, sym, ◌∙◌, ℕ, ◌≡◌, ◌≢◌, refl, ap, Option, none, some, arith,
  true, ◌==◌, eq→==, ne→==, if◌then◌else◌,
}
use disagg_shmem_allocator.Layout.{Region}
use disagg_shmem_allocator.Access.{ok}
use disagg_shmem_allocator.Session
use disagg_shmem_allocator.Session.{Valid}
use disagg_shmem_allocator.Lock.{
  View, free, orphaned, unusable, held, inconsistent, Robust, eownerdead, region_lock,
}
use disagg_shmem_allocator.Lock.System.{
  update, Hosts, outside, inside, dead, working, in_section, enters, begins, completes,
  dies_working, Reaches, start, next, fresh,
}
use disagg_shmem_allocator.Lock.Safety.{mutual_exclusion, region_lock-recovers}
use disagg_shmem_allocator.Lock.Serial.{Result, Reaches-Serial}
use disagg_shmem_allocator.Persist.{clwb}
use disagg_shmem_allocator.Persist.Lines.{Persists, shm_persist-Persists}
use disagg_shmem_allocator.Examples.{
  name, created, created_chunks, created-IsRegion, created_next_id, used, used_run,
}

abbrev lock_view : View → ℕ → Option (View × ℕ)
lock_view free t = some (held t, 0)
lock_view orphaned t = some (inconsistent t, eownerdead)
lock_view unusable t = some (unusable, 131)
lock_view (held o) t = none
lock_view (inconsistent o) t = none

abbrev consistent_view : View → View
consistent_view (inconsistent t) = held t
consistent_view v = v

abbrev unlock_view : View → ℕ → View
unlock_view (held o) t = free
unlock_view (inconsistent o) t = unusable
unlock_view v t = v

abbrev death_view : View → ℕ → View
death_view (held o) t = if o == t then orphaned else held o
death_view (inconsistent o) t = if o == t then orphaned else inconsistent o
death_view v t = v

view_mutex : Robust View
view_mutex = record {
  view = λ m. m;
  lock = lock_view;
  consistent = consistent_view;
  unlock = unlock_view;
  death = death_view;
  lock_free = λ m t e. (held t, ap (λ v. lock_view v t) e, refl);
  lock_orphaned = λ m t e. (inconsistent t, ap (λ v. lock_view v t) e, refl);
  lock_held = λ m t o e ne. ap (λ v. lock_view v t) e;
  consistent_lem = λ m t e. ap consistent_view e;
  unlock_held = λ m t e. ap (λ v. unlock_view v t) e;
  unlock_inconsistent = λ m t e. ap (λ v. unlock_view v t) e;
  death_held = λ m t e. rw e (rw (eq→== t t refl) refl);
  death_inconsistent = λ m t e. rw e (rw (eq→== t t refl) refl);
  death_other = λ m t o e ne. rw e (rw (ne→== o t ne) refl);
  death_free = λ m t e. ap (λ v. death_view v t) e;
  death_orphaned = λ m t e. ap (λ v. death_view v t) e;
}

-- Host 3 takes the lock and allocates.
abbrev entered : Hosts View
entered = record (fresh free created) {
  mutex = held 3;
  pc = update (fresh free created).pc 3 inside;
}

entry_run : region_lock view_mutex free 3 ≡ some (held 3, 0)
unfolding region_lock view_mutex
entry_run = refl

to_entered : Reaches view_mutex (fresh free created) entered
to_entered = next (fresh free created) entered start (enters 3 (held 3) 0 refl entry_run)

abbrev begun : Hosts View
begun = record entered { pc = update entered.pc 3 (working created) }

abbrev allocation : Session.Step created used
allocation =
    Session.allocates used 10 name 7 255 3 (ok (1, 56)) (omega arith)
      (omega (arith, created_next_id)) used_run

abbrev allocated : Hosts View
allocated = record begun {
  pc = update begun.pc 3 inside;
  region = used;
  log = Session.op_of allocation ∷ [];
}

to_begun : Reaches view_mutex (fresh free created) begun
to_begun = next entered begun to_entered (begins 3 refl)

to_allocated : Reaches view_mutex (fresh free created) allocated
to_allocated = next begun allocated to_begun (completes 3 created used refl allocation)

-- Host 3 dies at work.
abbrev died : Hosts View
died = record begun { mutex = orphaned; pc = update begun.pc 3 dead; torn = true }

idle : (t : ℕ) (f : Region) → allocated.pc t ≢ working f
idle t f e = elim (Bool-cases (t == 3)) [
  | inl at ↦ not_working (sym (rw at refl) ∙ e)
  | inr away ↦ absurd (out_working (sym (rw away refl) ∙ e))
]
  where
    not_working : {g : Region} → inside ≡ working g → ⊥
    not_working h = cc

    out_working : {g : Region} → outside ≡ working g → ⊥
    out_working h = cc

Reaches-Serial_example :
    Result created (Session.alloc_op 10 name 7 255 3 (ok (1, 56)) ∷ []) used × Valid used
unfolding view_mutex
Reaches-Serial_example =
    Reaches-Serial view_mutex created free allocated refl (created_chunks, created-IsRegion)
      to_allocated refl idle

mutual_exclusion_example : ◌≡◌ {A = ℕ} 3 3
unfolding view_mutex
mutual_exclusion_example =
    mutual_exclusion view_mutex free created begun refl to_begun 3 3 refl refl

died_step : Reaches view_mutex (fresh free created) died
unfolding view_mutex
died_step = next begun died to_begun (dies_working 3 created refl)

none_inside : (t : ℕ) → in_section (died.pc t) ≢ true
none_inside t e = elim (Bool-cases (t == 3)) [
  | inl at ↦ out (sym (rw at refl) ∙ e)
  | inr away ↦ out (sym (rw away refl) ∙ e)
]
  where
    out : false ≢ true
    out h = ground arith

region_lock-recovers_example :
    (m' : View) × (region_lock view_mutex orphaned 9 ≡ some (m', 0)) × (view_mutex.view m' ≡ held 9)
unfolding view_mutex
region_lock-recovers_example =
    region_lock-recovers view_mutex free created died refl died_step none_inside 9

shm_persist-Persists_example : Persists clwb 100 200
shm_persist-Persists_example = shm_persist-Persists clwb 100 200 (omega arith) (omega arith)
