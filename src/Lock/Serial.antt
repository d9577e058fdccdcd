-- ===== src/Lock/Serial.antt =====
-- The lock of src/shm_alloc.c makes the operations of hosts that work at the same time one sequence.
use disagg_shmem_allocator.Base.{
  ℕ, ◌≡◌, ◌≢◌, refl, sym, ap, ◌∙◌, subst, inl, inr, true, false, ◌∷◌, List,
}
use disagg_shmem_allocator.Layout.{Region}
use disagg_shmem_allocator.Session
use disagg_shmem_allocator.Session.{Op, op_of, ops_of, Valid, Reaches-Valid}
use disagg_shmem_allocator.Lock.{free, Robust}
use disagg_shmem_allocator.Lock.System.{
  Pc, outside, inside, dead, working, in_section, Hosts, update, Step, enters, begins, writes,
  completes, leaves, dies_outside, dies_recovering, dies_inside, dies_working, Reaches, start, next,
  fresh,
}
use disagg_shmem_allocator.Lock.Owned.{
  update-here, update-other, same_or_not, true≢false, Owned, nobody, owner, Reaches-Owned,
  fresh-Owned,
}

-- The region is what the completed operations, one after the other, make of `r`.
abbrev pub Result : (r : Region) → List Op → Region → Type 0
Result r log x = (path : Session.Reaches r x) × (ops_of path ≡ log)

abbrev Working : {M : Type 0} → Hosts M → Type 0
Working s = (t : ℕ) × (f : Region) × (s.pc t ≡ working f)

-- A host at work has found the result of the operations before its own, and while no host is at work
-- the shared memory holds it.
record Serial {M : Type 0} (r : Region) (s : Hosts M) : Type 0 where
  found : (t : ℕ) (f : Region) → s.pc t ≡ working f → Result r s.log f
  settled : (Working s → ⊥) → Result r s.log s.region

inside_not : {f : Region} → inside ≡ working f → ⊥
inside_not e = cc

outside_not : {f : Region} → outside ≡ working f → ⊥
outside_not e = cc

dead_not : {f : Region} → dead ≡ working f → ⊥
dead_not e = cc

same_found : {f g : Region} → working f ≡ working g → f ≡ g
same_found e = cc

module _ {M : Type 0} (r : Region) (s : Hosts M) where
  -- A host that is not at work goes somewhere else, not to work.
  unworked :
      (m : M) (t : ℕ) (p q : Pc)
      → s.pc t ≡ p
      → ((f : Region) → p ≡ working f → ⊥)
      → ((f : Region) → q ≡ working f → ⊥)
      → Serial r s
      → Serial r (record s { mutex = m; pc = update s.pc t q })
  unworked m t p q at not_p not_q c = record {
    found = λ u f e. elim (same_or_not t u) [
      | inl same ↦
          absurd (not_q f (sym (update-here s.pc t q) ∙ ap (update s.pc t q) (sym same) ∙ e))
      | inr ne ↦ c.found u f (sym (update-other s.pc t u q ne) ∙ e)
    ];
    settled = λ none. c.settled λ w. elim (same_or_not t w.0) [
      | inl same ↦ not_p w.1 (sym at ∙ ap s.pc (sym same) ∙ w.2)
      | inr ne ↦ none (w.0, w.1, update-other s.pc t w.0 q ne ∙ w.2)
    ];
  }

  -- Only the host that is inside can be at work.
  only_worker :
      (robust : Robust M) (t u : ℕ) (f : Region)
      → Owned robust s
      → in_section (s.pc t) ≡ true
      → s.pc u ≡ working f
      → u ≡ t
  only_worker robust t u f (nobody op none_in) in_t e = absurd (none_in t in_t)
  only_worker robust t u f (owner o v own only) in_t e =
      only u (ap in_section e) ∙ sym (only t in_t)

module _ {M : Type 0} (robust : Robust M) (r : Region) where
  Step-Serial :
      (s s' : Hosts M)
      → Step robust s s'
      → Owned robust s
      → (s.torn ≡ false → Serial r s)
      → s'.torn ≡ false
      → Serial r s'
  Step-Serial s s' (enters t m rc out run) own c whole =
      unworked r s m t outside inside out (λ f. outside_not) (λ f. inside_not) (c whole)
  Step-Serial s s' (begins t in_t) own c whole =
      let was = c whole in
      let idle : Working s → ⊥ = λ w. inside_not (
        sym in_t
        ∙ ap s.pc (sym (only_worker r s robust t w.0 w.1 own (ap in_section in_t) w.2))
        ∙ w.2) in
      record {
        found = λ u f e. elim (same_or_not t u) [
          | inl same ↦
              subst (Result r s.log)
                (same_found (
                  sym (update-here s.pc t (working s.region))
                  ∙ ap (update s.pc t (working s.region)) (sym same)
                  ∙ e))
                (was.settled idle)
          | inr ne ↦ was.found u f (sym (update-other s.pc t u (working s.region) ne) ∙ e)
        ];
        settled = λ none. absurd (none (t, s.region, update-here s.pc t (working s.region)));
      }
  Step-Serial s s' (writes t found x at) own c whole = record {
    found = (c whole).found;
    settled = λ none. absurd (none (t, found, at));
  }
  Step-Serial s s' (completes t found x at step) own c whole =
      let (path, logged) = (c whole).found t found at in
      record {
        found = λ u f e. elim (same_or_not t u) [
          | inl same ↦ absurd (
              inside_not
                (sym (update-here s.pc t inside) ∙ ap (update s.pc t inside) (sym same) ∙ e))
          | inr ne ↦ absurd (
              ne (
                only_worker r s robust t u f own (ap in_section at)
                  (sym (update-other s.pc t u inside ne) ∙ e)))
        ];
        settled = λ none. (Session.next found x path step, ap (λ l. op_of step ∷ l) logged);
      }
  Step-Serial s s' (leaves t in_t) own c whole =
      unworked r s s'.mutex t inside outside in_t (λ f. inside_not) (λ f. outside_not) (c whole)
  Step-Serial s s' (dies_outside t out) own c whole =
      unworked r s s'.mutex t outside dead out (λ f. outside_not) (λ f. dead_not) (c whole)
  Step-Serial s s' (dies_recovering t m out run) own c whole =
      unworked r s s'.mutex t outside dead out (λ f. outside_not) (λ f. dead_not) (c whole)
  Step-Serial s s' (dies_inside t in_t) own c whole =
      unworked r s s'.mutex t inside dead in_t (λ f. inside_not) (λ f. dead_not) (c whole)
  Step-Serial s s' (dies_working t found at) own c whole = absurd (true≢false whole)

  fresh-Serial : (m : M) → Serial r (fresh m r)
  fresh-Serial m = record {
    found = λ t f e. absurd (outside_not e);
    settled = λ none. (Session.start, refl);
  }

  still_Serial :
      (m : M) (s : Hosts M)
      → Owned robust (fresh m r)
      → Reaches robust (fresh m r) s
      → s.torn ≡ false
      → Serial r s
  still_Serial m s own start whole = fresh-Serial m
  still_Serial m s own (next s1 s2 path step) whole =
      Step-Serial s1 s step (Reaches-Owned robust (fresh m r) s1 path own)
        (still_Serial m s1 own path) whole

  -- From a valid region with an unlocked mutex, whatever order the hosts run in, wherever they die
  -- outside an operation, and whatever they write while they work on one: while no host is at work,
  -- and none has died at work, the region is what the completed operations make of the first one,
  -- each on the result of the one before it, in the order of their completion; so it is valid. An
  -- operation is a step of Session, which excludes sizes and IDs that wrap around and resizes that
  -- copy to a block with a recorded capacity below the object's.
  pub Reaches-Serial :
      (m : M) (s : Hosts M)
      → Robust.view robust m ≡ free
      → Valid r
      → Reaches robust (fresh m r) s
      → s.torn ≡ false
      → ((t : ℕ) (f : Region) → s.pc t ≢ working f)
      → Result r s.log s.region × Valid s.region
  Reaches-Serial m s unlocked v path whole idle =
      let done =
        (still_Serial m s (fresh-Owned robust m r unlocked) path whole).settled
          (λ w. idle w.0 w.1 w.2) in
      (done, Reaches-Valid r s.region v done.0)
