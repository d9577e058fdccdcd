-- ===== src/Lock/Owned.antt =====
-- Who holds the lock of src/shm_alloc.c: no host, or the one host that is inside the critical section.
use disagg_shmem_allocator.Base.{
  ℕ, ◌≡◌, ◌≢◌, refl, sym, ap, ◌∙◌, ◌⊎◌, inl, inr, true, false, Bool-cases, none, some, ◌==◌, ==→eq,
  ==_false→ne, eq→==, ne→==, arith,
}
use disagg_shmem_allocator.Layout.{Region}
use disagg_shmem_allocator.Lock.{
  free, orphaned, held, Robust, eownerdead, region_lock, region_unlock,
}
use disagg_shmem_allocator.Lock.System.{
  Pc, outside, inside, dead, working, in_section, Hosts, update, Step, enters, begins, writes,
  completes, leaves, dies_outside, dies_recovering, dies_inside, dies_working, Reaches, start, next,
  fresh,
}

pub update-here : (f : ℕ → Pc) (t : ℕ) (p : Pc) → update f t p t ≡ p
update-here f t p = rw (eq→== t t refl) refl

pub update-other : (f : ℕ → Pc) (t u : ℕ) (p : Pc) → u ≢ t → update f t p u ≡ f u
update-other f t u p ne = rw (ne→== u t ne) refl

pub same_or_not : (t u : ℕ) → (u ≡ t) ⊎ (u ≢ t)
same_or_not t u = elim (Bool-cases (u == t)) [
  | inl e ↦ inl (==→eq u t e)
  | inr e ↦ inr (==_false→ne u t e)
]

pub true≢false : true ≢ false
true≢false e = ground arith

module _ {M : Type 0} (robust : Robust M) where
  open robust use {view, lock, death}

  -- The mutex is there for the taking.
  abbrev pub Open : M → Type 0
  Open m = (view m ≡ free) ⊎ (view m ≡ orphaned)

  -- Either no host is inside and the mutex can be taken, or one host holds it and only that host is
  -- inside.
  pub data Owned (s : Hosts M) : Type 0 where
    nobody : Open s.mutex → ((t : ℕ) → in_section (s.pc t) ≢ true) → Owned s
    owner :
        (t : ℕ)
        → view s.mutex ≡ held t
        → in_section (s.pc t) ≡ true
        → ((u : ℕ) → in_section (s.pc u) ≡ true → u ≡ t)
        → Owned s

  pub lock-Open :
      (m : M) (t : ℕ)
      → Open m
      → (m' : M) × (region_lock robust m t ≡ some (m', 0)) × (view m' ≡ held t)
  unfolding region_lock
  lock-Open m t (inl e) =
      let (m', run, h) = robust.lock_free m t e in (m', rw (region_lock, run) refl, h)
  lock-Open m t (inr e) =
      let (m', run, h) = robust.lock_orphaned m t e in
      (robust.consistent m', rw (region_lock, run) refl, robust.consistent_lem m' t h)

  lock_waits : (m : M) (t o : ℕ) → view m ≡ held o → o ≢ t → region_lock robust m t ≡ none
  unfolding region_lock
  lock_waits m t o e ne = rw (region_lock, robust.lock_held m t o e ne) refl

  module _ (s : Hosts M) where
    in_at : {p : Pc} (t : ℕ) → s.pc t ≡ p → in_section p ≡ true → in_section (s.pc t) ≡ true
    in_at t e h = ap in_section e ∙ h

    here_in : (t : ℕ) (p : Pc) → in_section (update s.pc t p t) ≡ in_section p
    here_in t p = ap in_section (update-here s.pc t p)

    -- What a host that changes its place has to do with the hosts inside.
    others_in :
        (t u : ℕ) (p : Pc)
        → u ≢ t
        → in_section (update s.pc t p u) ≡ true
        → in_section (s.pc u) ≡ true
    others_in t u p ne h = sym (ap in_section (update-other s.pc t u p ne)) ∙ h

    alone :
        (t : ℕ) (p : Pc)
        → in_section p ≢ true
        → ((u : ℕ) → in_section (s.pc u) ≡ true → u ≡ t)
        → (u : ℕ) → in_section (update s.pc t p u) ≢ true
    alone t p out only u h = elim (same_or_not t u) [
      | inl e ↦ out (sym (here_in t p) ∙ ap (λ v. in_section (update s.pc t p v)) (sym e) ∙ h)
      | inr ne ↦ ne (only u (others_in t u p ne h))
    ]

    pub only_here :
        (t : ℕ) (p : Pc)
        → ((u : ℕ) → in_section (s.pc u) ≡ true → u ≡ t)
        → (u : ℕ) → in_section (update s.pc t p u) ≡ true
        → u ≡ t
    only_here t p only u h = elim (same_or_not t u) [
      | inl e ↦ e
      | inr ne ↦ only u (others_in t u p ne h)
    ]

    none_still :
        (t : ℕ) (p : Pc)
        → in_section p ≢ true
        → ((u : ℕ) → in_section (s.pc u) ≢ true)
        → (u : ℕ) → in_section (update s.pc t p u) ≢ true
    none_still t p out none_in = alone t p out (λ u h. absurd (none_in u h))

    not_owner : (t o : ℕ) → s.pc t ≡ outside → in_section (s.pc o) ≡ true → o ≢ t
    not_owner t o out own e =
        true≢false (sym own ∙ ap (λ v. in_section (s.pc v)) e ∙ ap in_section out)

    -- A host that was outside dies, and the owner keeps the mutex.
    owner_keeps :
        (t o : ℕ) (p : Pc)
        → in_section p ≢ true
        → s.pc t ≡ outside
        → in_section (s.pc o) ≡ true
        → ((u : ℕ) → in_section (s.pc u) ≡ true → u ≡ o)
        → (o ≢ t)
          × (in_section (update s.pc t p o) ≡ true)
          × ((u : ℕ) → in_section (update s.pc t p u) ≡ true → u ≡ o)
    owner_keeps t o p not_in out own only = (
      not_owner t o out own,
      ap in_section (update-other s.pc t o p (not_owner t o out own)) ∙ own,
      λ u h. elim (same_or_not t u) [
        | inl e ↦
            absurd
              (not_in (sym (here_in t p) ∙ ap (λ v. in_section (update s.pc t p v)) (sym e) ∙ h))
        | inr other ↦ only u (others_in t u p other h)
      ],
    )

    -- The one host inside goes on to `p`, inside or outside.
    goes_on :
        (t : ℕ) (p : Pc) (m : Hosts M)
        → m.mutex ≡ s.mutex
        → m.pc ≡ update s.pc t p
        → in_section (s.pc t) ≡ true
        → in_section p ≡ true
        → Owned s
        → Owned m
    goes_on t p m same at in_t in_p (nobody op none_in) = absurd (none_in t in_t)
    goes_on t p m same at in_t in_p (owner o v own only) =
        let me = only t in_t in
        owner t (ap view same ∙ v ∙ ap held (sym me))
          (ap (λ f. in_section (f t)) at ∙ here_in t p ∙ in_p)
          λ u h.
            only_here t p (λ w k. only w k ∙ sym me) u (ap (λ f. in_section (f u)) (sym at) ∙ h)

  dead_out : in_section dead ≢ true
  dead_out e = true≢false (sym e)

  outside_out : in_section outside ≢ true
  outside_out e = true≢false (sym e)

  Open-answer :
      (m m1 : M) (t rc : ℕ)
      → Open m
      → region_lock robust m t ≡ some (m1, rc)
      → (rc ≡ 0) × (view m1 ≡ held t)
  Open-answer m m1 t rc op run = let (m', run', h) = lock-Open m t op in (cc, cc)

  Open-death : (m : M) (t : ℕ) → Open m → Open (death m t)
  Open-death m t (inl e) = inl (robust.death_free m t e)
  Open-death m t (inr e) = inr (robust.death_orphaned m t e)

  -- A host that dies before it has marked the mutex consistent leaves it to be taken over again.
  recovering_death :
      (m m1 : M) (t : ℕ) → Open m → lock m t ≡ some (m1, eownerdead) → Open (death m1 t)
  recovering_death m m1 t (inl e) run =
      let (m', run', h) = robust.lock_free m t e in
      let zero : 0 ≡ eownerdead = cc in absurd (omega arith)
  recovering_death m m1 t (inr e) run =
      let (m', run', h) = robust.lock_orphaned m t e in inr (robust.death_inconsistent m1 t cc)

  -- A host that dies inside leaves the mutex behind.
  death_inside :
      (s s' : Hosts M) (t : ℕ)
      → s'.mutex ≡ death s.mutex t
      → s'.pc ≡ update s.pc t dead
      → in_section (s.pc t) ≡ true
      → Owned s
      → Owned s'
  death_inside s s' t mutex pc in_t (nobody op none_in) = absurd (none_in t in_t)
  death_inside s s' t mutex pc in_t (owner o v own only) =
      let me = only t in_t in
      nobody (inr (ap view mutex ∙ robust.death_held s.mutex t (v ∙ ap held (sym me)))) λ u h.
        alone s t dead dead_out (λ w k. only w k ∙ sym me) u
          (ap (λ f. in_section (f u)) (sym pc) ∙ h)

  pub Step-Owned : (s s' : Hosts M) → Step robust s s' → Owned s → Owned s'
  unfolding region_unlock
  Step-Owned s s' (enters t m rc out run) (nobody op none_in) =
      owner t (Open-answer s.mutex m t rc op run).1 (here_in s t inside)
        (only_here s t inside (λ u h. absurd (none_in u h)))
  Step-Owned s s' (enters t m rc out run) (owner o v own only) =
      let waits = lock_waits s.mutex t o v (not_owner s t o out own) in absurd cc
  Step-Owned s s' (begins t in_t) own =
      goes_on s t (working s.region) s' refl refl (in_at s t in_t refl) refl own
  Step-Owned s s' (writes t found r at) (nobody op none_in) = nobody op none_in
  Step-Owned s s' (writes t found r at) (owner o v own only) = owner o v own only
  Step-Owned s s' (completes t found r at step) own =
      goes_on s t inside s' refl refl (in_at s t at refl) refl own
  Step-Owned s s' (leaves t in_t) (nobody op none_in) = absurd (none_in t (in_at s t in_t refl))
  Step-Owned s s' (leaves t in_t) (owner o v own only) =
      let me = only t (in_at s t in_t refl) in
      nobody (inl (robust.unlock_held s.mutex t (v ∙ ap held (sym me))))
        (alone s t outside outside_out λ u h. only u h ∙ sym me)
  Step-Owned s s' (dies_outside t out) (nobody op none_in) =
      nobody (Open-death s.mutex t op) (none_still s t dead dead_out none_in)
  Step-Owned s s' (dies_outside t out) (owner o v own only) =
      let (ne, in_o, only') = owner_keeps s t o dead dead_out out own only in
      owner o (robust.death_other s.mutex t o v ne) in_o only'
  Step-Owned s s' (dies_recovering t m out run) (nobody op none_in) =
      nobody (recovering_death s.mutex m t op run) (none_still s t dead dead_out none_in)
  Step-Owned s s' (dies_recovering t m out run) (owner o v own only) =
      let waits = robust.lock_held s.mutex t o v (not_owner s t o out own) in absurd cc
  Step-Owned s s' (dies_inside t in_t) own = death_inside s s' t refl refl (in_at s t in_t refl) own
  Step-Owned s s' (dies_working t found at) own =
      death_inside s s' t refl refl (in_at s t at refl) own

  pub Reaches-Owned : (s s' : Hosts M) → Reaches robust s s' → Owned s → Owned s'
  Reaches-Owned s s' start o = o
  Reaches-Owned s s' (next s1 s2 path step) o = Step-Owned s1 s' step (Reaches-Owned s s1 path o)

  pub fresh-Owned : (m : M) (r : Region) → view m ≡ free → Owned (fresh m r)
  fresh-Owned m r e = nobody (inl e) λ t h. true≢false (sym h)
