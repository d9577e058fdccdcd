-- ===== src/Lifecycle/Balance.antt =====
-- `shm_region_open` of src/shm_alloc.c holds what it should on every path: a replay of the events
-- with the descriptor and the mapping that they leave open.
use disagg_shmem_allocator.Base.{
  arith, ℕ, ◌≡◌, refl, ap, ◌∙◌, ◌⊎◌, inl, inr, Bool, true, false, Option, none, some, Option-cases,
  List, [], ◌∷◌, ◌++◌, ◌==◌, not, ◌||◌, if◌then◌else◌,
}
use disagg_shmem_allocator.Layout.{Region, dir_cap_default}
use disagg_shmem_allocator.Access.{Status, enomem, Answer, ok, err}
use disagg_shmem_allocator.Lifecycle.{
  Backend, posix, dax, Os, OpenOpts, Event, opened, closed, unlinked, mapped, unmapped, Traced,
  traced, ◌>>=◌, open_backing, map_backing, validate, has_flag, open_create, or_default,
  region_init, unlink_if, attach, shm_region_open,
}

-- The descriptor is open, and the mapping exists.
pub record Held : Type 0 where
  pub fd : Bool
  pub map : Bool

abbrev pub nothing_held : Held
nothing_held = record { fd = false; map = false }

abbrev pub fd_held : Held
fd_held = record { fd = true; map = false }

abbrev pub all_held : Held
all_held = record { fd = true; map = true }

-- `none` for a resource taken twice, or given back when it is not held.
abbrev pub held_after : Event → Held → Option Held
held_after opened h = if h.fd then none else some (record h { fd = true })
held_after closed h = if h.fd then some (record h { fd = false }) else none
held_after unlinked h = some h
held_after mapped h = if h.map then none else some (record h { map = true })
held_after unmapped h = if h.map then some (record h { map = false }) else none

abbrev pub and_then : Option Held → (Held → Option Held) → Option Held
and_then none f = none
and_then (some h) f = f h

abbrev pub replay : List Event → Held → Option Held
replay [] h = some h
replay (x ∷ xs) h = and_then (held_after x h) (replay xs)

replay-append :
    (xs ys : List Event) (h : Held) → replay (xs ++ ys) h ≡ and_then (replay xs h) (replay ys)
replay-append [] ys h = refl
replay-append (x ∷ xs) ys h = elim (Option-cases (held_after x h)) [
  | inl e ↦ rw e refl
  | inr (h', e) ↦ rw e (replay-append xs ys h')
]

-- What an answer leaves held.
abbrev pub holds {ℓ} : {A : Type ℓ} → Held → Answer A → Held
holds fin (err e) = nothing_held
holds fin (ok a) = fin

abbrev pub Balanced : {A : Type 0} → (start fin : Held) → Traced A → Type 0
Balanced start fin t = replay t.events start ≡ some (holds fin t.answer)

bind-Balanced :
    {A B : Type 0} (start mid fin : Held) (t : Traced A) (k : A → Traced B)
    → Balanced start mid t
    → ((a : A) → Balanced mid fin (k a))
    → Balanced start fin (t >>= k)
bind-Balanced {A} {B} start mid fin t k = go t.events t.answer
  where
    go :
        (es : List Event) (o : Answer A)
        → Balanced start mid (traced es o)
        → ((a : A) → Balanced mid fin (k a))
        → Balanced start fin (traced es o >>= k)
    go es (err e) b f = b
    go es (ok a) b f =
        replay-append es (k a).events start ∙ ap (λ o. and_then o (replay (k a).events)) b ∙ f a

if-Balanced :
    {A : Type 0} (start fin : Held) (c : Bool) (t u : Traced A)
    → Balanced start fin t
    → Balanced start fin u
    → Balanced start fin (if c then t else u)
if-Balanced start fin true t u b b' = b
if-Balanced start fin false t u b b' = b'

Answer-cases : {A : Type 0} (o : Answer A) → ((e : Status) × (o ≡ err e)) ⊎ ((a : A) × (o ≡ ok a))
Answer-cases (err e) = inl (e, refl)
Answer-cases (ok a) = inr (a, refl)

unlink_held :
    (backend : Backend) (creating : Bool)
    → replay (closed ∷ unlink_if backend creating) fd_held ≡ some nothing_held
unlink_held posix true = refl
unlink_held posix false = refl
unlink_held dax creating = refl

open_backing-Balanced :
    (os : Os) (backend : Backend) (creating : Bool) (size : ℕ)
    → Balanced nothing_held fd_held (open_backing os backend creating size)
unfolding open_backing
open_backing-Balanced os posix creating size = ground arith
open_backing-Balanced os dax creating size = ground arith

map_backing-Balanced :
    (os : Os) (backend : Backend) (creating : Bool) (size : ℕ)
    → Balanced fd_held all_held (map_backing os backend creating size)
unfolding map_backing
map_backing-Balanced os backend creating size = ground arith

validate-Balanced :
    (os : Os) (flags : ℕ) (r : Region) → Balanced all_held all_held (validate os flags r)
unfolding validate
validate-Balanced os flags r = ground arith

-- Whatever the system answers, `shm_region_open` takes and gives back the descriptor and the
-- mapping in an order that is possible; it holds both when it succeeds and neither when it fails.
pub shm_region_open-Balanced :
    (os : Os) (name : List ℕ) (size : ℕ) (opts : Option OpenOpts)
    → Balanced nothing_held all_held (shm_region_open os name size opts)
unfolding shm_region_open
shm_region_open-Balanced os name size opts =
    let o = or_default opts in
    let creating = has_flag o.flags open_create in
    let dir_cap = if o.dir_capacity == 0 then dir_cap_default else o.dir_capacity in
    let init : ℕ → Region → Traced Region = λ n r.
      if creating
      then traced [] (ok (region_init r n o.backend dir_cap name os.ns_inode os.cgroup_hash))
      else validate os o.flags r in
    if-Balanced {A = Region} nothing_held all_held (not os.calloc_ok || not os.strdup_ok)
      (traced [] (err enomem)) _ refl
      (bind-Balanced nothing_held fd_held all_held (open_backing os o.backend creating size) _
        (open_backing-Balanced os o.backend creating size)
        λ n.
          bind-Balanced fd_held all_held all_held (map_backing os o.backend creating n) _
            (map_backing-Balanced os o.backend creating n)
            λ r.
              bind-Balanced all_held all_held all_held (init n r) (λ r1. traced [] (ok (attach r1)))
                (if-Balanced {A = Region} all_held all_held creating
                  (traced []
                    (ok (region_init r n o.backend dir_cap name os.ns_inode os.cgroup_hash)))
                  (validate os o.flags r) refl (validate-Balanced os o.flags r))
                λ r1. refl)
