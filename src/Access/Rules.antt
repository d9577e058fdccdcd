-- ===== src/Access/Rules.antt =====
-- When the permission checks pass, and that asking for less never turns a pass into a refusal.
use disagg_shmem_allocator.Base.{
  ℕ, ◌≡◌, ◌≢◌, ◌↔◌, sym, ap, ◌∙◌, ◌⊎◌, inl, inr, true, arith, bit_and, some, ==→eq, eq→==,
}
use disagg_shmem_allocator.Word.Bits.{bit_and_assoc}
use disagg_shmem_allocator.Layout.{BlockHdr, ObjEntry, magic_block}
use disagg_shmem_allocator.Access.{
  success, eacces, grants, is_admin, check_block_access, check_dir_access,
}

-- Who may do what on a live block: an administrator anything, the owner what both the block and the
-- call grant.
abbrev pub MayAccess : (owner perms caller caller_perms required : ℕ) → Type 0
MayAccess owner perms caller caller_perms required =
    (is_admin caller_perms ≡ true)
    ⊎ ((caller ≡ owner) × (grants perms required ≡ true) × (grants caller_perms required ≡ true))

-- `check_block_access` succeeds exactly on a block with the right magic and a set tag bit, for an
-- administrator, whatever the block's permissions and its owner are, or for the owner where both the
-- block and the caller grant the required permissions.
pub check_block_access_iff :
    (b : BlockHdr) (caller caller_perms required : ℕ)
    → (check_block_access (some b) caller caller_perms required ≡ success) ↔ (
        (b.magic ≡ magic_block)
        × (b.allocated ≢ 0)
        × MayAccess b.owner b.perms caller caller_perms required)
unfolding check_block_access
check_block_access_iff b caller caller_perms required = ground arith

-- `check_dir_access` succeeds exactly on an entry that is alive and has an ID, for such a caller.
pub check_dir_access_iff :
    (e : ObjEntry) (caller caller_perms required : ℕ)
    → (check_dir_access (some e) caller caller_perms required ≡ success)
      ↔ ((e.alive ≢ 0) × (e.id ≢ 0) × MayAccess e.owner e.perms caller caller_perms required)
unfolding check_dir_access
check_dir_access_iff e caller caller_perms required = ground arith

-- On a live block the check answers success or EACCES.
pub block_access-cases :
    (b : BlockHdr) (caller perms required : ℕ)
    → b.magic ≡ magic_block
    → b.allocated ≢ 0
    → (check_block_access (some b) caller perms required ≡ success)
      ⊎ (check_block_access (some b) caller perms required ≡ eacces)
unfolding check_block_access
block_access-cases b caller perms required magic tag = ground arith

pub success≢eacces : success ≢ eacces
success≢eacces e = ground arith

-- Granting is transitive: what grants `more` grants all that `more` grants.
pub grants_trans :
    (perms more less : ℕ)
    → grants perms more ≡ true
    → grants more less ≡ true
    → grants perms less ≡ true
unfolding grants
grants_trans perms more less h k =
    let m : bit_and perms more ≡ more = ==→eq _ _ h in
    let l : bit_and more less ≡ less = ==→eq _ _ k in
    eq→== _ _ (
      ap (bit_and perms) (sym l)
      ∙ sym (bit_and_assoc perms more less)
      ∙ ap (λ t. bit_and t less) m
      ∙ l)

-- A caller who may access a block for some permissions may for any that those grant.
pub check_block_access_mono :
    (b : BlockHdr) (caller caller_perms more less : ℕ)
    → grants more less ≡ true
    → check_block_access (some b) caller caller_perms more ≡ success
    → check_block_access (some b) caller caller_perms less ≡ success
check_block_access_mono b caller caller_perms more less sub ok =
    let (magic, tag, may) = (check_block_access_iff b caller caller_perms more).0 ok in
    (check_block_access_iff b caller caller_perms less).1 (magic, tag, weaken may)
  where
    weaken :
        MayAccess b.owner b.perms caller caller_perms more
        → MayAccess b.owner b.perms caller caller_perms less
    weaken (inl admin) = inl admin
    weaken (inr (own, p, c)) =
        inr (own, grants_trans b.perms more less p sub, grants_trans caller_perms more less c sub)
