-- ===== src/Cap/Access.antt =====
-- What the capability operations let through.
use disagg_shmem_allocator.Base.{
  ℕ, ◌/◌, ◌%◌, ◌^◌, ◌≤◌, ◌<◌, ◌≡◌, ◌≢◌, ◌↔◌, refl, sym, ap, ◌∙◌, ◌⊎◌, inl, inr, true, false, not,
  ◌&&◌, arith, some, bit_and, bit_or, Bool-cases, ◌==◌, ==→eq, eq→==, ne→==, ge→ltb,
}
use disagg_shmem_allocator.Word.{add64, shl64, not64}
use disagg_shmem_allocator.Word.Bits.{bit_and_assoc, bit_and_low, bit_and_self}
use disagg_shmem_allocator.Layout.{BlockHdr, Region, magic_block, hoff_of_poff}
use disagg_shmem_allocator.Access.{is_admin, grants}
use disagg_shmem_allocator.Access.Rules.{grants_trans}
use disagg_shmem_allocator.Blocks.{blk_of_poff}
use disagg_shmem_allocator.Cap.{
  Cap, cap_null, cap_is_null, meta_perms, meta_epoch, meta_bounds, perms_mask, seal, shm_cap_derive,
  shm_cap_is_valid, shm_cap_deref, shm_cap_narrow,
}
use disagg_shmem_allocator.Cap.Pack.{
  unpack-pack, narrow_sum, meta_perms_div, meta_epoch_div, meta_bounds_mod,
}

-- A dereference succeeds exactly where the capability is valid and its sealed permissions and the
-- block's grant what is required, and then gives the payload of the block.
pub deref_iff :
    (r : Region) (c : Cap) (required p : ℕ)
    → (shm_cap_deref r c required ≡ some p) ↔ (
        (shm_cap_is_valid r c ≡ true)
        × (grants (meta_perms c.meta) required ≡ true)
        × (grants (blk_of_poff r c.addr).perms required ≡ true)
        × (p ≡ add64 (hoff_of_poff c.addr) 56))
unfolding shm_cap_deref shm_cap_is_valid
deref_iff r c required p = ground arith

-- Whether a capability names the block that stands at its address now.
pub is_valid_iff :
    (r : Region) (c : Cap)
    → (shm_cap_is_valid r c ≡ true) ↔ (
        (cap_is_null c ≡ false)
        × ((blk_of_poff r c.addr).magic ≡ magic_block)
        × ((blk_of_poff r c.addr).allocated ≢ 0)
        × (bit_and (blk_of_poff r c.addr).obj_id 0xFFFF ≡ meta_epoch c.meta)
        × ((blk_of_poff r c.addr).payload_cap % 2 ^ 32 ≡ meta_bounds c.meta))
unfolding shm_cap_is_valid
is_valid_iff r c = ground arith

-- The fields that `seal` packs are read back.
seal_fields :
    (b : BlockHdr) (off perms : ℕ)
    → let c = seal b off perms in
      (meta_perms c.meta ≡ bit_and perms 0xFF)
      × (c.meta / 2 ^ 48 % 2 ^ 8 ≡ bit_and b.owner 0xFF)
      × (meta_epoch c.meta ≡ bit_and b.obj_id 0xFFFF)
      × (meta_bounds c.meta ≡ b.payload_cap % 2 ^ 32)
      × (c.meta < 2 ^ 64)
unfolding seal
seal_fields b off perms =
    unpack-pack (bit_and perms 0xFF) (bit_and b.owner 0xFF) (bit_and b.obj_id 0xFFFF)
      (b.payload_cap % 2 ^ 32) (omega (arith, bit_and_low 8 perms))
      (omega (arith, bit_and_low 8 b.owner)) (omega (arith, bit_and_low 16 b.obj_id)) (omega arith)

-- The conditions under which a capability is derived at `off`.
pub record MayDerive (r : Region) (off user_id caller_perms grant_perms : ℕ) : Type 0 where
  pub magic : (blk_of_poff r off).magic ≡ magic_block
  pub tag : (blk_of_poff r off).allocated ≢ 0
  pub owner : (is_admin caller_perms ≡ true) ⊎ (user_id ≡ (blk_of_poff r off).owner)
  pub available : grants (bit_and (blk_of_poff r off).perms caller_perms) grant_perms ≡ true
  pub small : (blk_of_poff r off).payload_cap ≤ 0xFFFFFFFF

derive-seal :
    (r : Region) (off user_id caller_perms grant_perms : ℕ)
    → MayDerive r off user_id caller_perms grant_perms
    → shm_cap_derive r off user_id caller_perms grant_perms
      ≡ seal (blk_of_poff r off) off grant_perms
unfolding shm_cap_derive
derive-seal r off user_id caller_perms grant_perms m =
    rw
      (
        eq→== _ _ m.magic,
        ne→== _ _ m.tag,
        owner m.owner,
        m.available,
        ge→ltb 0xFFFFFFFF (blk_of_poff r off).payload_cap m.small,
      )
      refl
  where
    owner :
        (is_admin caller_perms ≡ true) ⊎ (user_id ≡ (blk_of_poff r off).owner)
        → (not (is_admin caller_perms) && not (user_id == (blk_of_poff r off).owner)) ≡ false
    owner o = ground arith

-- What `grants` of a conjunction gives for one side.
grants_left : (p q g : ℕ) → grants (bit_and p q) g ≡ true → grants p g ≡ true
unfolding grants
grants_left p q g h =
    let e : bit_and (bit_and p q) g ≡ g = ==→eq _ _ h in
    eq→== _ _ (
      ap (bit_and p) (sym e)
      ∙ ap (bit_and p) (bit_and_assoc p q g)
      ∙ sym (bit_and_assoc p p (bit_and q g))
      ∙ ap (λ t. bit_and t (bit_and q g)) (bit_and_self p)
      ∙ sym (bit_and_assoc p q g)
      ∙ e)

-- Where a capability may be derived at an offset other than 0 for permissions below 256, it opens
-- the block there for every permission among the granted ones.
pub deref-derive :
    (r : Region) (off user_id caller_perms grant_perms required : ℕ)
    → off ≢ 0
    → grant_perms < 256
    → MayDerive r off user_id caller_perms grant_perms
    → grants grant_perms required ≡ true
    → shm_cap_deref r (shm_cap_derive r off user_id caller_perms grant_perms) required
      ≡ some (add64 (hoff_of_poff off) 56)
deref-derive r off user_id caller_perms grant_perms required nz low m sub =
    rw (derive-seal r off user_id caller_perms grant_perms m) (
      (deref_iff r (seal b off grant_perms) required _).1 (
        (is_valid_iff r (seal b off grant_perms)).1 (
          unfold cap_is_null seal in (rw (ne→== off 0 nz) refl),
          unfold seal in m.magic,
          unfold seal in m.tag,
          unfold seal in sym fields.2,
          unfold seal in sym fields.3,
        ),
        ap (λ t. grants t required) (fields.0 ∙ low_bits) ∙ sub,
        unfold seal in
            (grants_trans b.perms grant_perms required
              (grants_left b.perms caller_perms grant_perms m.available) sub),
        unfold seal in refl,
      ))
  where
    b : BlockHdr
    b = blk_of_poff r off

    low_bits : bit_and grant_perms 0xFF ≡ grant_perms
    low_bits = omega (arith, bit_and_low 8 grant_perms, low)

    fields :
        let c = seal b off grant_perms in
        (meta_perms c.meta ≡ bit_and grant_perms 0xFF)
        × (c.meta / 2 ^ 48 % 2 ^ 8 ≡ bit_and b.owner 0xFF)
        × (meta_epoch c.meta ≡ bit_and b.obj_id 0xFFFF)
        × (meta_bounds c.meta ≡ b.payload_cap % 2 ^ 32)
        × (c.meta < 2 ^ 64)
    fields = seal_fields b off grant_perms

-- A narrowed capability, where narrowing is not refused.
narrow_fields :
    (c : Cap) (new_perms : ℕ)
    → c.meta < 2 ^ 64
    → let meta = bit_or (bit_and c.meta (not64 perms_mask)) (shl64 (bit_and new_perms 0xFF) 56) in
      (meta_perms meta ≡ bit_and new_perms 0xFF)
      × (meta_epoch meta ≡ meta_epoch c.meta)
      × (meta_bounds meta ≡ meta_bounds c.meta)
narrow_fields c new_perms small =
    let byte : bit_and new_perms 0xFF < 2 ^ 8 = omega (arith, bit_and_low 8 new_perms) in
    let sum = narrow_sum c.meta (bit_and new_perms 0xFF) small byte in
    (
      meta_perms_div _ ∙ ap (λ t. t / 2 ^ 56 % 2 ^ 8) sum ∙ omega arith,
      meta_epoch_div _
          ∙ ap (λ t. t / 2 ^ 32 % 2 ^ 16) sum
          ∙ omega arith
          ∙ sym (meta_epoch_div c.meta),
      meta_bounds_mod _ ∙ ap (λ t. t % 2 ^ 32) sum ∙ omega arith ∙ sym (meta_bounds_mod c.meta),
    )

grants_low : (p q : ℕ) → grants p q ≡ true → grants p (bit_and q 0xFF) ≡ true
unfolding grants
grants_low p q h = eq→== _ _ (sym (bit_and_assoc p q 0xFF) ∙ ap (λ t. bit_and t 0xFF) (==→eq _ _ h))

deref_null : (r : Region) (required p : ℕ) → shm_cap_deref r cap_null required ≢ some p
unfolding shm_cap_deref cap_is_null
deref_null r required p h = cc

narrow_cases :
    (c : Cap) (new_perms : ℕ)
    → (shm_cap_narrow c new_perms ≡ cap_null)
      ⊎ ((cap_is_null c ≡ false)
          × (grants (meta_perms c.meta) new_perms ≡ true)
          × (shm_cap_narrow c new_perms ≡ record {
            addr = c.addr;
            meta = bit_or (bit_and c.meta (not64 perms_mask)) (shl64 (bit_and new_perms 0xFF) 56);
          }))
unfolding shm_cap_narrow
narrow_cases c new_perms = elim (Bool-cases (cap_is_null c)) [
  | inl z ↦ inl (rw z refl)
  | inr nz ↦ elim (Bool-cases (grants (meta_perms c.meta) new_perms)) [
    | inr no_grant ↦ inl (rw (nz, no_grant) refl)
    | inl g ↦ inr (nz, g, rw (nz, g) refl)
  ]
]

-- For a capability whose second word has 64 bits, whatever the narrowed one opens, the old one
-- opens too, and the new mask grants it.
pub deref-narrow :
    (r : Region) (c : Cap) (new_perms required p : ℕ)
    → c.meta < 2 ^ 64
    → shm_cap_deref r (shm_cap_narrow c new_perms) required ≡ some p
    → (shm_cap_deref r c required ≡ some p) × (grants new_perms required ≡ true)
deref-narrow r c new_perms required p small h = elim (narrow_cases c new_perms) [
  | inl null ↦
      absurd (deref_null r required p (ap (λ t. shm_cap_deref r t required) (sym null) ∙ h))
  | inr (nz, g, e) ↦
      let n = narrow_fields c new_perms small in
      let (valid, sealed, block, at) =
        (deref_iff r _ required p).0 (ap (λ t. shm_cap_deref r t required) (sym e) ∙ h) in
      let (_, magic, tag, epoch, bounds) = (is_valid_iff r _).0 valid in
      let low : grants (bit_and new_perms 0xFF) required ≡ true =
        ap (λ t. grants t required) (sym n.0) ∙ sealed in
      (
        (deref_iff r c required p).1 (
          (is_valid_iff r c).1 (nz, magic, tag, epoch ∙ n.1, bounds ∙ n.2),
          grants_trans _ _ _ (grants_low _ _ g) low,
          block,
          at,
        ),
        grants_left new_perms 0xFF required low,
      )
]
