-- ===== src/Fingerprint.antt =====
-- The fingerprints of src/shm_ns.c. The file comes as what the calls of `read` answer, and the inode
-- as what `stat` answers.
pub mod Injective
use disagg_shmem_allocator.Base.{
  ℕ, ◌≡◌, ◌↔◌, ◌≢◌, refl, sym, ap, ◌∙◌, List, [], ◌∷◌, ◌++◌, Option, none, some, bit_xor, arith,
  ◌==◌, if◌then◌else◌,
}
use disagg_shmem_allocator.Word.{mul64}

abbrev pub fnv_offset_basis : ℕ
fnv_offset_basis = 14695981039346656037

abbrev pub fnv_prime : ℕ
fnv_prime = 1099511628211

unfoldable pub shm_ns_ipc_inode : Option ℕ → ℕ
shm_ns_ipc_inode none = 0
shm_ns_ipc_inode (some inode) = inode

-- One byte of a chunk.
unfoldable pub mix : (hash byte : ℕ) → ℕ
mix hash byte = mul64 (bit_xor hash byte) fnv_prime

unfoldable pub mix_chunk : ℕ → List ℕ → ℕ
mix_chunk hash [] = hash
mix_chunk hash (b ∷ bs) = mix_chunk (mix hash b) bs

-- The loop over the answers of `read`: the bytes that it has read, or `none` where it fails. It ends
-- at the first answer that is empty or a failure.
unfoldable pub mix_reads : ℕ → List (Option (List ℕ)) → ℕ
mix_reads hash [] = hash
mix_reads hash (none ∷ reads) = hash
mix_reads hash (some [] ∷ reads) = hash
mix_reads hash (some (b ∷ bs) ∷ reads) = mix_reads (mix_chunk hash (b ∷ bs)) reads

-- `none` is a file that cannot be opened.
unfoldable pub shm_ns_cgroup_hash : Option (List (Option (List ℕ))) → ℕ
shm_ns_cgroup_hash none = 0
shm_ns_cgroup_hash (some reads) =
    let hash = mix_reads fnv_offset_basis reads in if hash == 0 then 1 else hash

-- The hash is 0 exactly where the file cannot be opened, so that a readable one never switches the
-- enforcement off.
pub cgroup_hash-zero_iff :
    (file : Option (List (Option (List ℕ)))) → (shm_ns_cgroup_hash file ≡ 0) ↔ (file ≡ none)
unfolding shm_ns_cgroup_hash
cgroup_hash-zero_iff none = (λ e. refl, λ e. refl)
cgroup_hash-zero_iff (some reads) = ground arith
