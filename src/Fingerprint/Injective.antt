-- ===== src/Fingerprint/Injective.antt =====
-- A changed byte changes the fingerprint of src/shm_ns.c: each step of the mixing is one-to-one in
-- the hash and in the byte, since the prime is odd.
use disagg_shmem_allocator.Base.{
  ℕ, ◌^◌, ◌<◌, ◌≡◌, ◌≢◌, refl, sym, ◌∙◌, List, [], ◌∷◌, ◌++◌, Option, none, some, bit_xor, arith,
}
use disagg_shmem_allocator.Word.{mul64}
use disagg_shmem_allocator.Word.Xor.{bit_xor_left, bit_xor_right, bit_xor_bound}
use disagg_shmem_allocator.Fingerprint.{fnv_prime, mix, mix_chunk, mix_reads}

-- Every element is a byte.
unfoldable pub AreBytes : List ℕ → Type 0
AreBytes [] = Unit
AreBytes (b ∷ bs) = (b < 256) × AreBytes bs

-- Every answer of `read` consists of bytes.
unfoldable pub ReadsBytes : List (Option (List ℕ)) → Type 0
ReadsBytes [] = Unit
ReadsBytes (none ∷ reads) = ReadsBytes reads
ReadsBytes (some bs ∷ reads) = AreBytes bs × ReadsBytes reads

times_prime : (x y : ℕ) → x < 2 ^ 64 → y < 2 ^ 64 → mul64 x fnv_prime ≡ mul64 y fnv_prime → x ≡ y
times_prime x y x_small y_small e = omega arith

mix_bound : (hash byte : ℕ) → mix hash byte < 2 ^ 64
unfolding mix
mix_bound hash byte = omega arith

mixed : (hash byte : ℕ) → hash < 2 ^ 64 → byte < 256 → bit_xor hash byte < 2 ^ 64
mixed hash byte small is_byte = bit_xor_bound 64 hash byte small (omega arith)

mix-hash : (x y byte : ℕ) → x < 2 ^ 64 → y < 2 ^ 64 → byte < 256 → mix x byte ≡ mix y byte → x ≡ y
unfolding mix
mix-hash x y byte x_small y_small is_byte e =
    bit_xor_left x y byte
      (times_prime _ _ (mixed x byte x_small is_byte) (mixed y byte y_small is_byte) e)

mix-byte : (hash a b : ℕ) → hash < 2 ^ 64 → a < 256 → b < 256 → mix hash a ≡ mix hash b → a ≡ b
unfolding mix
mix-byte hash a b small a_byte b_byte e =
    bit_xor_right hash a b
      (times_prime _ _ (mixed hash a small a_byte) (mixed hash b small b_byte) e)

mix_chunk_bound : (hash : ℕ) (bytes : List ℕ) → hash < 2 ^ 64 → mix_chunk hash bytes < 2 ^ 64
unfolding mix_chunk
mix_chunk_bound hash [] small = small
mix_chunk_bound hash (b ∷ bs) small = mix_chunk_bound (mix hash b) bs (mix_bound hash b)

mix_chunk-hash :
    (x y : ℕ) (bytes : List ℕ)
    → x < 2 ^ 64
    → y < 2 ^ 64
    → AreBytes bytes
    → mix_chunk x bytes ≡ mix_chunk y bytes
    → x ≡ y
unfolding mix_chunk AreBytes
mix_chunk-hash x y [] x_small y_small are e = e
mix_chunk-hash x y (b ∷ bs) x_small y_small are e =
    mix-hash x y b x_small y_small are.0
      (mix_chunk-hash (mix x b) (mix y b) bs (mix_bound x b) (mix_bound y b) are.1 e)

mix_reads-hash :
    (x y : ℕ) (reads : List (Option (List ℕ)))
    → x < 2 ^ 64
    → y < 2 ^ 64
    → ReadsBytes reads
    → mix_reads x reads ≡ mix_reads y reads
    → x ≡ y
unfolding mix_reads ReadsBytes
mix_reads-hash x y [] x_small y_small are e = e
mix_reads-hash x y (none ∷ reads) x_small y_small are e = e
mix_reads-hash x y (some [] ∷ reads) x_small y_small are e = e
mix_reads-hash x y (some (b ∷ bs) ∷ reads) x_small y_small are e =
    mix_chunk-hash x y (b ∷ bs) x_small y_small are.0 (
      mix_reads-hash (mix_chunk x (b ∷ bs)) (mix_chunk y (b ∷ bs)) reads
        (mix_chunk_bound x (b ∷ bs) x_small) (mix_chunk_bound y (b ∷ bs) y_small) are.1 e)

mix_chunk-byte :
    (hash : ℕ) (before : List ℕ) (a b : ℕ) (after : List ℕ)
    → hash < 2 ^ 64
    → a < 256
    → b < 256
    → AreBytes after
    → mix_chunk hash (before ++ a ∷ after) ≡ mix_chunk hash (before ++ b ∷ after)
    → a ≡ b
unfolding mix_chunk
mix_chunk-byte hash [] a b after small a_byte b_byte are e =
    mix-byte hash a b small a_byte b_byte
      (mix_chunk-hash (mix hash a) (mix hash b) after (mix_bound hash a) (mix_bound hash b) are e)
mix_chunk-byte hash (x ∷ xs) a b after small a_byte b_byte are e =
    mix_chunk-byte (mix hash x) xs a b after (mix_bound hash x) a_byte b_byte are e

mix_reads-chunk :
    (hash : ℕ) (chunk : List ℕ) (reads : List (Option (List ℕ)))
    → chunk ≢ []
    → mix_reads hash (some chunk ∷ reads) ≡ mix_reads (mix_chunk hash chunk) reads
unfolding mix_reads
mix_reads-chunk hash [] reads some_byte = absurd (some_byte refl)
mix_reads-chunk hash (b ∷ bs) reads some_byte = refl

not_empty : (before : List ℕ) (a : ℕ) (after : List ℕ) → before ++ a ∷ after ≢ []
not_empty [] a after e = cc
not_empty (x ∷ xs) a after e = cc

-- From a 64-bit hash, over answers of `read` that consist of bytes: two runs that differ in one byte
-- of what they read end with different hashes, whatever is read before and after it.
pub mix_reads-byte :
    (hash : ℕ) (before : List ℕ) (a b : ℕ) (after : List ℕ) (reads : List (Option (List ℕ)))
    → hash < 2 ^ 64
    → a < 256
    → b < 256
    → AreBytes after
    → ReadsBytes reads
    → a ≢ b
    → mix_reads hash (some (before ++ a ∷ after) ∷ reads)
      ≢ mix_reads hash (some (before ++ b ∷ after) ∷ reads)
mix_reads-byte hash before a b after reads small a_byte b_byte are are_reads differs e = differs (
    mix_chunk-byte hash before a b after small a_byte b_byte are (
      mix_reads-hash _ _ reads (mix_chunk_bound hash (before ++ a ∷ after) small)
        (mix_chunk_bound hash (before ++ b ∷ after) small) are_reads
        (sym (mix_reads-chunk hash _ reads (not_empty before a after))
          ∙ e
          ∙ mix_reads-chunk hash _ reads (not_empty before b after))))
