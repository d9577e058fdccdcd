-- ===== src/Persist.antt =====
-- The cache maintenance of src/shm_persist.h: the mode that the build's macros select, the
-- instructions of each mode, and `shm_persist`, which walks a range by cache lines. The
-- instructions are emitted as a list; what they do to memory is the hardware's.
pub mod Lines
use disagg_shmem_allocator.Base.{
  ℕ, zero, suc, ◌+◌, ◌-◌, ◌/◌, Bool, not, ◌&&◌, ◌||◌, Option, none, some, List, [], ◌∷◌, ◌++◌, Run,
  returns, diverges, ◌>>=◌, bit_and, ltb, if◌then◌else◌,
}
use disagg_shmem_allocator.Word.{add64, not64}

-- SHM_CACHE_LINE_BYTES, unless the build sets another.
abbrev pub cache_line_bytes : ℕ
cache_line_bytes = 64

pub data CacheMode : Type 0 where
  clflush clflushopt clwb cbo_flush cbo_clean no_mode : CacheMode

-- The macros SHM_CACHE_* that are defined, and the target.
pub record Macros : Type 0 where
  pub clflush : Bool
  pub clflushopt : Bool
  pub clwb : Bool
  pub cbo_flush : Bool
  pub cbo_clean : Bool
  pub x86 : Bool
  pub riscv : Bool

abbrev some_x86 : Macros → Bool
some_x86 d = d.clflush || d.clflushopt || d.clwb

abbrev some_riscv : Macros → Bool
some_riscv d = d.cbo_flush || d.cbo_clean

-- `none` where the preprocessor stops with an error.
unfoldable pub select_mode : Macros → Option CacheMode
select_mode d =
    if d.clflush && d.clflushopt
    then none
    else if d.clflush && d.clwb
    then none
    else if d.clflushopt && d.clwb
    then none
    else if d.cbo_flush && d.cbo_clean
    then none
    else if some_x86 d && some_riscv d
    then none
    else if some_x86 d && not d.x86
    then none
    else if some_riscv d && not d.riscv
    then none
    else if d.clflush
    then some CacheMode.clflush
    else if d.clflushopt
    then some CacheMode.clflushopt
    else if d.clwb
    then some CacheMode.clwb
    else if d.cbo_flush
    then some CacheMode.cbo_flush
    else if d.cbo_clean
    then some CacheMode.cbo_clean
    else some no_mode

-- An instruction of an `asm` statement; a flush carries the address it is given.
pub data Insn : Type 0 where
  insn_clflush insn_clflushopt insn_clwb insn_cbo_flush insn_cbo_clean : ℕ → Insn
  insn_sfence insn_fence_rw_rw : Insn

-- With no mode selected the statement is empty, a barrier for the compiler only.
unfoldable pub shm_flush_line : CacheMode → ℕ → List Insn
shm_flush_line CacheMode.clflush p = insn_clflush p ∷ []
shm_flush_line CacheMode.clflushopt p = insn_clflushopt p ∷ []
shm_flush_line CacheMode.clwb p = insn_clwb p ∷ []
shm_flush_line CacheMode.cbo_flush p = insn_cbo_flush p ∷ []
shm_flush_line CacheMode.cbo_clean p = insn_cbo_clean p ∷ []
shm_flush_line no_mode p = []

unfoldable pub shm_drain : CacheMode → List Insn
shm_drain CacheMode.clflush = insn_sfence ∷ []
shm_drain CacheMode.clflushopt = insn_sfence ∷ []
shm_drain CacheMode.clwb = insn_sfence ∷ []
shm_drain CacheMode.cbo_flush = insn_fence_rw_rw ∷ []
shm_drain CacheMode.cbo_clean = insn_fence_rw_rw ∷ []
shm_drain no_mode = []

-- The rounds of the loop, from `p` on.
unfoldable pub flush_walk : CacheMode → (fuel p end : ℕ) → Run (List Insn)
flush_walk mode zero p end = diverges
flush_walk mode (suc fuel) p end =
    let rest = flush_walk mode fuel (add64 p cache_line_bytes) end in
    if ltb p end then (do later ← rest; returns (shm_flush_line mode p ++ later)) else returns []

-- One round for each line of the range, one more for the line it may share with what precedes it,
-- and one for the last test.
abbrev pub flush_fuel : ℕ → ℕ
flush_fuel len = len / 64 + 3

unfoldable pub shm_persist : CacheMode → (addr len : ℕ) → Run (List Insn)
shm_persist mode addr len =
    flush_walk mode (flush_fuel len) (bit_and addr (not64 (cache_line_bytes - 1))) (add64 addr len)
