-- ===== src/Lib.antt =====
-- A verification library for the disaggregated shared-memory allocator: a region of shared memory
-- that several hosts map, with a heap of blocks, a directory of objects, and capabilities for blocks.
--
-- The parts of the program, and the files that model them:
--   Word        64-bit arithmetic with wrap-around, and bit operations (Word/Bits).
--   Layout      src/shm_internal.h: block headers, region header, directory entries, the handle with
--               the mapped memory (`Region`), and the offset helpers. Layout/Align: rounding up.
--   Heap        src/shm_alloc.c: freelist_insert, freelist_remove, heap_alloc_block, heap_free_block.
--               The state is the region; a block is named by its header's offset from the heap base.
--               Heap/Seg relates the memory to a list of chunks; Heap/State holds the invariant and
--               its children the refinement theorems; the other children carry the proofs.
--   Access      check_block_access and check_dir_access, the permissions and the error codes.
--   Directory   dir_find_by_id, dir_find_by_name, dir_find_free_slot, dir_count_live.
--   Objects     shm_alloc, shm_free, shm_lookup, shm_lookup_by_name, shm_dir_next.
--               Objects/Invariant is the region's invariant: the heap's, and that live entries and
--               live blocks correspond to one another.
--   Blocks      shm_ptr, shm_block_info, shm_block_set_perms, shm_pool_stats.
--   Resize      shm_resize: shrink in place, grow into a free successor, move. Its children follow the
--               paths: Trim, Extend, InPlace, Grow, Copy, Relocate; Outcome says what a resize may do.
--   Lifecycle   region_init, shm_region_open, shm_region_close.
--   Lock        region_lock and region_unlock. Lock/System: hosts that share the region, take the
--               lock, run operations in several steps, between which they write anything to the
--               region, and may die at any point. Lock/Owned: who holds the lock. Lock/Serial: how
--               interleaved operations become one sequence.
--   Persist     src/shm_persist.h: the cache modes, their instructions, and shm_persist.
--   Cap         src/shm_cap.c and include/shm_cap.h: derive, dereference, narrow, validate.
--               Cap/Typed: the class of include/shm_cap.hpp. Cap/Macros: the typed macros.
--   Handle      include/shm_alloc.hpp: typed handles, make and free, casts. Handle/Macros: the typed
--               macros of include/shm_alloc.h.
--   Fingerprint src/shm_ns.c: the namespace inode and the cgroup hash. Fingerprint/Injective: that
--               the mixing is one-to-one in the hash and in the byte, by Word/Xor.
--   Session     sequences of operations on one region by any hosts, and what they were called with and
--               answered (`Op`). Session/Errors: refusals.
--               Session/Payloads: what becomes of the payloads. Session/Cases: shared case analysis.
--   Store       an abstract store of objects by ID, and what each operation, with its caller and its
--               answer, does to it, which the sequences of operations implement.
--   Examples    the theorems at concrete inputs.
-- Allocation and resizing call the heap and the directory; both the entry points and the capability
-- code read the block headers, which repeat what the directory says. The handles and the typed
-- capabilities call the entry points.
--
-- How the memory is modelled. A region is a typed store: the region header, the directory slots by
-- index, the block header at each heap offset, and the heap's bytes. memset and memcpy act on the
-- bytes and on every header that lies wholly inside their range; a header that is overwritten in
-- part, and an access outside the mapping, are not modelled. In the program headers and payloads are
-- one memory; here a block header and the bytes at its place are kept apart, so that a write of a
-- header field does not change the bytes, and a theorem on bytes speaks of what memset, memcpy and
-- the constructors and destructors of C++ write. Sizes are those of an LP64 system: 56
-- bytes for a block header, 200 for the region header with its mutex, 96 for a directory entry. A C
-- string is the list of its bytes. An operation takes the region and returns it with the answer;
-- out-parameters are part of the answer (the handles take and return them), and the tests for NULL
-- arguments are left out, since the arguments are given. A pointer into the region is the offset of
-- the payload. A C++ type is a record of its size, its tag, its traits, and what its constructor and
-- destructor do to the bytes.
--
-- Loops. The walks along the free list run on fuel, one round for each byte of the mapping and one
-- more; a chunk takes 64 bytes at least, so that is enough, and the theorems on the heap prove it.
-- The scans of the directory are recursions on the number of slots left. The loop of shm_persist has
-- one round for each 64 bytes and three more, and a walk over the directory one for each slot and
-- one more; both are proved to be enough.
--
-- What is not modelled. The operations call shm_persist and shm_drain, which do not change what
-- memory reads as; these calls are left out of the operations, and Persist models the two functions
-- themselves. shm_alloc, shm_free, shm_resize, shm_lookup, shm_lookup_by_name, shm_block_set_perms, the
-- attach and the close hold the region's lock while they use the region. shm_ptr, shm_block_info,
-- shm_dir_next, shm_pool_stats and the capability functions take no lock: they are modelled on a
-- region that does not change while they run, and what they read in the middle of another host's
-- operation is not modelled. The mutex is the C library's: a parameter of Lock, with the laws of a robust mutex. The system calls of
-- shm_region_open answer through a record (`Os`), and those that take or give back a resource are
-- recorded in order. shm_region_base is left out, since the mapping has no address in the model, and
-- so are exceptions that a C++ constructor throws.
pub mod Base
pub mod Word
pub mod Layout
pub mod Heap
pub mod Access
pub mod Directory
pub mod Objects
pub mod Blocks
pub mod Resize
pub mod Lifecycle
pub mod Handle
pub mod Lock
pub mod Persist
pub mod Session
pub mod Store
pub mod Examples
pub mod Cap
pub mod Fingerprint
