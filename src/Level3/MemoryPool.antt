-- ===== src/Level3/MemoryPool.antt =====
-- The memory pool of src/level3.c (`l3_memory_pool_t`). A block is its offset from `pool_memory`.
pub mod Blocks
use modembridge.Prelude.{
  ℕ, zero, suc, ◌+◌, ◌-◌, ◌*◌, ◌/◌, Bool, true, false, not, ◌||◌, Option, none, some, ltb, ◌==◌,
  if◌then◌else◌,
}

-- The results of the pool's functions.
pub data Result : Type 0 where
  pool_success invalid_param no_memory thread_error : Result

-- `l3_memory_pool_t`, without the fragmentation ratio, which is only stored, and the mutex.
-- `has_memory` says that `pool_memory` is not NULL.
pub record MemoryPool : Type 0 where
  pub has_memory : Bool
  pub pool_size : ℕ
  pub block_size : ℕ
  pub total_blocks : ℕ
  pub free_blocks : ℕ
  pub allocated_blocks : ℕ
  pub allocation_count : ℕ
  pub free_count : ℕ
  pub largest_free_block : ℕ

-- All bytes zero.
abbrev pub cleared : MemoryPool
cleared = record {
  has_memory = false;
  pool_size = 0;
  block_size = 0;
  total_blocks = 0;
  free_blocks = 0;
  allocated_blocks = 0;
  allocation_count = 0;
  free_count = 0;
  largest_free_block = 0;
}

-- `l3_memory_pool_init`, with what `malloc` and `pthread_mutex_init` answer. Where the mutex fails,
-- the memory is given back, but the pointer to it stays.
unfoldable pub init : Bool → Bool → ℕ → ℕ → MemoryPool → Result × MemoryPool
init mallocs locks pool_size block_size pool =
    let filled = record cleared {
      has_memory = true;
      pool_size = pool_size;
      block_size = block_size;
      total_blocks = pool_size / block_size;
      free_blocks = pool_size / block_size;
    } in
    if pool_size == 0 || block_size == 0
    then (invalid_param, pool)
    else if not mallocs
    then (no_memory, cleared)
    else if not locks
    then (thread_error, filled)
    else (pool_success, record filled { largest_free_block = pool_size })

-- `l3_memory_pool_alloc`: the block, and the pool.
unfoldable pub alloc : MemoryPool → Option ℕ × MemoryPool
alloc pool =
    if not pool.has_memory || pool.free_blocks == 0
    then (none, pool)
    else if ltb pool.allocated_blocks pool.total_blocks
    then (
      some (pool.allocated_blocks * pool.block_size),
      record pool {
        allocated_blocks = pool.allocated_blocks + 1;
        free_blocks = pool.free_blocks - 1;
        allocation_count = pool.allocation_count + 1;
        largest_free_block = (pool.free_blocks - 1) * pool.block_size;
      },
    )
    else (none, pool)

-- `l3_memory_pool_free`, which does not look at the block but for NULL.
unfoldable pub free : MemoryPool → Option ℕ → Result × MemoryPool
free pool none = (invalid_param, pool)
free pool (some block) =
    if ltb 0 pool.allocated_blocks
    then (
      pool_success,
      record pool {
        allocated_blocks = pool.allocated_blocks - 1;
        free_blocks = pool.free_blocks + 1;
        free_count = pool.free_count + 1;
        largest_free_block = (pool.free_blocks + 1) * pool.block_size;
      },
    )
    else (pool_success, pool)

-- `l3_memory_pool_cleanup`.
unfoldable pub cleanup : MemoryPool → MemoryPool
cleanup pool = cleared
