-- ===== src/MemoryPool/Tests.antt =====
-- Runs and instances of the theorems on the memory pool.
use x_server.Prelude.{
  ℕ, ◌-◌, ◌^◌, ◌≡◌, ◌≢◌, ◌⊎◌, refl, true, false, Option, none, some, List, [], ◌∷◌, arith,
  replicate,
}
use x_server.MemoryPool.{
  Block, MemoryPool, empty_segment, size_max, get_segment_id, align, put_block, create_memory_pool,
  best_fit, reuse_block, new_block, pool_malloc, pool_free, get_pool_stats,
}
use x_server.MemoryPool.Accounts.{IsValid, put_block-IsValid, used_bytes, block_size}
use x_server.MemoryPool.Gives.{Gives, pool_malloc-Gives}
use x_server.MemoryPool.Release.{create_memory_pool-IsValid}
use x_server.MemoryPool.Frees.{count_at, IsFreed, pool_free-IsFreed}
use x_server.MemoryPool.History.{malloc, free, compress, run, all_bytes, get_pool_stats-IsValid}

abbrev no_memory : Option ℕ
no_memory = none

abbrev first_block : Block
first_block = record { data_at = 1000; size = 256; in_use = false }

abbrev new_pool : MemoryPool
new_pool = record {
  segments =
      record { blocks = first_block ∷ []; total_size = 256; used_size = 0 }
      ∷ replicate 15 empty_segment;
  total_size = 256;
  used_size = 0;
  segment_count = 1;
  initial_size = 256;
}

new_pool_created : create_memory_pool 256 (some 1000) ≡ some new_pool
unfolding create_memory_pool get_segment_id
new_pool_created = refl

-- The size is aligned to 0 when it wraps round, so that the first idle block of 256 bytes fits.
huge_request : (pool_malloc new_pool (2 ^ 64 - 1) none).1 ≡ some 1000
unfolding pool_malloc align get_segment_id best_fit reuse_block
huge_request = refl

abbrev blocks : List Block
blocks = record first_block { size = 512 } ∷ record first_block { in_use = true } ∷ first_block ∷ []

picks_smallest : best_fit 200 size_max none 0 blocks ≡ some 2
unfolding best_fit
picks_smallest = refl

get_pool_stats-IsValid_example :
    (get_pool_stats (run new_pool (malloc 300 (some 2000) ∷ free (λ a. 0) 2000 ∷ compress ∷ [])) ≡ (
      all_bytes block_size
          (run new_pool (malloc 300 (some 2000) ∷ free (λ a. 0) 2000 ∷ compress ∷ [])),
      all_bytes used_bytes
          (run new_pool (malloc 300 (some 2000) ∷ free (λ a. 0) 2000 ∷ compress ∷ [])),
    ))
    × IsValid (run new_pool (malloc 300 (some 2000) ∷ free (λ a. 0) 2000 ∷ compress ∷ []))
get_pool_stats-IsValid_example =
    get_pool_stats-IsValid 256 (some 1000) new_pool
      (malloc 300 (some 2000) ∷ free (λ a. 0) 2000 ∷ compress ∷ []) new_pool_created

new_pool-IsValid : IsValid new_pool
new_pool-IsValid = create_memory_pool-IsValid 256 (some 1000) new_pool_created

pool_malloc-Gives_example :
    let (pool', answer) = pool_malloc new_pool 100 no_memory in
    IsValid pool'
    × (((answer ≡ none) × (pool' ≡ new_pool) × ((◌≡◌ {A = ℕ} 100 0) ⊎ (no_memory ≡ none)))
        ⊎ ((ptr : ℕ) × (answer ≡ some ptr) × Gives new_pool 100 no_memory pool' ptr))
pool_malloc-Gives_example = pool_malloc-Gives new_pool 100 no_memory new_pool-IsValid

-- A block of 304 bytes is in segment 1. Its memory is zeroed, and 0 names segment 0.
abbrev leaky_block : Block
leaky_block = record { data_at = 2000; size = 304; in_use = true }

abbrev leaky_pool : MemoryPool
leaky_pool = put_block new_pool 1 leaky_block

allocates_304 : pool_malloc new_pool 300 (some 2000) ≡ (leaky_pool, some 2000)
unfolding pool_malloc align get_segment_id best_fit new_block
allocates_304 = refl

leaky_pool-IsValid : IsValid leaky_pool
leaky_pool-IsValid = put_block-IsValid new_pool 1 leaky_block new_pool-IsValid (omega arith)

-- So it is not given back.
pool_free-IsFreed_example :
    ((get_segment_id 0 ≡ 1)
      × IsFreed leaky_pool 1 0 leaky_block (pool_free leaky_pool (λ a. 0) 2000))
    ⊎ ((get_segment_id 0 ≢ 1) × (pool_free leaky_pool (λ a. 0) 2000 ≡ leaky_pool))
unfolding count_at
pool_free-IsFreed_example =
    pool_free-IsFreed leaky_pool (λ a. 0) 1 0 leaky_block leaky_pool-IsValid (omega arith) refl refl
      (omega arith) refl
