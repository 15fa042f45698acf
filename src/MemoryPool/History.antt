-- ===== src/MemoryPool/History.antt =====
-- Every history of a pool.
use x_server.Prelude.{ℕ, ◌≡◌, refl, ap₂, ◌∙◌, arith, All, Option, some, List, [], ◌∷◌, sum_by}
use x_server.MemoryPool.{
  Block, Segment, MemoryPool, create_memory_pool, pool_malloc, pool_free, get_pool_stats,
}
use x_server.MemoryPool.Accounts.{IsValid, SegmentIsValid, used_bytes, block_size}
use x_server.MemoryPool.Gives.{pool_malloc-Gives}
use x_server.MemoryPool.Release.{create_memory_pool-IsValid, pool_free-IsValid}
use x_server.MemoryPool.Compress.{compress_memory_pool}
use x_server.MemoryPool.Compress.Keeps.{compress_memory_pool-IsValid}

-- A call, with what malloc gives it, or with what the memory holds.
pub data Call : Type 0 where
  malloc : ℕ → Option ℕ → Call
  free : (ℕ → ℕ) → ℕ → Call
  compress : Call

pub call : MemoryPool → Call → MemoryPool
call pool (malloc size fresh) = (pool_malloc pool size fresh).0
call pool (free word ptr) = pool_free pool word ptr
call pool compress = (compress_memory_pool pool).0

pub run : MemoryPool → List Call → MemoryPool
unfolding call
run pool [] = pool
run pool (c ∷ cs) = run (call pool c) cs

-- The bytes of all blocks, and of those in use.
abbrev pub all_bytes : (Block → ℕ) → MemoryPool → ℕ
all_bytes weight pool = sum_by (λ (s : Segment). sum_by weight s.blocks) pool.segments

call-IsValid : (pool : MemoryPool) (c : Call) → IsValid pool → IsValid (call pool c)
unfolding call
call-IsValid pool (malloc size fresh) v = (pool_malloc-Gives pool size fresh v).0
call-IsValid pool (free word ptr) v = pool_free-IsValid pool word ptr v
call-IsValid pool compress v = compress_memory_pool-IsValid pool v

run-IsValid : (pool : MemoryPool) (cs : List Call) → IsValid pool → IsValid (run pool cs)
unfolding run
run-IsValid pool [] v = v
run-IsValid pool (c ∷ cs) v = run-IsValid (call pool c) cs (call-IsValid pool c v)

all_bytes_lem :
    (ss : List Segment)
    → All SegmentIsValid ss
    → (sum_by (λ (s : Segment). s.total_size) ss
        ≡ sum_by (λ (s : Segment). sum_by block_size s.blocks) ss)
      × (sum_by (λ (s : Segment). s.used_size) ss
          ≡ sum_by (λ (s : Segment). sum_by used_bytes s.blocks) ss)
all_bytes_lem [] v = (refl, refl)
all_bytes_lem (s ∷ ss) (v, vs) =
    let (total, used) = all_bytes_lem ss vs in
    (omega (arith, total, v.total), omega (arith, used, v.used))

-- After every sequence of calls on a pool that was created, the totals that get_pool_stats gives are
-- the bytes of all blocks of the pool and the bytes of those in use, and every segment keeps the
-- sums over its own blocks.
pub get_pool_stats-IsValid :
    (initial_size : ℕ) (fresh : Option ℕ) (pool : MemoryPool) (cs : List Call)
    → create_memory_pool initial_size fresh ≡ some pool
    → (get_pool_stats (run pool cs)
        ≡ (all_bytes block_size (run pool cs), all_bytes used_bytes (run pool cs)))
      × IsValid (run pool cs)
get_pool_stats-IsValid initial_size fresh pool cs e =
    let v = run-IsValid pool cs (create_memory_pool-IsValid initial_size fresh e) in
    let (total, used) = all_bytes_lem (run pool cs).segments v.each in
    (ap₂ (λ t u. (t, u)) (v.total ∙ total) (v.used ∙ used), v)
