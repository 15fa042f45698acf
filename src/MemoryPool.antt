-- ===== src/MemoryPool.antt =====
-- src/memory_pool.c: the segments of the pool and its operations. include/memory_pool.h:
-- memory_block_t. An operation runs under the mutex of one segment, compress_memory_pool under the
-- global one too. The sum of all sizes fits a size_t.
pub mod Compress
pub mod BestFit
pub mod Accounts
pub mod Gives
pub mod Release
pub mod Frees
pub mod History
mod Tests
use x_server.Prelude.{
  ℕ, zero, suc, ◌+◌, ◌-◌, ◌*◌, ◌/◌, ◌%◌, ◌^◌, Bool, true, false, not, ◌&&◌, Option, none, some,
  List, [], ◌∷◌, ◌++◌, ◌==◌, ltb, leb, if◌then◌else◌, length, get_elem?, get_or, set, replicate,
}

-- memory_block_t; `data` is the address of the data.
pub record Block : Type 0 where
  pub data_at : ℕ
  pub size : ℕ
  pub in_use : Bool

pub record Segment : Type 0 where
  pub blocks : List Block
  pub total_size : ℕ
  pub used_size : ℕ

pub record MemoryPool : Type 0 where
  pub segments : List Segment
  pub total_size : ℕ
  pub used_size : ℕ
  pub segment_count : ℕ
  pub initial_size : ℕ

abbrev pub min_block_size : ℕ
min_block_size = 64

abbrev pub size_max : ℕ
size_max = 2 ^ 64 - 1

-- SEGMENT_COUNT
abbrev pub all_segments : ℕ
all_segments = 16

abbrev pub empty_segment : Segment
empty_segment = record { blocks = []; total_size = 0; used_size = 0 }

unfoldable pub get_segment_id : ℕ → ℕ
get_segment_id size =
    if leb size 256
    then 0
    else if leb size 512
    then 1
    else if leb size 1024
    then 2
    else if leb size 2048
    then 3
    else if leb size 4096
    then 4
    else if leb size 8192
    then 5
    else if leb size 16384
    then 6
    else if leb size 32768
    then 7
    else if leb size 65536
    then 8
    else if leb size 131072
    then 9
    else if leb size 262144
    then 10
    else if leb size 524288
    then 11
    else if leb size 1048576
    then 12
    else 13

-- `(size + 7) & ~7` on 64 bits.
unfoldable pub align : ℕ → ℕ
align size = (size + 7) % 2 ^ 64 / 8 * 8

abbrev pub segment_at : MemoryPool → ℕ → Segment
segment_at pool id = get_or pool.segments id empty_segment

-- Adds a block to a segment that holds `blocks`, with the statistics that all blocks change.
abbrev pub put_block : MemoryPool → ℕ → Block → MemoryPool
put_block pool id block =
    let segment = segment_at pool id in
    record pool {
      segments = set pool.segments id (record segment {
        blocks = segment.blocks ++ block ∷ [];
        total_size = segment.total_size + block.size;
        used_size = segment.used_size + (if block.in_use then block.size else 0);
      });
      total_size = pool.total_size + block.size;
      used_size = pool.used_size + (if block.in_use then block.size else 0);
    }

-- `fresh` is the address that malloc gives for the data of the first block.
unfoldable pub create_memory_pool : ℕ → Option ℕ → Option MemoryPool
unfolding get_segment_id
create_memory_pool initial_size none = none
create_memory_pool initial_size (some fresh) =
    let size = (if ltb initial_size min_block_size then min_block_size else initial_size) in
    some (
      put_block
        (record {
          segments = replicate all_segments empty_segment;
          total_size = 0;
          used_size = 0;
          segment_count = 1;
          initial_size = size;
        })
        (get_segment_id size) (record { data_at = fresh; size = size; in_use = false }))

-- The search loop of pool_malloc, on best_fit_size and the index of best_fit. An exact match ends it.
unfoldable pub best_fit : ℕ → ℕ → Option ℕ → ℕ → List Block → Option ℕ
best_fit aligned_size best_fit_size best i [] = best
best_fit aligned_size best_fit_size best i (b ∷ bs) =
    let better = not b.in_use && leb aligned_size b.size && ltb b.size best_fit_size in
    let rest =
      best_fit aligned_size (if better then b.size else best_fit_size)
        (if better then some i else best) (suc i) bs in
    if better && b.size == aligned_size then some i else rest

-- A found block is marked, and its size counted as used.
unfoldable pub reuse_block : MemoryPool → ℕ → ℕ → Block → MemoryPool × Option ℕ
reuse_block pool id i b =
    let segment = segment_at pool id in
    (
      record pool {
        segments = set pool.segments id (record segment {
          blocks = set segment.blocks i (record b { in_use = true });
          used_size = segment.used_size + b.size;
        });
        used_size = pool.used_size + b.size;
      },
      some b.data_at,
    )

-- No block fits. `fresh` is what malloc gives for the data of a new one.
unfoldable pub new_block : MemoryPool → ℕ → ℕ → Option ℕ → MemoryPool × Option ℕ
new_block pool id aligned_size none = (pool, none)
new_block pool id aligned_size (some fresh) =
    let size = (if ltb min_block_size aligned_size then aligned_size else min_block_size) in
    (put_block pool id (record { data_at = fresh; size = size; in_use = true }), some fresh)

abbrev pub null_block : Block
null_block = record { data_at = 0; size = 0; in_use = false }

-- The address that is returned; its memory is zeroed.
unfoldable pub pool_malloc : MemoryPool → ℕ → Option ℕ → MemoryPool × Option ℕ
pool_malloc pool size fresh =
    let aligned_size = align size in
    let id = get_segment_id aligned_size in
    let blocks = (segment_at pool id).blocks in
    if size == 0
    then (pool, none)
    else if leb all_segments id
    then (pool, none)
    else elim (best_fit aligned_size size_max none 0 blocks) [
      | some i ↦ reuse_block pool id i (get_or blocks i null_block)
      | none ↦ new_block pool id aligned_size fresh
    ]

-- The loop of pool_free: the index of the block whose data is at `ptr`.
unfoldable pub find_block : ℕ → ℕ → List Block → Option ℕ
find_block ptr i [] = none
find_block ptr i (b ∷ bs) =
    let rest = find_block ptr (suc i) bs in if b.data_at == ptr then some i else rest

unfoldable pub release_block : MemoryPool → ℕ → ℕ → Block → MemoryPool
release_block pool id i b =
    let segment = segment_at pool id in
    if b.in_use
    then record pool {
      segments = set pool.segments id (record segment {
        blocks = set segment.blocks i (record b { in_use = false });
        used_size = segment.used_size - b.size;
      });
      used_size = pool.used_size - b.size;
    }
    else pool

-- The code takes `ptr`, the address of the data, for that of the block, and reads its size there:
-- `word ptr` is the size_t that stands 8 bytes behind `ptr`.
unfoldable pub pool_free : MemoryPool → (ℕ → ℕ) → ℕ → MemoryPool
pool_free pool word ptr =
    let id = get_segment_id (word ptr) in
    let blocks = (segment_at pool id).blocks in
    if ptr == 0
    then pool
    else if leb all_segments id
    then pool
    else elim (find_block ptr 0 blocks) [
      | none ↦ pool
      | some i ↦ release_block pool id i (get_or blocks i null_block)
    ]

abbrev pub get_pool_stats : MemoryPool → ℕ × ℕ
get_pool_stats pool = (pool.total_size, pool.used_size)
