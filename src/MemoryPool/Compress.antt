-- ===== src/MemoryPool/Compress.antt =====
-- src/memory_pool.c: compress_memory_pool, which frees idle blocks.
pub mod Keeps
use x_server.Prelude.{
  ℕ, zero, suc, ◌+◌, ◌-◌, ◌*◌, Bool, true, false, not, ◌&&◌, List, [], ◌∷◌, ltb, leb, if◌then◌else◌,
}
use x_server.MemoryPool.{Block, Segment, MemoryPool}

-- How many idle blocks of each size may stay.
pub record Quota : Type 0 where
  pub small : ℕ
  pub medium : ℕ
  pub large : ℕ

-- `usage_ratio < 0.5`, on a segment with blocks; without blocks 0 / 0 compares as false.
abbrev pub is_aggressive : Segment → Bool
is_aggressive s = ltb (2 * s.used_size) s.total_size

abbrev pub max_blocks : Bool → Quota
max_blocks aggressive = record {
  small = if aggressive then 1 else 2;
  medium = if aggressive then 1 else 2;
  large = if aggressive then 0 else 1;
}

-- What is left of the quota after an idle block, and whether the block stays.
unfoldable pub keep_idle : Quota → ℕ → Quota × Bool
keep_idle q size =
    if leb size 1024
    then (record q { small = q.small - 1 }, ltb 0 q.small)
    else if leb size 8192
    then (record q { medium = q.medium - 1 }, ltb 0 q.medium)
    else (record q { large = q.large - 1 }, ltb 0 q.large)

-- The loop over the blocks of a segment: the blocks that stay, the bytes freed and the blocks freed.
-- The code counts up to the quota, the model counts down from it.
unfoldable pub compress_blocks : Quota → List Block → List Block × ℕ × ℕ
compress_blocks q [] = ([], 0, 0)
compress_blocks q (b ∷ bs) =
    let (q', stays) = keep_idle q b.size in
    let (kept, bytes, freed) = compress_blocks (if b.in_use then q else q') bs in
    if b.in_use
    then (b ∷ kept, bytes, freed)
    else if stays
    then (b ∷ kept, bytes, freed)
    else (kept, b.size + bytes, suc freed)

-- The loop over the segments, with the bytes and the blocks freed.
unfoldable pub compress_segments : List Segment → List Segment × ℕ × ℕ
compress_segments [] = ([], 0, 0)
compress_segments (s ∷ ss) =
    let (kept, bytes, freed) = compress_blocks (max_blocks (is_aggressive s)) s.blocks in
    let (rest, more_bytes, more_freed) = compress_segments ss in
    (
      record s { blocks = kept; total_size = s.total_size - bytes } ∷ rest,
      bytes + more_bytes,
      freed + more_freed,
    )

-- The new pool, and the number of blocks freed.
unfoldable pub compress_memory_pool : MemoryPool → MemoryPool × ℕ
compress_memory_pool pool =
    let (segments, bytes, freed) = compress_segments pool.segments in
    (record pool { segments = segments; total_size = pool.total_size - bytes }, freed)
