-- ===== src/MemoryPool/Compress/Keeps.antt =====
-- What compress_memory_pool keeps.
use x_server.Prelude.{
  ℕ, ◌+◌, ◌≤◌, ◌≡◌, refl, sym, ◌∙◌, inl, inr, Bool-cases, List, [], ◌∷◌, if◌then◌else◌, arith,
  length, All, sum_by,
}
use x_server.MemoryPool.{Block, Segment, MemoryPool}
use x_server.MemoryPool.Accounts.{IsValid, SegmentIsValid, used_bytes, block_size}
use x_server.MemoryPool.Compress.{
  Quota, keep_idle, compress_blocks, compress_segments, compress_memory_pool, max_blocks,
  is_aggressive,
}

-- The blocks in use, in their order, and the number of the idle ones.
abbrev pub blocks_in_use : List Block → List Block
blocks_in_use [] = []
blocks_in_use (b ∷ bs) = let rest = blocks_in_use bs in if b.in_use then b ∷ rest else rest

abbrev pub idle_blocks : List Block → ℕ
idle_blocks [] = 0
idle_blocks (b ∷ bs) = (if b.in_use then 0 else 1) + idle_blocks bs

abbrev pub quota_sum : Quota → ℕ
quota_sum q = q.small + q.medium + q.large

keep_idle-sum :
    (q : Quota) (size : ℕ)
    → let (q', stays) = keep_idle q size in (if stays then 1 else 0) + quota_sum q' ≤ quota_sum q
unfolding keep_idle
keep_idle-sum q size = ground arith

-- Of the blocks of a segment, those in use all stay, in their order; no more idle ones stay than the
-- quota has; and the bytes freed are those of the blocks that are gone.
compress_blocks_lem :
    (q : Quota) (bs : List Block)
    → let (kept, bytes, freed) = compress_blocks q bs in
      (blocks_in_use kept ≡ blocks_in_use bs)
      × (idle_blocks kept ≤ quota_sum q)
      × (sum_by block_size kept + bytes ≡ sum_by block_size bs)
      × (length kept + freed ≡ length bs)
      × (sum_by used_bytes kept ≡ sum_by used_bytes bs)
unfolding compress_blocks
compress_blocks_lem q [] = (refl, omega arith, refl, refl, refl)
compress_blocks_lem q (b ∷ bs) = elim (Bool-cases b.in_use) [
  | inl used ↦ ground (arith, used, compress_blocks_lem q bs)
  | inr idle ↦
      ground (arith, idle, keep_idle-sum q b.size, compress_blocks_lem (keep_idle q b.size).0 bs)
]

compress_segments-IsValid :
    (ss : List Segment)
    → All SegmentIsValid ss
    → let (kept, bytes, freed) = compress_segments ss in
      (length kept ≡ length ss)
      × All SegmentIsValid kept
      × (sum_by (λ (s : Segment). s.total_size) kept + bytes
          ≡ sum_by (λ (s : Segment). s.total_size) ss)
      × (sum_by (λ (s : Segment). s.used_size) kept ≡ sum_by (λ (s : Segment). s.used_size) ss)
unfolding compress_segments
compress_segments-IsValid [] v = (refl, tt, refl, refl)
compress_segments-IsValid (s ∷ ss) (v, vs) =
    let (n, all, total, used) = compress_segments-IsValid ss vs in
    let (_, _, bytes, _, same) = compress_blocks_lem (max_blocks (is_aggressive s)) s.blocks in
    (
      omega (arith, n),
      (record { total = omega (arith, v.total, bytes); used = v.used ∙ sym same }, all),
      omega (arith, total, v.total, bytes),
      omega (arith, used),
    )

pub compress_memory_pool-IsValid :
    (pool : MemoryPool) → IsValid pool → IsValid (compress_memory_pool pool).0
unfolding compress_memory_pool
compress_memory_pool-IsValid pool v =
    let (n, all, total, used) = compress_segments-IsValid pool.segments v.each in
    record {
      count = n ∙ v.count;
      each = all;
      total = omega (arith, total, v.total);
      used = v.used ∙ sym used;
    }
