-- ===== src/MemoryPool/Release.antt =====
-- pool_free keeps the statistics true, and create_memory_pool begins with them.
use x_server.Prelude.{
  ℕ, zero, suc, ◌+◌, ◌-◌, ◌≤◌, ◌<◌, ◌≡◌, refl, ap, ◌∙◌, subst, inl, inr, true, false, Bool-cases,
  Option-cases, Option, none, some, List, [], ◌∷◌, ◌==◌, ==_iff, ltb, if◌then◌else◌, arith,
  get_elem?, length-replicate, replicate, All-replicate, sum_by-get_or, get_elem?-some,
}
use x_server.MemoryPool.{
  Block, Segment, MemoryPool, empty_segment, all_segments, get_segment_id, segment_at, null_block,
  put_block, create_memory_pool, find_block, release_block, pool_free, min_block_size,
}
use x_server.MemoryPool.Accounts.{
  IsValid, SegmentIsValid, get_segment_id_bound, put_block-IsValid, mark-IsValid,
  segment_at-IsValid, used_bytes,
}

find_block-some :
    (ptr i j : ℕ) (bs : List Block)
    → find_block ptr i bs ≡ some j
    → (k : ℕ) × (b : Block) × (j ≡ i + k) × (get_elem? bs k ≡ some b) × (b.data_at ≡ ptr)
unfolding find_block
find_block-some ptr i j [] e = absurd cc
find_block-some ptr i j (b ∷ bs) e = elim (Bool-cases (b.data_at == ptr)) [
  | inl h ↦ (zero, b, ground (arith, h), refl, (==_iff b.data_at ptr).0 h)
  | inr h ↦
      let (k, c, same, g, at) = find_block-some ptr (suc i) j bs (ground (arith, h)) in
      (suc k, c, same ∙ omega arith, g, at)
]

-- The size of a block in use is counted in its segment, and that of the segment in the pool.
pub used_within :
    (pool : MemoryPool) (id i : ℕ) (b : Block)
    → IsValid pool
    → id < all_segments
    → get_elem? (segment_at pool id).blocks i ≡ some b
    → b.in_use ≡ true
    → (b.size ≤ (segment_at pool id).used_size) × ((segment_at pool id).used_size ≤ pool.used_size)
used_within pool id i b v h g used =
    let segment = segment_at pool id in
    let (room, same) = get_elem?-some segment.blocks i b null_block g in
    (
      grind (
        arith,
        (segment_at-IsValid pool id v).used,
        used,
        ap used_bytes same,
        sum_by-get_or used_bytes segment.blocks i null_block room,
      ),
      omega (
        arith,
        v.used,
        v.count,
        sum_by-get_or (λ (s : Segment). s.used_size) pool.segments id empty_segment
            (omega (arith, v.count)),
      ),
    )

release_block-IsValid :
    (pool : MemoryPool) (id i : ℕ) (b : Block)
    → IsValid pool
    → id < all_segments
    → get_elem? (segment_at pool id).blocks i ≡ some b
    → IsValid (release_block pool id i b)
unfolding release_block
release_block-IsValid pool id i b v h g = elim (Bool-cases b.in_use) [
  | inr idle ↦ rw (release_block, idle) v
  | inl used ↦
      let segment = segment_at pool id in
      let (small, within) = used_within pool id i b v h g used in
      subst IsValid (ground (arith, used)) (
        mark-IsValid pool id i b false (segment.used_size - b.size) (pool.used_size - b.size) v h g
          (grind (arith, used)) (omega arith))
]

pub pool_free-IsValid :
    (pool : MemoryPool) (word : ℕ → ℕ) (ptr : ℕ) → IsValid pool → IsValid (pool_free pool word ptr)
unfolding pool_free
pool_free-IsValid pool word ptr v =
    let id = get_segment_id (word ptr) in
    let blocks = (segment_at pool id).blocks in
    elim (Bool-cases (ptr == 0)) [
      | inl z ↦ subst IsValid (ground (arith, z)) v
      | inr p ↦ elim (Option-cases (find_block ptr 0 blocks)) [
        | inl n ↦ subst IsValid (ground (arith, n, p)) v
        | inr (i, n) ↦
            let (k, b, same, g, at) = find_block-some ptr 0 i blocks n in
            let e : release_block pool id i b ≡ pool_free pool word ptr = ground (
              arith,
              p,
              n,
              same,
              (get_elem?-some blocks k b null_block g).1,
              get_segment_id_bound (word ptr),
            ) in
            subst IsValid e (
              release_block-IsValid pool id i b v (get_segment_id_bound (word ptr))
                (ap (get_elem? blocks) (same ∙ omega arith) ∙ g))
      ]
    ]

-- The pool before its first block.
abbrev start : ℕ → MemoryPool
start size = record {
  segments = replicate all_segments empty_segment;
  total_size = 0;
  used_size = 0;
  segment_count = 1;
  initial_size = size;
}

start-IsValid : (size : ℕ) → IsValid (start size)
start-IsValid size = record {
  count = length-replicate all_segments empty_segment;
  each =
      All-replicate SegmentIsValid all_segments empty_segment
        (record { total = refl; used = refl });
  total = refl;
  used = refl;
}

pub create_memory_pool-IsValid :
    (initial_size : ℕ) (fresh : Option ℕ) {pool : MemoryPool}
    → create_memory_pool initial_size fresh ≡ some pool
    → IsValid pool
unfolding create_memory_pool
create_memory_pool-IsValid initial_size none e = absurd cc
create_memory_pool-IsValid initial_size (some at) {pool} e =
    let size = (if ltb initial_size min_block_size then min_block_size else initial_size) in
    let v =
      put_block-IsValid _ (get_segment_id size)
        (record { data_at = at; size = size; in_use = false }) (start-IsValid size)
        (get_segment_id_bound size) in
    let same : put_block (start size) (get_segment_id size)
          (record { data_at = at; size = size; in_use = false })
        ≡ pool =
      cc e in
    subst IsValid same v
