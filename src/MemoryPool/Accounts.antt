-- ===== src/MemoryPool/Accounts.antt =====
-- The statistics of the pool are the sums over its blocks, whatever is allocated, freed and
-- compressed.
use x_server.Prelude.{
  ℕ, ◌+◌, ◌<◌, ◌≡◌, refl, ap, ◌∙◌, Bool, some, [], ◌∷◌, if◌then◌else◌, arith, length, get_elem?,
  set, length-set, All, All-set, All-get_or, sum_by, sum_by-append, sum_by-set, get_elem?-some,
}
use x_server.MemoryPool.{
  Block, Segment, MemoryPool, empty_segment, all_segments, get_segment_id, segment_at, put_block,
  null_block,
}

-- The bytes of a block that are in use.
abbrev pub used_bytes : Block → ℕ
used_bytes b = if b.in_use then b.size else 0

abbrev pub block_size : Block → ℕ
block_size b = b.size

pub record SegmentIsValid (s : Segment) : Type 0 where
  pub total : s.total_size ≡ sum_by block_size s.blocks
  pub used : s.used_size ≡ sum_by used_bytes s.blocks

pub record IsValid (pool : MemoryPool) : Type 0 where
  pub count : length pool.segments ≡ all_segments
  pub each : All SegmentIsValid pool.segments
  pub total : pool.total_size ≡ sum_by (λ (s : Segment). s.total_size) pool.segments
  pub used : pool.used_size ≡ sum_by (λ (s : Segment). s.used_size) pool.segments

pub get_segment_id_bound : (size : ℕ) → get_segment_id size < all_segments
unfolding get_segment_id
get_segment_id_bound size = ground arith

pub segment_at-IsValid :
    (pool : MemoryPool) (id : ℕ) → IsValid pool → SegmentIsValid (segment_at pool id)
segment_at-IsValid pool id v =
    All-get_or SegmentIsValid pool.segments id empty_segment v.each
      (record { total = refl; used = refl })

-- One segment is replaced, and the totals of the pool change as those of the segment do.
pub set_segment-IsValid :
    (pool : MemoryPool) (id : ℕ) (s : Segment) (total used : ℕ)
    → IsValid pool
    → id < all_segments
    → SegmentIsValid s
    → total + (segment_at pool id).total_size ≡ pool.total_size + s.total_size
    → used + (segment_at pool id).used_size ≡ pool.used_size + s.used_size
    → IsValid
        (record pool { segments = set pool.segments id s; total_size = total; used_size = used })
set_segment-IsValid pool id s total used v h k et eu = record {
  count = length-set pool.segments id s ∙ v.count;
  each = All-set SegmentIsValid pool.segments id s v.each k;
  total = omega (
    arith,
    v.total,
    v.count,
    sum_by-set (λ (s : Segment). s.total_size) pool.segments id s empty_segment
        (omega (arith, v.count)),
  );
  used = omega (
    arith,
    v.used,
    v.count,
    sum_by-set (λ (s : Segment). s.used_size) pool.segments id s empty_segment
        (omega (arith, v.count)),
  );
}

pub put_block-IsValid :
    (pool : MemoryPool) (id : ℕ) (b : Block)
    → IsValid pool
    → id < all_segments
    → IsValid (put_block pool id b)
put_block-IsValid pool id b v h =
    let segment = segment_at pool id in
    let k = segment_at-IsValid pool id v in
    set_segment-IsValid pool id _ _ _ v h
      (record {
        total = omega (arith, k.total, sum_by-append block_size segment.blocks (b ∷ []));
        used = omega (arith, k.used, sum_by-append used_bytes segment.blocks (b ∷ []));
      })
      (omega arith) (omega arith)

-- A block is marked as used or as idle: the used bytes of its segment change with it.
pub mark-IsValid :
    (pool : MemoryPool) (id i : ℕ) (b : Block) (mark : Bool) (segment_used used : ℕ)
    → IsValid pool
    → id < all_segments
    → get_elem? (segment_at pool id).blocks i ≡ some b
    → segment_used + used_bytes b ≡ (segment_at pool id).used_size + (if mark then b.size else 0)
    → used + (segment_at pool id).used_size ≡ pool.used_size + segment_used
    → IsValid (record pool {
      segments = set pool.segments id (record (segment_at pool id) {
        blocks = set (segment_at pool id).blocks i (record b { in_use = mark });
        used_size = segment_used;
      });
      used_size = used;
    })
mark-IsValid pool id i b mark segment_used used v h g es eu =
    let segment = segment_at pool id in
    let k = segment_at-IsValid pool id v in
    let (room, same) = get_elem?-some segment.blocks i b null_block g in
    set_segment-IsValid pool id _ _ _ v h
      (record {
        total = omega (
          arith,
          k.total,
          ap block_size same,
          sum_by-set block_size segment.blocks i (record b { in_use = mark }) null_block room,
        );
        used = omega (
          arith,
          k.used,
          ap used_bytes same,
          sum_by-set used_bytes segment.blocks i (record b { in_use = mark }) null_block room,
        );
      })
      (omega arith) eu
