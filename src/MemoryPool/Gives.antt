-- ===== src/MemoryPool/Gives.antt =====
-- What pool_malloc returns, and what pool_free finds.
use x_server.Prelude.{
  ℕ, ◌≤◌, ◌≡◌, ◌⊎◌, refl, ap, ◌∙◌, inl, inr, true, false, Bool-cases, Option, none, some, List,
  ◌==◌, leb, arith, length, get_elem?, All, get_elem?-some, get_elem?-set_self, get_elem?-append,
  get_or-set_self,
}
use x_server.MemoryPool.{
  Block, Segment, MemoryPool, empty_segment, all_segments, get_segment_id, align, size_max,
  segment_at, reuse_block, new_block, null_block, pool_malloc,
}
use x_server.MemoryPool.BestFit.{AtLeast, best_fit_smallest}
use x_server.MemoryPool.Accounts.{IsValid, get_segment_id_bound, put_block-IsValid, mark-IsValid}

-- The blocks that a request of `size` bytes looks at.
abbrev pub candidates : MemoryPool → ℕ → List Block
candidates pool size = (segment_at pool (get_segment_id (align size))).blocks

-- A block that was idle, and no larger than any other idle block that is large enough; or a new one
-- at the end, where no idle block is large enough.
abbrev pub Origin : MemoryPool → ℕ → Option ℕ → ℕ → Block → Type 0
Origin pool size fresh i b =
    ((get_elem? (candidates pool size) i ≡ some (record b { in_use = false }))
      × All (AtLeast (align size) b.size) (candidates pool size))
    ⊎ ((fresh ≡ some b.data_at)
        × (i ≡ length (candidates pool size))
        × All (AtLeast (align size) size_max) (candidates pool size))

-- The block behind a returned address.
pub record Gives (pool : MemoryPool) (size : ℕ) (fresh : Option ℕ) (pool' : MemoryPool) (ptr : ℕ)
    : Type 0 where
  pub index : ℕ
  pub block : Block
  pub found : get_elem? (candidates pool' size) index ≡ some block
  pub address : block.data_at ≡ ptr
  pub taken : block.in_use ≡ true
  pub room : align size ≤ block.size
  pub origin : Origin pool size fresh index block

reuse_block-Gives :
    (pool : MemoryPool) (size : ℕ) (fresh : Option ℕ) (i : ℕ) (b : Block)
    → IsValid pool
    → get_elem? (candidates pool size) i ≡ some b
    → b.in_use ≡ false
    → align size ≤ b.size
    → All (AtLeast (align size) b.size) (candidates pool size)
    → let (pool', ptr) = reuse_block pool (get_segment_id (align size)) i b in
      (ptr ≡ some b.data_at) × Gives pool size fresh pool' b.data_at × IsValid pool'
unfolding reuse_block
reuse_block-Gives pool size fresh i b v g idle room a =
    let id = get_segment_id (align size) in
    let bound = get_segment_id_bound (align size) in
    (
      refl,
      record {
        index = i;
        block = record b { in_use = true };
        found =
            ap (λ (s : Segment). get_elem? s.blocks i)
              (get_or-set_self pool.segments id _ empty_segment (omega (arith, v.count, bound)))
            ∙ (get_elem?-set_self (candidates pool size) i _ (get_elem?-some _ i b null_block g).0);
        address = refl;
        taken = refl;
        room = room;
        origin = inl (g ∙ ap (λ u. some (record b { in_use = u })) idle, a);
      },
      mark-IsValid pool id i b true _ _ v bound g (ground (arith, idle)) (omega arith),
    )

new_block-Gives :
    (pool : MemoryPool) (size at : ℕ)
    → IsValid pool
    → All (AtLeast (align size) size_max) (candidates pool size)
    → let (pool', ptr) = new_block pool (get_segment_id (align size)) (align size) (some at) in
      (ptr ≡ some at) × Gives pool size (some at) pool' at × IsValid pool'
unfolding new_block
new_block-Gives pool size at v a =
    let id = get_segment_id (align size) in
    let bound = get_segment_id_bound (align size) in
    (
      refl,
      record {
        index = length (candidates pool size);
        block = record { data_at = at; size = _; in_use = true };
        found =
            ap (λ (s : Segment). get_elem? s.blocks (length (candidates pool size)))
              (get_or-set_self pool.segments id _ empty_segment (omega (arith, v.count, bound)))
            ∙ get_elem?-append (candidates pool size) _;
        address = refl;
        taken = refl;
        room = ground arith;
        origin = inr (refl, refl, a);
      },
      put_block-IsValid pool id _ v bound,
    )

new_block-answer :
    (pool : MemoryPool) (size : ℕ) (fresh : Option ℕ)
    → IsValid pool
    → All (AtLeast (align size) size_max) (candidates pool size)
    → let (pool', answer) = new_block pool (get_segment_id (align size)) (align size) fresh in
      IsValid pool'
      × (((answer ≡ none) × (pool' ≡ pool) × ((size ≡ 0) ⊎ (fresh ≡ none)))
          ⊎ ((ptr : ℕ) × (answer ≡ some ptr) × Gives pool size fresh pool' ptr))
unfolding new_block
new_block-answer pool size none v a = (v, inl (refl, refl, inr refl))
new_block-answer pool size (some at) v a =
    let (p, gives, valid) = new_block-Gives pool size at v a in (valid, inr (at, p, gives))

-- Whatever pool_malloc answers on a valid pool, the pool stays valid. An address is that of a block
-- in use of the segment for the aligned size, large enough for it: an idle block, no larger than
-- another one that is large enough, or a new one where none is. Without an address, nothing has
-- changed, and the size is 0 or malloc has failed.
pub pool_malloc-Gives :
    (pool : MemoryPool) (size : ℕ) (fresh : Option ℕ)
    → IsValid pool
    → let (pool', answer) = pool_malloc pool size fresh in
      IsValid pool'
      × (((answer ≡ none) × (pool' ≡ pool) × ((size ≡ 0) ⊎ (fresh ≡ none)))
          ⊎ ((ptr : ℕ) × (answer ≡ some ptr) × Gives pool size fresh pool' ptr))
unfolding pool_malloc
pool_malloc-Gives pool size fresh v =
    let id = get_segment_id (align size) in
    elim (Bool-cases (size == 0)) [
      | inl z ↦ rw (pool_malloc, z) (v, inl (refl, refl, inl (grind arith)))
      | inr z ↦ elim (Bool-cases (leb all_segments id)) [
        | inl far ↦ absurd (grind (arith, get_segment_id_bound (align size)))
        | inr near ↦ elim (best_fit_smallest (align size) (candidates pool size)) [
          | inr (i, b, e, g, idle, room, a) ↦
              let same : pool_malloc pool size fresh ≡ reuse_block pool id i b =
                ground
                  (arith, z, near, e, (get_elem?-some (candidates pool size) i b null_block g).1) in
              let (p, gives, valid) = reuse_block-Gives pool size fresh i b v g idle room a in
              rw same (valid, inr (b.data_at, p, gives))
          | inl (e, a) ↦
              let same : pool_malloc pool size fresh ≡ new_block pool id (align size) fresh =
                ground (arith, z, near, e) in
              rw same (new_block-answer pool size fresh v a)
        ]
      ]
    ]
