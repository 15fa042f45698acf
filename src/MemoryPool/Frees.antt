-- ===== src/MemoryPool/Frees.antt =====
-- Which blocks pool_free gives back.
use x_server.Prelude.{
  ℕ, zero, suc, ◌+◌, ◌≤◌, ◌<◌, ◌≡◌, ◌≢◌, ◌⊎◌, refl, ap, ◌∙◌, inl, inr, subst, true, false, none,
  some, List, [], ◌∷◌, ◌==◌, ==_iff, if◌then◌else◌, arith, length, get_or, sum_by, sum_by-get_or,
  get_elem?, get_elem?-some, get_elem?-set_self, get_or-set_self, ℕ_discrete,
}
use x_server.MemoryPool.{
  Block, Segment, MemoryPool, empty_segment, null_block, all_segments, get_segment_id, segment_at,
  find_block, release_block, pool_free,
}
use x_server.MemoryPool.Accounts.{IsValid, get_segment_id_bound}
use x_server.MemoryPool.Release.{used_within}

-- How many blocks have their data at an address.
unfoldable pub count_at : ℕ → List Block → ℕ
count_at ptr [] = 0
count_at ptr (b ∷ bs) = (if b.data_at == ptr then 1 else 0) + count_at ptr bs

abbrev pub count_all : MemoryPool → ℕ → ℕ
count_all pool ptr = sum_by (λ (s : Segment). count_at ptr s.blocks) pool.segments

count_at-some :
    (ptr k : ℕ) (bs : List Block) (b : Block)
    → get_elem? bs k ≡ some b
    → b.data_at ≡ ptr
    → 1 ≤ count_at ptr bs
unfolding count_at
count_at-some ptr k [] b g e = absurd cc
count_at-some ptr zero (c ∷ cs) b g e =
    let same : c ≡ b = cc g in
    ground (arith, (==_iff c.data_at ptr).1 (ap (λ (d : Block). d.data_at) same ∙ e))
count_at-some ptr (suc k) (c ∷ cs) b g e = omega (arith, count_at-some ptr k cs b g e)

find_block-absent : (ptr i : ℕ) (bs : List Block) → count_at ptr bs ≡ 0 → find_block ptr i bs ≡ none
unfolding find_block count_at
find_block-absent ptr i [] e = refl
find_block-absent ptr i (c ∷ cs) e = ground (arith, e, find_block-absent ptr (suc i) cs)

find_block-only :
    (ptr i k : ℕ) (bs : List Block) (b : Block)
    → get_elem? bs k ≡ some b
    → b.data_at ≡ ptr
    → count_at ptr bs ≤ 1
    → find_block ptr i bs ≡ some (i + k)
unfolding find_block count_at
find_block-only ptr i k [] b g e n = absurd cc
find_block-only ptr i zero (c ∷ cs) b g e n =
    let same : c ≡ b = cc g in
    rw ((==_iff c.data_at ptr).1 (ap (λ (d : Block). d.data_at) same ∙ e)) (ap some (omega arith))
find_block-only ptr i (suc k) (c ∷ cs) b g e n =
    let here = count_at-some ptr k cs b g e in
    ground (arith, n, here, find_block-only ptr (suc i) k cs b g e (ground (arith, n)))

sum_by-two :
    {A : Type 0} (weight : A → ℕ) (xs : List A) (i j : ℕ) (d : A)
    → i ≢ j
    → i < length xs
    → j < length xs
    → weight (get_or xs i d) + weight (get_or xs j d) ≤ sum_by weight xs
sum_by-two weight [] i j d ne h k = absurd (omega arith)
sum_by-two weight (x ∷ xs) zero zero d ne h k = absurd (ne refl)
sum_by-two weight (x ∷ xs) zero (suc j) d ne h k =
    omega (arith, sum_by-get_or weight xs j d (omega arith))
sum_by-two weight (x ∷ xs) (suc i) zero d ne h k =
    omega (arith, sum_by-get_or weight xs i d (omega arith))
sum_by-two weight (x ∷ xs) (suc i) (suc j) d ne h k =
    omega (arith, sum_by-two weight xs i j d (λ e. ne (ap suc e)) (omega arith) (omega arith))

-- The block is given back: it is idle, and its bytes are no longer counted as used.
abbrev pub IsFreed : MemoryPool → ℕ → ℕ → Block → MemoryPool → Type 0
IsFreed pool id i b out =
    (get_elem? (segment_at out id).blocks i ≡ some (record b { in_use = false }))
    × (out.used_size + b.size ≡ pool.used_size)

release_block-IsFreed :
    (pool : MemoryPool) (id i : ℕ) (b : Block)
    → IsValid pool
    → id < all_segments
    → get_elem? (segment_at pool id).blocks i ≡ some b
    → b.in_use ≡ true
    → IsFreed pool id i b (release_block pool id i b)
unfolding release_block
release_block-IsFreed pool id i b v h g used =
    let blocks = (segment_at pool id).blocks in
    let (small, within) = used_within pool id i b v h g used in
    let freed = record b { in_use = false } in
    rw (release_block, used)
      (
        rw (get_or-set_self pool.segments id _ empty_segment (omega (arith, h, v.count)))
            (get_elem?-set_self blocks i freed (get_elem?-some blocks i b null_block g).0),
        omega (arith, small, within),
      )

-- A block in use, which alone has its address, is given back by a call of pool_free exactly if the
-- number that pool_free reads for its size, the size_t behind the first 8 bytes of the data, names the
-- segment of the block. Otherwise the call changes nothing.
pub pool_free-IsFreed :
    (pool : MemoryPool) (word : ℕ → ℕ) (id i : ℕ) (b : Block)
    → IsValid pool
    → id < all_segments
    → get_elem? (segment_at pool id).blocks i ≡ some b
    → b.in_use ≡ true
    → b.data_at ≢ 0
    → count_all pool b.data_at ≡ 1
    → ((get_segment_id (word b.data_at) ≡ id) × IsFreed pool id i b (pool_free pool word b.data_at))
      ⊎ ((get_segment_id (word b.data_at) ≢ id) × (pool_free pool word b.data_at ≡ pool))
unfolding pool_free
pool_free-IsFreed pool word id i b v h g used ne one =
    let ptr = b.data_at in
    let named = get_segment_id (word ptr) in
    let blocks = (segment_at pool id).blocks in
    let weight = λ (s : Segment). count_at ptr s.blocks in
    let here : 1 ≤ count_at ptr blocks = count_at-some ptr i blocks b g refl in
    let bound = get_segment_id_bound (word ptr) in
    elim (ℕ_discrete named id) [
      | yes same ↦
          let most =
            sum_by-get_or weight pool.segments id empty_segment (omega (arith, h, v.count)) in
          let found : find_block ptr 0 blocks ≡ some i =
            find_block-only ptr 0 i blocks b g refl (omega (arith, most, one))
            ∙ ap some (omega arith) in
          let e : release_block pool id i b ≡ pool_free pool word ptr =
            ground (arith, same, found, ne, (get_elem?-some blocks i b null_block g).1, h) in
          inl (same, subst (IsFreed pool id i b) e (release_block-IsFreed pool id i b v h g used))
      | no other ↦
          let two =
            sum_by-two weight pool.segments named id empty_segment other
              (omega (arith, bound, v.count)) (omega (arith, h, v.count)) in
          let missing : find_block ptr 0 (segment_at pool named).blocks ≡ none =
            find_block-absent ptr 0 (segment_at pool named).blocks
              (omega (arith, two, one, here)) in
          inr (other, ground (arith, missing))
    ]
