-- ===== src/MemoryPool/BestFit.antt =====
-- The search of pool_malloc finds a smallest idle block that is large enough.
use x_server.Prelude.{
  ℕ, zero, suc, ◌+◌, ◌≤◌, ◌<◌, ◌≡◌, ◌⊎◌, refl, ap, ◌∙◌, inl, inr, true, false, not, ◌&&◌,
  Bool-cases, Option, none, some, List, [], ◌∷◌, ◌==◌, ltb, leb, arith, get_elem?, All, All-imp,
}
use x_server.MemoryPool.{Block, best_fit, size_max}

-- An idle block that is large enough is no smaller than `n`.
abbrev pub AtLeast : ℕ → ℕ → Block → Type 0
AtLeast aligned_size n b = (b.in_use ≡ true) ⊎ (b.size < aligned_size) ⊎ (n ≤ b.size)

-- What the search makes of the blocks from index `i` on: nothing, or an index with its block.
abbrev Finds : ℕ → ℕ → Option ℕ → ℕ → List Block → Option ℕ → Type 0
Finds aligned_size limit best i bs found =
    ((found ≡ best) × All (AtLeast aligned_size limit) bs)
    ⊎ ((k : ℕ) × (b : Block) × (found ≡ some (i + k))
        × (get_elem? bs k ≡ some b)
        × (b.in_use ≡ false)
        × (aligned_size ≤ b.size)
        × (b.size < limit)
        × All (AtLeast aligned_size b.size) bs)

worse-AtLeast :
    (want limit : ℕ) (b : Block)
    → (not b.in_use && leb want b.size && ltb b.size limit) ≡ false
    → AtLeast want limit b
worse-AtLeast want limit b h = elim (Bool-cases b.in_use) [
  | inl u ↦ inl u
  | inr u ↦ elim (Bool-cases (leb want b.size)) [
    | inl l ↦ inr (inr (grind arith))
    | inr l ↦ inr (inl (grind arith))
  ]
]

AtLeast-size : (want n : ℕ) (b : Block) → n ≤ b.size → AtLeast want n b
AtLeast-size want n b h = inr (inr h)

AtLeast-less : (want m n : ℕ) (b : Block) → m ≤ n → AtLeast want n b → AtLeast want m b
AtLeast-less want m n b h (inl u) = inl u
AtLeast-less want m n b h (inr (inl l)) = inr (inl l)
AtLeast-less want m n b h (inr (inr l)) = inr (inr (omega arith))

-- Every block is in use, too small, or at least as large as what is wanted.
AtLeast-want : (want : ℕ) (bs : List Block) → All (AtLeast want want) bs
AtLeast-want want [] = tt
AtLeast-want want (b ∷ bs) = (
  elim (Bool-cases (leb want b.size)) [
    | inl l ↦ inr (inr (grind arith))
    | inr l ↦ inr (inl (grind arith))
  ],
  AtLeast-want want bs,
)

best_fit-Finds :
    (want limit : ℕ) (best : Option ℕ) (i : ℕ) (bs : List Block)
    → Finds want limit best i bs (best_fit want limit best i bs)
unfolding best_fit
best_fit-Finds want limit best i [] = inl (refl, tt)
best_fit-Finds want limit best i (b ∷ bs) =
    elim (Bool-cases (not b.in_use && leb want b.size && ltb b.size limit)) [
      | inr worse ↦ elim (best_fit-Finds want limit best (suc i) bs) [
        | inl (e, a) ↦ inl (rw (best_fit, worse) e, (worse-AtLeast want limit b worse, a))
        | inr (k, c, e, g, idle, room, less, a) ↦ inr (
          suc k,
          c,
          rw (best_fit, worse) (e ∙ ap some (omega arith)),
          g,
          idle,
          room,
          less,
          (AtLeast-less want c.size limit b (omega arith) (worse-AtLeast want limit b worse), a),
        )
      ]
      | inl better ↦ elim (Bool-cases (b.size == want)) [
        | inl exact ↦ inr (
          zero,
          b,
          rw (best_fit, better, exact) (ap some (omega arith)),
          refl,
          ground arith,
          grind arith,
          grind arith,
          (
            AtLeast-size want b.size b (omega arith),
            All-imp _ bs (λ c d. AtLeast-less want b.size want c (grind arith) d)
                (AtLeast-want want bs),
          ),
        )
        | inr more ↦ elim (best_fit-Finds want b.size (some i) (suc i) bs) [
          | inl (e, a) ↦ inr (
            zero,
            b,
            rw (best_fit, better, more) (e ∙ ap some (omega arith)),
            refl,
            ground arith,
            grind arith,
            grind arith,
            (AtLeast-size want b.size b (omega arith), a),
          )
          | inr (k, c, e, g, idle, room, less, a) ↦ inr (
            suc k,
            c,
            rw (best_fit, better, more) (e ∙ ap some (omega arith)),
            g,
            idle,
            room,
            grind arith,
            (AtLeast-size want c.size b (omega arith), a),
          )
        ]
      ]
    ]

-- The search of pool_malloc gives the index of an idle block that is large enough, and no idle block
-- that is large enough is smaller. It gives none only where no idle block is large enough, but for
-- blocks of SIZE_MAX bytes.
pub best_fit_smallest :
    (want : ℕ) (bs : List Block)
    → ((best_fit want size_max none 0 bs ≡ none) × All (AtLeast want size_max) bs)
      ⊎ ((i : ℕ) × (b : Block) × (best_fit want size_max none 0 bs ≡ some i)
          × (get_elem? bs i ≡ some b)
          × (b.in_use ≡ false)
          × (want ≤ b.size)
          × All (AtLeast want b.size) bs)
best_fit_smallest want bs = elim (best_fit-Finds want size_max none 0 bs) [
  | inl h ↦ inl h
  | inr (k, b, e, g, idle, room, less, a) ↦ inr (k, b, e ∙ ap some (omega arith), g, idle, room, a)
]
