-- ===== src/Pool/Counted.antt =====
-- The statistics of the small blocks: what is used and what ai_memory_print_stats counts as free.
use synapse_kernel.Prelude.{
  ℕ, zero, suc, ◌+◌, ◌*◌, ◌≤◌, ◌<◌, ◌≡◌, refl, sym, ap, ◌∙◌, arith, Bool, true, false, ◌&&◌, ◌||◌,
  not, ◌==◌, Bool-cases, inl, inr, first_from-cases, ==_ne, ==_self, List, [], ◌∷◌, eq_of_==,
}
use synapse_kernel.Pool.{Pool, is_used, min_block_size, free_blocks_from, free_small_blocks}
use synapse_kernel.Pool.Refined.{
  Call, alloc, free, perform, perform_all, perform-Placed, index_cases, not_used,
}
use synapse_kernel.Pool.Small.{
  Placed, taken, given_back, is_used-taken, is_used-given_back, alloc_small_block-first,
  free_small_block-used, free_small_block-outside, alloc_small_block-full,
}

-- The two pools use the same blocks from `i` on.
same_count :
    (rounds i : ℕ) (s t : Pool) (c : ℕ)
    → ((k : ℕ) → i ≤ k → is_used t k ≡ is_used s k)
    → free_blocks_from rounds i t c ≡ free_blocks_from rounds i s c
unfolding free_blocks_from
same_count zero i s t c same = refl
same_count (suc rounds) i s t c same =
    rw (same i (omega arith)) (same_count rounds (i + 1) s t _ (λ k h. same k (omega arith)))

-- One more is counted from a start that is one more.
count-suc :
    (rounds i : ℕ) (s : Pool) (c : ℕ)
    → free_blocks_from rounds i s (c + 1) ≡ free_blocks_from rounds i s c + 1
unfolding free_blocks_from
count-suc zero i s c = refl
count-suc (suc rounds) i s c = elim (Bool-cases (is_used s i)) [
  | inl u ↦ rw u (count-suc rounds (i + 1) s c)
  | inr u ↦ rw u (count-suc rounds (i + 1) s (c + 1))
]

-- Block `j` is used in the second pool only.
one_more :
    (rounds i j : ℕ) (s t : Pool) (c : ℕ)
    → i ≤ j
    → j < i + rounds
    → is_used s j ≡ false
    → ((k : ℕ) → is_used t k ≡ (j == k || is_used s k))
    → free_blocks_from rounds i s c ≡ free_blocks_from rounds i t c + 1
unfolding free_blocks_from
one_more zero i j s t c lo hi unused other = absurd (omega arith)
one_more (suc rounds) i j s t c lo hi unused other = elim (Bool-cases (i == j)) [
  | inl e ↦
      let at : i ≡ j = ground arith in
      let here : is_used s i ≡ false = rw at unused in
      let there : is_used t i ≡ true = rw (other i, at, ==_self j) refl in
      rw (here, there)
        (count-suc rounds (i + 1) s c
          ∙ ap (λ n. n + 1)
              (sym (
                same_count rounds (i + 1) s t c
                  (λ k h. rw (other k, ==_ne j k (λ e. omega arith)) refl))))
  | inr e ↦
      let off : (j == i) ≡ false = ground arith in
      rw (other i, off) (one_more rounds (i + 1) j s t _ (ground arith) (omega arith) unused other)
]

-- What is used and what is free make up all the blocks.
pub record Counted (s : Pool) : Type 0 where
  pub counts :
      s.used_size + free_small_blocks s * min_block_size ≡ s.small_block_count * min_block_size

free_blocks-le : (rounds i : ℕ) (s : Pool) (c : ℕ) → free_blocks_from rounds i s c ≤ c + rounds
unfolding free_blocks_from
free_blocks-le zero i s c = omega arith
free_blocks-le (suc rounds) i s c = elim (Bool-cases (is_used s i)) [
  | inl u ↦ rw u (omega (arith, free_blocks-le rounds (i + 1) s c))
  | inr u ↦ rw u (omega (arith, free_blocks-le rounds (i + 1) s (c + 1)))
]

module _ (s : Pool) (placed : Placed s) (counted : Counted s) (i : ℕ)
    (lt : i < s.small_block_count) where
  taken-Counted : is_used s i ≡ false → Counted (taken i s)
  unfolding free_small_blocks
  taken-Counted unused =
      let space = placed.space in
      let counts = counted.counts in
      let one =
        one_more s.small_block_count 0 i s (taken i s) 0 (omega arith) (omega arith) unused
          (λ k. is_used-taken i k s) in
      record { counts = omega arith }

  given_back-Counted : is_used s i ≡ true → Counted (given_back i s)
  unfolding free_small_blocks
  given_back-Counted used =
      let space = placed.space in
      let counts = counted.counts in
      let gone : is_used (given_back i s) i ≡ false =
        rw (is_used-given_back i i s, ==_self i) (last (is_used s i)) in
      let one =
        one_more s.small_block_count 0 i (given_back i s) s 0 (omega arith) (omega arith) gone
          (λ k. other k used) in
      let le = free_blocks-le s.small_block_count 0 (given_back i s) 0 in
      record { counts = omega arith }
    where
      last : (u : Bool) → (u && not true) ≡ false
      last true = refl
      last false = refl

      rest : (u : Bool) → u ≡ (false || (u && not false))
      rest true = refl
      rest false = refl

      other : (k : ℕ) → is_used s i ≡ true → is_used s k ≡ (i == k || is_used (given_back i s) k)
      other k used = elim (Bool-cases (i == k)) [
        | inl e ↦ rw (e, sym (eq_of_== i k e)) used
        | inr e ↦ rw (is_used-given_back i k s, e) (rest (is_used s k))
      ]

perform-Counted : (c : Call) (s : Pool) → Placed s → Counted s → Counted (perform c s).1
perform-Counted alloc s placed counted =
    elim (first_from-cases s.small_block_count 0 (λ i. not (is_used s i))) [
      | inl e ↦ rw (alloc_small_block-full s placed e) counted
      | inr (i, f) ↦ rw (alloc_small_block-first s placed i f) (
          taken-Counted s placed counted i (omega (arith, f.below))
            (not_used (is_used s i) f.passes))
    ]
perform-Counted (free p) s placed counted =
    elim (index_cases s.small_block_pool s.small_block_count p) [
      | inl out ↦ rw (free_small_block-outside s placed p out) counted
      | inr (i, lt, h) ↦ elim (Bool-cases (is_used s i)) [
        | inl u ↦
            rw (free_small_block-used s placed p i lt h.above h.below, u)
              (given_back-Counted s placed counted i lt u)
        | inr u ↦ rw (free_small_block-used s placed p i lt h.above h.below, u) counted
      ]
    ]

-- When the small blocks lie in the address space and not at NULL, every sequence of calls of
-- alloc_small_block and free_small_block keeps the statistics true, if they are true before it: the
-- bytes in `used_size` and 64 for each small block that ai_memory_print_stats counts as free make up
-- all the small blocks.
pub perform_all-Counted :
    (cs : List Call) (s : Pool) → Placed s → Counted s → Counted (perform_all cs s).1
perform_all-Counted [] s placed counted = counted
perform_all-Counted (c ∷ cs) s placed counted =
    perform_all-Counted cs (perform c s).1 (perform-Placed c s placed)
      (perform-Counted c s placed counted)
