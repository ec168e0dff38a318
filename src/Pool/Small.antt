-- ===== src/Pool/Small.antt =====
-- alloc_small_block and free_small_block on the bitmap.
use synapse_kernel.Prelude.{
  ℕ, ◌+◌, ◌-◌, ◌*◌, ◌/◌, ◌%◌, ◌^◌, ◌≤◌, ◌<◌, ◌≡◌, ◌≢◌, refl, arith, true, false, ◌&&◌, ◌||◌, not,
  eok, err, einvarg, ◌==◌, leb, ltb, if◌then◌else◌, update, Bool-cases, eq_of_==, inl, inr, ◌⊎◌,
  bit, with_bit, without_bit, bit-with_bit, bit-without_bit, FirstIndex, Exhausted,
}
use synapse_kernel.Task.{Ptr, null}
use synapse_kernel.Pool.{
  Pool, is_used, is_unused, allocated, released, min_block_size, small_end, alloc_small_block,
  free_small_block,
}

-- One bit of the bitmap overwritten, read at every index.
module _ (bitmap : ℕ → ℕ) (i j : ℕ) where
  set_bit :
      bit (update bitmap (i / 64) (with_bit (bitmap (i / 64)) (i % 64)) (j / 64)) (j % 64)
      ≡ (i == j || bit (bitmap (j / 64)) (j % 64))
  set_bit = elim (Bool-cases (i / 64 == j / 64)) [
    | inl e ↦
        rw (e, eq_of_== (i / 64) (j / 64) e, bit-with_bit (bitmap (j / 64)) (i % 64) (j % 64))
          (ground arith)
    | inr e ↦ rw e (ground arith)
  ]

  clear_bit :
      bit (update bitmap (i / 64) (without_bit (bitmap (i / 64)) (i % 64)) (j / 64)) (j % 64)
      ≡ (bit (bitmap (j / 64)) (j % 64) && not (i == j))
  clear_bit = elim (Bool-cases (i / 64 == j / 64)) [
    | inl e ↦
        rw (e, eq_of_== (i / 64) (j / 64) e, bit-without_bit (bitmap (j / 64)) (i % 64) (j % 64))
          (ground arith)
    | inr e ↦ rw e (ground arith)
  ]

-- The small blocks lie in the address space, and not at NULL.
pub record Placed (s : Pool) : Type 0 where
  pub base_ne : s.small_block_pool ≢ null
  pub space : s.small_block_pool + s.small_block_count * min_block_size < 2 ^ 64

-- The address of block `i`.
abbrev pub block_address : Pool → ℕ → Ptr
block_address s i = s.small_block_pool + i * min_block_size

-- The pool after block `i` was taken, and after it was given back.
abbrev pub taken : ℕ → Pool → Pool
taken i s =
    allocated min_block_size
      (record s { bitmap = update s.bitmap (i / 64) (with_bit (s.bitmap (i / 64)) (i % 64)) })

abbrev pub given_back : ℕ → Pool → Pool
given_back i s =
    released min_block_size
      (record s { bitmap = update s.bitmap (i / 64) (without_bit (s.bitmap (i / 64)) (i % 64)) })

pub is_used-taken : (i j : ℕ) (s : Pool) → is_used (taken i s) j ≡ (i == j || is_used s j)
is_used-taken i j s = set_bit s.bitmap i j

pub is_used-given_back :
    (i j : ℕ) (s : Pool) → is_used (given_back i s) j ≡ (is_used s j && not (i == j))
is_used-given_back i j s = clear_bit s.bitmap i j

module _ (s : Pool) (placed : Placed s) where
  pub alloc_small_block-first :
      (i : ℕ)
      → FirstIndex s.small_block_count 0 (is_unused s) i
      → alloc_small_block s ≡ (block_address s i, taken i s)
  unfolding alloc_small_block
  alloc_small_block-first i f =
      let space = placed.space in
      let below = f.below in
      let whole : (s.small_block_pool + i * 64) % 2 ^ 64 ≡ s.small_block_pool + i * 64 =
        omega arith in
      rw (f.finds, alloc_small_block) (rw whole refl)

  pub alloc_small_block-full :
      Exhausted s.small_block_count 0 (is_unused s) → alloc_small_block s ≡ (null, s)
  unfolding alloc_small_block
  alloc_small_block-full e = rw (e.ends, alloc_small_block) refl

  -- Block `i` holds the address.
  pub free_small_block-used :
      (p i : ℕ)
      → i < s.small_block_count
      → block_address s i ≤ p
      → p < block_address s i + min_block_size
      → free_small_block p s ≡ (if is_used s i then (eok, given_back i s) else (err einvarg, s))
  unfolding free_small_block
  free_small_block-used p i lt lo hi =
      let space = placed.space in
      let end : small_end s ≡ s.small_block_pool + s.small_block_count * 64 = omega arith in
      let above : ltb p s.small_block_pool ≡ false = ground arith in
      let below : leb (small_end s) p ≡ false = rw end (ground arith) in
      let index : (p - s.small_block_pool) / 64 ≡ i = omega arith in
      rw (above, below, index)
        (elim (Bool-cases (is_used s i)) [ inl u ↦ rw u refl | inr u ↦ rw u refl ])

  pub free_small_block-outside :
      (p : ℕ)
      → (p < s.small_block_pool) ⊎ (s.small_block_pool + s.small_block_count * min_block_size ≤ p)
      → free_small_block p s ≡ (err einvarg, s)
  unfolding free_small_block
  free_small_block-outside p out =
      let space = placed.space in
      let end : small_end s ≡ s.small_block_pool + s.small_block_count * 64 = omega arith in
      let test : (ltb p s.small_block_pool || leb (small_end s) p) ≡ true = rw end (ground arith) in
      rw test refl
