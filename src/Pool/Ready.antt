-- ===== src/Pool/Ready.antt =====
-- The pool that ai_memory_init leaves.
use synapse_kernel.Prelude.{
  ℕ, zero, suc, ◌+◌, ◌*◌, ◌/◌, ◌%◌, ◌^◌, ◌≤◌, ◌<◌, ◌≡◌, refl, sym, ap, ◌∙◌, arith, true, false,
  ◌==◌, ltb, if◌then◌else◌, Bool-cases, inl, inr, eok, bit,
}
use synapse_kernel.Heap.{Heap, block_size, heap_align_value_to_upper}
use synapse_kernel.Heap.Alloc.{blocks_of}
use synapse_kernel.Heap.Kheap.{kmalloc}
use synapse_kernel.Heap.Prefix.{Prefix, Next, kmalloc-Next}
use synapse_kernel.Task.{null}
use synapse_kernel.Pool.{
  Pool, is_used, init_blocks, init_small, ai_memory_init, cleared_pool, small_pool_size, max_blocks,
  free_small_blocks, free_blocks_from,
}
use synapse_kernel.Pool.Small.{Placed}
use synapse_kernel.Pool.Counted.{Counted}
use synapse_kernel.Pool.Apart.{Apart}
use synapse_kernel.Pool.Bounded.{InArrays}
use synapse_kernel.Pool.Init.{Filled, refilled, fill_from-Filled}

array_blocks : blocks_of (max_blocks * 8) ≡ 8
unfolding heap_align_value_to_upper
array_blocks = refl

bitmap_blocks : blocks_of 512 ≡ 1
unfolding heap_align_value_to_upper
bitmap_blocks = refl

small_blocks : blocks_of small_pool_size ≡ 64
unfolding heap_align_value_to_upper
small_blocks = refl

-- The heap after the two arrays, the bitmap and the small blocks.
abbrev after₁ : Heap → Heap
after₁ heap = (kmalloc (max_blocks * 8) heap).1

abbrev after₂ : Heap → Heap
after₂ heap = (kmalloc (max_blocks * 8) (after₁ heap)).1

abbrev after₃ : Heap → Heap
after₃ heap = (kmalloc 512 (after₂ heap)).1

abbrev after₄ : Heap → Heap
after₄ heap = (kmalloc small_pool_size (after₃ heap)).1

-- The pool before the larger blocks.
abbrev begun : Pool → Pool
begun s = record (cleared_pool s) {
  heap = after₄ s.heap;
  free_blocks = (kmalloc (max_blocks * 8) s.heap).0;
  free_block_sizes = (kmalloc (max_blocks * 8) (after₁ s.heap)).0;
  small_block_count = 4096;
  small_block_bitmap = (kmalloc 512 (after₂ s.heap)).0;
  bitmap = λ j. if ltb j 64 then 0 else s.bitmap j;
  small_block_pool = (kmalloc small_pool_size (after₃ s.heap)).0;
}

module _ (s : Pool) (k : ℕ) (prefix : Prefix s.heap k) (hi : k + 273 ≤ s.heap.table.total)
    (pos : 0 < s.heap.saddr) where
  next₁ : Next s.heap k 8 (max_blocks * 8)
  next₁ = kmalloc-Next s.heap k 8 (max_blocks * 8) prefix array_blocks (omega arith) (omega arith)

  next₂ : Next (after₁ s.heap) (k + 8) 8 (max_blocks * 8)
  next₂ =
      kmalloc-Next (after₁ s.heap) (k + 8) 8 (max_blocks * 8) next₁.prefix array_blocks
        (omega arith) (omega (arith, next₁.same_total))

  next₃ : Next (after₂ s.heap) (k + 8 + 8) 1 512
  next₃ =
      kmalloc-Next (after₂ s.heap) (k + 8 + 8) 1 512 next₂.prefix bitmap_blocks (omega arith)
        (omega (arith, next₁.same_total, next₂.same_total))

  next₄ : Next (after₃ s.heap) (k + 8 + 8 + 1) 64 small_pool_size
  next₄ =
      kmalloc-Next (after₃ s.heap) (k + 8 + 8 + 1) 64 small_pool_size next₃.prefix small_blocks
        (omega arith) (omega (arith, next₁.same_total, next₂.same_total, next₃.same_total))

  total₄ : (after₄ s.heap).table.total ≡ s.heap.table.total
  total₄ = next₄.same_total ∙ next₃.same_total ∙ next₂.same_total ∙ next₁.same_total

  saddr₄ : (after₄ s.heap).saddr ≡ s.heap.saddr
  saddr₄ = next₄.same_saddr ∙ next₃.same_saddr ∙ next₂.same_saddr ∙ next₁.same_saddr

  base : (kmalloc small_pool_size (after₃ s.heap)).0 ≡ s.heap.saddr + (k + 17) * block_size
  base = omega (arith, next₄.address, next₃.same_saddr, next₂.same_saddr, next₁.same_saddr)

  ai_memory_init-begun :
      (pool_size : ℕ) → ai_memory_init pool_size s ≡ (eok, init_blocks small_pool_size (begun s))
  unfolding ai_memory_init init_small
  ai_memory_init-begun pool_size =
      let given₁ : ((kmalloc (max_blocks * 8) s.heap).0 == null) ≡ false =
        ground (arith, next₁.address) in
      let given₂ : ((kmalloc (max_blocks * 8) (after₁ s.heap)).0 == null) ≡ false =
        ground (arith, next₂.address, next₁.same_saddr) in
      let given₃ : ((kmalloc 512 (after₂ s.heap)).0 == null) ≡ false =
        ground (arith, next₃.address, next₂.same_saddr, next₁.same_saddr) in
      let given₄ : ((kmalloc small_pool_size (after₃ s.heap)).0 == null) ≡ false =
        ground (arith, base) in
      rw (given₁, given₂, given₃, given₄) refl

  filled : Filled (begun s) (k + 8 + 8 + 1 + 64) 12
  filled =
      fill_from-Filled 12 (k + 8 + 8 + 1 + 64) (begun s) next₄.prefix (omega (arith, total₄))
        (omega (arith, saddr₄))

  -- The pool that is left.
  abbrev final : Pool
  final = record (refilled (begun s) filled.heap filled.blocks filled.sizes 12) {
    total_size = 1024 * 1024;
  }

  init_blocks-final : init_blocks small_pool_size (begun s) ≡ final
  unfolding init_blocks
  init_blocks-final = rw (filled.made 0) refl

  no_bit : (i : ℕ) → i < 4096 → is_used final i ≡ false
  unfolding bit
  no_bit i lt =
      let word : ltb (i / 64) 64 ≡ true = ground arith in rw word (zero_bit (2 ^ (i % 64)))
    where
      zero_bit : (p : ℕ) → (0 / p % 2 == 1) ≡ false
      zero_bit p = rw (native.Mathlib.Nat.zero-div p) refl

  final-Placed : s.heap.saddr + s.heap.table.total * block_size < 2 ^ 63 → Placed final
  final-Placed space = record { base_ne = λ e. omega (arith, base); space = omega (arith, base) }

  block_of : (j : ℕ) → j < 12 → filled.blocks j ≡ s.heap.saddr + (k + 81 + 16 * j) * block_size
  block_of j lt =
      let shift : j ≡ 0 + j = omega arith in
      ap filled.blocks shift ∙ filled.new j lt ∙ omega (arith, saddr₄)

  size_of : (j : ℕ) → j < 12 → filled.sizes j ≡ 64 * 1024
  size_of j lt = let shift : j ≡ 0 + j = omega arith in ap filled.sizes shift ∙ filled.new_size j lt

  final-Apart : s.heap.saddr + s.heap.table.total * block_size < 2 ^ 63 → Apart final
  final-Apart space = record {
    inside = λ i lt. omega (arith, block_of i lt, size_of i lt);
    disjoint = λ i j li lj ne. elim (Bool-cases (ltb i j)) [
      | inl e ↦ inl (apart i j li lj (ground arith))
      | inr e ↦ inr (apart j i lj li (ground (arith, ne)))
    ];
  }
    where
      apart :
          (i j : ℕ) → i < 12 → j < 12 → i < j → filled.blocks i + filled.sizes i ≤ filled.blocks j
      apart i j li lj lt = omega (arith, block_of i li, block_of j lj, size_of i li)

all_unused :
    (rounds i : ℕ) (s : Pool) (c : ℕ)
    → ((j : ℕ) → i ≤ j → j < i + rounds → is_used s j ≡ false)
    → free_blocks_from rounds i s c ≡ c + rounds
unfolding free_blocks_from
all_unused zero i s c h = omega arith
all_unused (suc rounds) i s c h =
    rw (h i (omega arith) (omega arith)) (
      all_unused rounds (i + 1) s (c + 1) (λ j lo hi. h j (omega arith) (omega arith))
      ∙ omega arith)

unused-Counted :
    (s : Pool)
    → s.used_size ≡ 0
    → ((i : ℕ) → i < s.small_block_count → is_used s i ≡ false)
    → Counted s
unfolding free_small_blocks
unused-Counted s none unused =
    let all = all_unused s.small_block_count 0 s 0 (λ j lo lt. unused j (omega arith)) in
    record { counts = omega arith }

-- What ai_memory_init leaves of a heap whose first `k` blocks were in use.
pub record Ready (k : ℕ) (s s' : Pool) : Type 0 where
  pub placed : Placed s'
  pub counted : Counted s'
  pub apart : Apart s'
  pub in_arrays : InArrays s'
  pub total : s'.total_size ≡ 1024 * 1024
  pub small : s'.small_block_count ≡ 4096
  pub unused : (i : ℕ) → i < 4096 → is_used s' i ≡ false
  pub large : s'.free_block_count ≡ 12
  pub prefix : Prefix s'.heap (k + 273)
  pub same_total : s'.heap.table.total ≡ s.heap.table.total
  pub same_saddr : s'.heap.saddr ≡ s.heap.saddr
  pub unspent : s'.used_size ≡ 0

-- On a heap in the lower half of the address space whose first `k` blocks are in use and whose other
-- blocks, at least 273, are free, ai_memory_init succeeds whatever size it is given, takes 273 blocks,
-- and leaves a pool of 1 MB: 4096 small blocks, none of them in use, with true statistics, and 12
-- larger blocks, apart from each other, in a free list that stands in its arrays.
pub ai_memory_init-Ready :
    (pool_size k : ℕ) (s : Pool)
    → Prefix s.heap k
    → k + 273 ≤ s.heap.table.total
    → 0 < s.heap.saddr
    → s.heap.saddr + s.heap.table.total * block_size < 2 ^ 63
    → let (res, s') = ai_memory_init pool_size s in (res ≡ eok) × Ready k s s'
ai_memory_init-Ready pool_size k s prefix hi pos space =
    let made = ai_memory_init-begun s k prefix hi pos pool_size in
    let filled' = filled s k prefix hi pos in
    let unused = no_bit s k prefix hi pos in
    let ends : k + 8 + 8 + 1 + 64 + 16 * 12 ≡ k + 273 = omega arith in
    rw (made, init_blocks-final s k prefix hi pos)
      (
        refl,
        record {
          placed = final-Placed s k prefix hi pos space;
          counted = unused-Counted (final s k prefix hi pos) refl unused;
          apart = final-Apart s k prefix hi pos space;
          in_arrays = record { bound = omega arith };
          total = refl;
          small = refl;
          unused = unused;
          large = refl;
          prefix = rw (sym ends) filled'.prefix;
          same_total = filled'.same_total ∙ total₄ s k prefix hi pos;
          same_saddr = filled'.same_saddr ∙ saddr₄ s k prefix hi pos;
          unspent = refl;
        },
      )
