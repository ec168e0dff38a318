-- ===== src/Pool/Freed.antt =====
-- ai_memory_free for a pointer that is no small block, and the number of the free list's entries.
use synapse_kernel.Prelude.{
  ℕ, ◌+◌, ◌-◌, ◌%◌, ◌^◌, ◌≤◌, ◌<◌, ◌≡◌, ◌≢◌, refl, sym, ap, ◌∙◌, arith, Bool, true, false, none,
  some, ◌||◌, ◌==◌, leb, ltb, Bool-cases, inl, inr, update, err, eok, einvarg, update_self,
  update_ne,
}
use synapse_kernel.Task.{Ptr, null}
use synapse_kernel.Pool.{
  Pool, align_up, overhead, min_block_size, max_blocks, page_size, small_end, free_small_block,
  free_large, ai_memory_alloc, ai_memory_free, best_fit, alloc_from_block,
}
use synapse_kernel.Pool.Fit.{best_fit-BestFit}
use synapse_kernel.Pool.Apart.{Apart, Alignment, align_up-MovedUp, Fitting, fits-Fitting}
use synapse_kernel.Pool.Carve.{alloc_from_block-cases, aligned, alloc_large-block}

-- A pointer that is no small block, with room in the free list.
pub free_large-pushes :
    (ptr : Ptr) (s : Pool)
    → s.free_block_count < max_blocks
    → let s' = free_large ptr s in
      (s'.free_block_count ≡ s.free_block_count + 1)
      × (s'.free_block ≡ update s.free_block s.free_block_count ptr)
      × (s'.free_block_size ≡ update s.free_block_size s.free_block_count page_size)
unfolding free_large
free_large-pushes ptr s lt =
    let room : ltb s.free_block_count max_blocks ≡ true = ground arith in rw room (refl, refl, refl)

-- An entry of the free list begins within a page of the pointer that is released.
free_large-overlaps :
    (ptr : Ptr) (s : Pool) (j : ℕ)
    → s.free_block_count < max_blocks
    → j < s.free_block_count
    → ptr ≤ s.free_block j
    → s.free_block j < ptr + page_size
    → 0 < s.free_block_size j
    → Apart (free_large ptr s)
    → ⊥
free_large-overlaps ptr s j lt inner above below size apart =
    let (count, blocks, sizes) = free_large-pushes ptr s lt in
    let ne : s.free_block_count ≢ j = λ e. omega arith in
    let last : (free_large ptr s).free_block s.free_block_count ≡ ptr =
      rw blocks (update_self s.free_block s.free_block_count ptr) in
    let page : (free_large ptr s).free_block_size s.free_block_count ≡ page_size =
      rw sizes (update_self s.free_block_size s.free_block_count page_size) in
    let other : (free_large ptr s).free_block j ≡ s.free_block j =
      rw blocks (update_ne s.free_block s.free_block_count j ptr ne) in
    let other_size : (free_large ptr s).free_block_size j ≡ s.free_block_size j =
      rw sizes (update_ne s.free_block_size s.free_block_count j page_size ne) in
    elim (apart.disjoint s.free_block_count j (omega arith) (omega arith) ne) [
      | inl e ↦ omega arith
      | inr e ↦ omega arith
    ]

-- ai_memory_free of a pointer that free_small_block refuses.
ai_memory_free-large :
    (ptr : Ptr) (s : Pool)
    → ptr ≢ null
    → free_small_block ptr s ≡ (err einvarg, s)
    → ai_memory_free ptr s ≡ (eok, free_large ptr s)
unfolding ai_memory_free
ai_memory_free-large ptr s ne refused =
    let given : (ptr == null) ≡ false = ground (arith, ne) in rw (given, refused) (rw refused refl)

-- The pointer is outside of the small blocks, before them or behind them.
pub free_small_block-beyond :
    (ptr : Ptr) (s : Pool)
    → (ltb ptr s.small_block_pool || leb (small_end s) ptr) ≡ true
    → free_small_block ptr s ≡ (err einvarg, s)
unfolding free_small_block
free_small_block-beyond ptr s out = rw out refl

-- The small blocks stay where they are.
alloc_from_block-small :
    (i size alignment : ℕ) (s : Pool)
    → let s' = (alloc_from_block i size alignment s).1 in
      (s'.small_block_pool ≡ s.small_block_pool) × (s'.small_block_count ≡ s.small_block_count)
unfolding alloc_from_block
alloc_from_block-small i size alignment s =
    elim (Bool-cases (
      leb min_block_size (
        (s.free_block_size i + 2 ^ 64 - (size + overhead (s.free_block i) alignment) % 2 ^ 64)
        % 2 ^ 64))) [ inl e ↦ rw e (refl, refl) | inr e ↦ rw e (refl, refl) ]

-- A block of the free list that is split, and what is released of it at once.
module _ (size alignment : ℕ) (s : Pool) (b : ℕ) (apart : Apart s)
    (f : Fitting size alignment s b) where
  alloc_from_block-split_free :
      size < page_size
      → s.free_block_count < max_blocks
      → size + overhead (s.free_block b) alignment + min_block_size ≤ s.free_block_size b
      → let (p, s') = alloc_from_block b size alignment s in Apart (free_large p s') → ⊥
  alloc_from_block-split_free h room rest =
      let (at, cases) = alloc_from_block-cases size alignment s b apart f in
      let s' = (alloc_from_block b size alignment s).1 in
      let ptr = (alloc_from_block b size alignment s).0 in
      λ bad. elim cases [
        | inl (_, (count, blocks, sizes)) ↦
            let below = f.below in
            let start : s'.free_block b ≡ ptr + size =
              rw (blocks, at)
                (update_self s.free_block b (aligned size alignment s b apart f + size)) in
            let left : s'.free_block_size b
                ≡ s.free_block_size b - (size + overhead (s.free_block b) alignment) =
              rw sizes (update_self s.free_block_size b _) in
            free_large-overlaps ptr s' b (rw count room) (rw count below) (omega arith)
              (omega arith) (omega arith) bad
        | inr (less, _) ↦ omega arith
      ]

-- When ai_memory_alloc takes a request below 2 ^ 62, at an alignment of 8, 16 or 32, that is rounded
-- up more than a small block and less than a page, from a block of the free list and at least 64 bytes are left of that block, the release of the returned pointer
-- succeeds, and blocks of the free list overlap after it, although they were apart before. The
-- small blocks lie before the block, which is not at NULL, and the free list has room.
pub ai_memory_free-ai_memory_alloc :
    (size alignment : ℕ) (s : Pool) (b : ℕ)
    → Alignment alignment
    → size < 2 ^ 62
    → min_block_size < align_up size alignment
    → align_up size alignment < page_size
    → Apart s
    → s.free_block_count < max_blocks
    → best_fit (align_up size alignment) alignment s ≡ some b
    → align_up size alignment + overhead (s.free_block b) alignment + min_block_size
      ≤ s.free_block_size b
    → small_end s ≤ s.free_block b
    → 0 < s.free_block b
    → let (p, s') = ai_memory_alloc size alignment s in
      let (res, s'') = ai_memory_free p s' in (res ≡ eok) × ¬ (Apart s'')
unfolding ai_memory_alloc
ai_memory_free-ai_memory_alloc size alignment s b al h large page apart room e rest before above =
    let n = align_up size alignment in
    let moved = align_up-MovedUp size alignment al (omega arith) in
    let near = moved.near in
    let small = moved.small in
    let some_bytes : (size == 0) ≡ false = ground arith in
    let no_small : leb n min_block_size ≡ false = ground arith in
    elim (best_fit-BestFit n alignment s (λ j lt. omega (arith, apart.inside j lt))) [
      | inl (e', _) ↦ absurd (some_none (sym e ∙ e'))
      | inr (c, e', best) ↦
          let same : c ≡ b = some_eq (sym e' ∙ e) in
          let f =
            fits-Fitting n alignment s b al (omega arith) apart (rw (sym same) best.below)
              (rw (sym same) best.fitting) in
          rw (some_bytes, no_small)
            (rw (alloc_large-block n alignment s b e) (released_at n f page rest))
    ]
  where
    or_true : (q : Bool) → (q || true) ≡ true
    or_true true = refl
    or_true false = refl

    some_none : {i : ℕ} → some i ≡ none → ⊥
    some_none h = omega (arith, ap {B = ℕ} (λ o. elim o [ none ↦ 0 | some _ ↦ 1 ]) h)

    some_eq : {i j : ℕ} → some i ≡ some j → i ≡ j
    some_eq h = ap {B = ℕ} (λ o. elim o [ none ↦ 0 | some i ↦ i ]) h

    released_at :
        (n : ℕ) (f : Fitting n alignment s b)
        → n < page_size
        → n + overhead (s.free_block b) alignment + min_block_size ≤ s.free_block_size b
        → let (p, s') = alloc_from_block b n alignment s in
          let (res, s'') = ai_memory_free p s' in (res ≡ eok) × ¬ (Apart s'')
    released_at n f lt left =
        let s' = (alloc_from_block b n alignment s).1 in
        let p = (alloc_from_block b n alignment s).0 in
        let (at, _) = alloc_from_block-cases n alignment s b apart f in
        let (pool, count) = alloc_from_block-small b n alignment s in
        let low = f.moved.above in
        let ends : small_end s' ≡ small_end s = rw (pool, count) refl in
        let behind : leb (small_end s') p ≡ true = rw ends (ground arith) in
        let refused =
          free_small_block-beyond p s' (rw behind (or_true (ltb p s'.small_block_pool))) in
        rw (ai_memory_free-large p s' (λ z. omega arith) refused)
          (refl, alloc_from_block-split_free n alignment s b apart f lt room left)
