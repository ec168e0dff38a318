-- ===== src/Pool/Tests.antt =====
-- The pool's theorems at three small blocks and one larger block, and runs on them.
use synapse_kernel.Prelude.{
  ℕ, ◌≤◌, ◌≡◌, refl, inl, inr, ◌⊎◌, arith, eok, err, einvarg, List, [], ◌∷◌, some, first_from, bit,
  with_bit, without_bit,
}
use synapse_kernel.Heap.{Heap}
use synapse_kernel.Pool.{
  Pool, is_used, align_up, align_pointer, overhead, best_fit, best_fit_from, alloc_small_block,
  free_small_block, ai_memory_alloc, ai_memory_free, free_small_blocks, free_blocks_from,
  alloc_large, alloc_from_block,
}
use synapse_kernel.Pool.Small.{Placed}
use synapse_kernel.Pool.Refined.{
  Call, alloc, free, address, status, Runs, perform_all, perform_all-Runs,
}
use synapse_kernel.Pool.Counted.{Counted, perform_all-Counted}
use synapse_kernel.Pool.Fit.{NoFit}
use synapse_kernel.Pool.Apart.{Apart}
use synapse_kernel.Pool.Carve.{Allotted, ai_memory_alloc-Allotted}
use synapse_kernel.Pool.Freed.{ai_memory_free-ai_memory_alloc}
use synapse_kernel.Pool.Bounded.{allocate, release, InArrays, serve_all, serve_all-InArrays}

abbrev sample_heap : Heap
sample_heap = record { table = record { entries = λ i. 0; total = 64 }; saddr = 0x100000 }

-- Three small blocks at 0x40000, and one block of 64 KiB at 0x50008.
abbrev sample : Pool
sample = record {
  heap = sample_heap;
  total_size = 65728;
  used_size = 0;
  free_blocks = 0x30000;
  free_block = λ i. 0x50008;
  free_block_sizes = 0x38000;
  free_block_size = λ i. 65536;
  free_block_count = 1;
  small_block_pool = 0x40000;
  small_block_bitmap = 0x3F000;
  bitmap = λ i. 0;
  small_block_count = 3;
  allocations = 0;
  deallocations = 0;
  peak_usage = 0;
}

sample-Placed : Placed sample
sample-Placed = record { base_ne = λ e. omega arith; space = omega arith }

-- The second release is of an address inside the second block; the third is of one that is free.
abbrev calls : List Call
calls =
    alloc ∷ alloc ∷ free 0x40000 ∷ free 0x40047 ∷ free 0x40000 ∷ alloc ∷ alloc ∷ alloc ∷ alloc ∷ []

run :
    (perform_all calls sample).0
    ≡ address 0x40000
      ∷ address 0x40040
      ∷ status eok
      ∷ status eok
      ∷ status (err einvarg)
      ∷ address 0x40000
      ∷ address 0x40040
      ∷ address 0x40080
      ∷ address 0
      ∷ []
unfolding alloc_small_block free_small_block first_from bit with_bit without_bit
run = refl

perform_all-Runs_example :
    Runs 0x40000 3
      (is_used sample)
      calls
      (perform_all calls sample).0
      (is_used (perform_all calls sample).1)
perform_all-Runs_example = perform_all-Runs calls sample sample-Placed

sample-Counted : Counted sample
unfolding free_small_blocks free_blocks_from bit
sample-Counted = record { counts = refl }

perform_all-Counted_example : Counted (perform_all calls sample).1
perform_all-Counted_example = perform_all-Counted calls sample sample-Placed sample-Counted

sample-Apart : Apart sample
sample-Apart = record {
  inside = λ i lt. omega arith;
  disjoint = λ i j li lj ne. absurd (ne (omega arith));
}

-- 100 bytes at an alignment of 16 are taken from the larger block.
taken_at : (ai_memory_alloc 100 16 sample).0 ≡ 0x50010
unfolding ai_memory_alloc alloc_large best_fit best_fit_from alloc_from_block align_pointer overhead
taken_at = refl

ai_memory_alloc-Allotted_example :
    (100 ≤ align_up 100 16)
    × (NoFit (align_up 100 16) 16 sample 1
        ⊎ ((i : ℕ) × Allotted
              (align_up 100 16)
              16
              sample
              i
              (ai_memory_alloc 100 16 sample).0
              (ai_memory_alloc 100 16 sample).1))
ai_memory_alloc-Allotted_example =
    ai_memory_alloc-Allotted 100 16 sample (inr (inl refl)) (omega arith) (omega arith) sample-Apart

only_block : best_fit (align_up 100 16) 16 sample ≡ some 0
unfolding best_fit best_fit_from overhead align_pointer
only_block = refl

ai_memory_free-ai_memory_alloc_example :
    let (p, s') = ai_memory_alloc 100 16 sample in
    let (res, s'') = ai_memory_free p s' in (res ≡ eok) × ¬ (Apart s'')
unfolding overhead align_pointer
ai_memory_free-ai_memory_alloc_example =
    ai_memory_free-ai_memory_alloc 100 16 sample 0 (inr (inl refl)) (omega arith) (omega arith)
      (omega arith) sample-Apart (omega arith) only_block (omega arith) (omega arith) (omega arith)

serve_all-InArrays_example :
    InArrays (serve_all (allocate 100 16 ∷ release 0x50010 ∷ allocate 64 8 ∷ []) sample)
serve_all-InArrays_example =
    serve_all-InArrays (allocate 100 16 ∷ release 0x50010 ∷ allocate 64 8 ∷ []) sample
      (record { bound = omega arith })
