-- ===== src/Pool/Bounded.antt =====
-- The number of the free list's entries, against the size of its arrays.
use synapse_kernel.Prelude.{
  ℕ, ◌+◌, ◌-◌, ◌/◌, ◌%◌, ◌^◌, ◌≤◌, ◌≡◌, refl, arith, ◌||◌, ◌==◌, leb, ltb, Bool-cases, Option-cases,
  Result-cases, inl, inr, List, [], ◌∷◌,
}
use synapse_kernel.Heap.Kheap.{kmalloc}
use synapse_kernel.Task.{Ptr, null}
use synapse_kernel.Pool.{
  Pool, is_unused, is_used, small_end, align_up, overhead, min_block_size, max_blocks,
  free_small_block, free_large, ai_memory_alloc, ai_memory_free, best_fit, alloc_large,
  alloc_from_block, alloc_from_heap, alloc_small_block,
}
use synapse_kernel.Prelude.{first_from}

-- The calls that the tensors make.
pub data Request : Type 0 where
  allocate : ℕ → ℕ → Request
  release : Ptr → Request

abbrev pub serve : Request → Pool → Pool
serve (allocate size alignment) s = (ai_memory_alloc size alignment s).1
serve (release ptr) s = (ai_memory_free ptr s).1

abbrev pub serve_all : List Request → Pool → Pool
serve_all [] s = s
serve_all (r ∷ rs) s = serve_all rs (serve r s)

-- The entries stand in the arrays.
pub record InArrays (s : Pool) : Type 0 where
  pub bound : s.free_block_count ≤ max_blocks

alloc_small_block-count : (s : Pool) → (alloc_small_block s).1.free_block_count ≡ s.free_block_count
unfolding alloc_small_block
alloc_small_block-count s = elim (Option-cases (first_from s.small_block_count 0 (is_unused s))) [
  | inl e ↦ rw (e, alloc_small_block) refl
  | inr (i, e) ↦ rw (e, alloc_small_block) refl
]

free_small_block-count :
    (ptr : Ptr) (s : Pool) → (free_small_block ptr s).1.free_block_count ≡ s.free_block_count
unfolding free_small_block
free_small_block-count ptr s =
    elim (Bool-cases (ltb ptr s.small_block_pool || leb (small_end s) ptr)) [
      | inl e ↦ rw e refl
      | inr e ↦ elim (Bool-cases (is_used s ((ptr - s.small_block_pool) / min_block_size))) [
        | inl u ↦ rw (e, u) refl
        | inr u ↦ rw (e, u) refl
      ]
    ]

alloc_from_heap-count :
    (size alignment : ℕ) (s : Pool)
    → (alloc_from_heap size alignment s).1.free_block_count ≤ s.free_block_count
unfolding alloc_from_heap
alloc_from_heap-count size alignment s =
    elim (Bool-cases ((kmalloc ((size + alignment) % 2 ^ 64) s.heap).0 == null)) [
      | inl e ↦ rw e (omega arith)
      | inr e ↦ rw e (omega arith)
    ]

alloc_from_block-count :
    (i size alignment : ℕ) (s : Pool)
    → (alloc_from_block i size alignment s).1.free_block_count ≤ s.free_block_count
unfolding alloc_from_block
alloc_from_block-count i size alignment s =
    elim (Bool-cases (
      leb min_block_size (
        (s.free_block_size i + 2 ^ 64 - (size + overhead (s.free_block i) alignment) % 2 ^ 64)
        % 2 ^ 64))) [ inl e ↦ rw e (omega arith) | inr e ↦ rw e (omega arith) ]

alloc_large-count :
    (size alignment : ℕ) (s : Pool)
    → (alloc_large size alignment s).1.free_block_count ≤ s.free_block_count
unfolding alloc_large
alloc_large-count size alignment s = elim (Option-cases (best_fit size alignment s)) [
  | inl e ↦ rw (e, alloc_large) (alloc_from_heap-count size alignment s)
  | inr (i, e) ↦ rw (e, alloc_large) (alloc_from_block-count i size alignment s)
]

free_large-count :
    (ptr : Ptr) (s : Pool)
    → s.free_block_count ≤ max_blocks
    → (free_large ptr s).free_block_count ≤ max_blocks
unfolding free_large
free_large-count ptr s h = elim (Bool-cases (ltb s.free_block_count max_blocks)) [
  | inl e ↦ rw e (ground arith)
  | inr e ↦ rw e h
]

alloc-InArrays :
    (size alignment : ℕ) (s : Pool) → InArrays s → InArrays (ai_memory_alloc size alignment s).1
unfolding ai_memory_alloc
alloc-InArrays size alignment s h = elim (Bool-cases (size == 0)) [
  | inl z ↦ rw z h
  | inr z ↦ elim (Bool-cases (leb (align_up size alignment) min_block_size)) [
    | inl e ↦ rw (z, e) (record { bound = omega (arith, alloc_small_block-count s, h.bound) })
    | inr e ↦
        rw (z, e)
          (record {
            bound = omega (arith, alloc_large-count (align_up size alignment) alignment s, h.bound);
          })
  ]
]

free-InArrays : (ptr : Ptr) (s : Pool) → InArrays s → InArrays (ai_memory_free ptr s).1
unfolding ai_memory_free
free-InArrays ptr s h = elim (Bool-cases (ptr == null)) [
  | inl z ↦ rw z h
  | inr z ↦ elim (Result-cases (free_small_block ptr s).0) [
    | inl (_, e) ↦
        rw (z, e) (record { bound = omega (arith, free_small_block-count ptr s, h.bound) })
    | inr (_, e) ↦
        rw (z, e)
          (record {
            bound =
                free_large-count ptr (free_small_block ptr s).1
                  (omega (arith, free_small_block-count ptr s, h.bound));
          })
  ]
]

-- Whatever calls of ai_memory_alloc and ai_memory_free follow each other, the free list has at most
-- as many entries as its arrays hold, 4096, if it has so before.
pub serve_all-InArrays : (rs : List Request) (s : Pool) → InArrays s → InArrays (serve_all rs s)
serve_all-InArrays [] s h = h
serve_all-InArrays (allocate size alignment ∷ rs) s h =
    serve_all-InArrays rs (ai_memory_alloc size alignment s).1 (alloc-InArrays size alignment s h)
serve_all-InArrays (release ptr ∷ rs) s h =
    serve_all-InArrays rs (ai_memory_free ptr s).1 (free-InArrays ptr s h)
