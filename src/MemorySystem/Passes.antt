-- ===== src/MemorySystem/Passes.antt =====
-- The tests of the memory: that they pass on a heap with room, and leave it as it was.
use synapse_kernel.Prelude.{ℕ, ◌+◌, ◌≤◌, ◌<◌, ◌≡◌, refl, arith, eok, ◌==◌, false}
use synapse_kernel.Heap.{Heap, heap_align_value_to_upper}
use synapse_kernel.Heap.Kheap.{kmalloc}
use synapse_kernel.Heap.Alloc.{blocks_of}
use synapse_kernel.Heap.Free.{Sized}
use synapse_kernel.Heap.Prefix.{Prefix, kmalloc-Next}
use synapse_kernel.Heap.Single.{address_of, kmalloc-single, kfree-kmalloc}
use synapse_kernel.Heap.Three.{malloc₁, malloc₂, malloc₃, in_order}
use synapse_kernel.Task.{null}
use synapse_kernel.MemorySystem.{memory_test_kernel_heap, test_large, filled_with}

one_block : (blocks_of 64 ≡ 1) × (blocks_of 128 ≡ 1) × (blocks_of 256 ≡ 1) × (blocks_of 8196 ≡ 3)
unfolding heap_align_value_to_upper
one_block = (refl, refl, refl, refl)

-- What the first buffer holds after the other two have been filled.
first_buffer :
    (a b c x : ℕ) (byte : ℕ → ℕ)
    → a + 64 ≤ b
    → a + 64 ≤ c
    → a ≤ x
    → x < a + 64
    → filled_with c 0xCC 256 (filled_with b 0xBB 128 (filled_with a 0xAA 64 byte)) x ≡ 0xAA
first_buffer a b c x byte hb hc lo hi = ground arith

module _ (heap : Heap) (k : ℕ) (z : Sized heap) (prefix : Prefix heap k)
    (fits : k + 3 ≤ heap.table.total) (pos : 0 < heap.saddr) where
  test_large-passes :
      (byte : ℕ → ℕ) → (test_large heap byte).0 ≡ eok × ((test_large heap byte).1 ≡ heap)
  unfolding test_large
  test_large-passes byte =
      let next = kmalloc-Next heap k 3 8196 prefix one_block.3 (omega arith) fits in
      let large : ((kmalloc 8196 heap).0 == null) ≡ false = ground (arith, next.address) in
      let back = kfree-kmalloc heap k 3 8196 z prefix one_block.3 (omega arith) fits in
      let again : ((kmalloc 128 heap).0 == null) ≡ false =
        rw (kmalloc-single heap k 128 prefix one_block.1 (omega arith)) (ground arith) in
      let back' = kfree-kmalloc heap k 1 128 z prefix one_block.1 (omega arith) (omega arith) in
      rw (large, back, again, back') (refl, refl)

  -- The heap's test passes, and leaves the heap as it was.
  pub memory_test_kernel_heap-passes :
      (byte : ℕ → ℕ)
      → let (res, heap', _) = memory_test_kernel_heap heap byte in (res ≡ eok) × (heap' ≡ heap)
  unfolding memory_test_kernel_heap
  memory_test_kernel_heap-passes byte =
      let a = address_of heap k in
      let b = address_of heap (k + 1) in
      let c = address_of heap (k + 2) in
      let given₁ : (a == null) ≡ false = ground arith in
      let given₂ : (b == null) ≡ false = ground arith in
      let given₃ : (c == null) ≡ false = ground arith in
      let first =
        first_buffer a b c a byte (omega arith) (omega arith) (omega arith) (omega arith) in
      let last =
        first_buffer a b c (a + 63) byte (omega arith) (omega arith) (omega arith) (omega arith) in
      rw
        (
          malloc₁ heap k 64 128 256 z prefix fits one_block.0 one_block.1 one_block.2,
          malloc₂ heap k 64 128 256 z prefix fits one_block.0 one_block.1 one_block.2,
          malloc₃ heap k 64 128 256 z prefix fits one_block.0 one_block.1 one_block.2,
          given₁,
          given₂,
          given₃,
          first,
          last,
          in_order heap k 64 128 256 z prefix fits one_block.0 one_block.1 one_block.2,
        )
        (test_large-passes
          (filled_with c 0xCC 256 (filled_with b 0xBB 128 (filled_with a 0xAA 64 byte))))
