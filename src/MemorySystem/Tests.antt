-- ===== src/MemorySystem/Tests.antt =====
-- The start of the memory with 1 GB and a kernel that ends at 0x84321, and the heap's test on 8 blocks.
use synapse_kernel.Prelude.{ℕ, ◌^◌, ◌≡◌, refl, arith, eok, err, enomem}
use synapse_kernel.Heap.{
  Heap, heap_malloc, heap_free, heap_malloc_blocks, heap_get_start_block, start_block_loop,
  heap_align_value_to_upper, heap_block_to_address, heap_mark_blocks_taken, mark_taken_loop,
  heap_address_to_block, heap_mark_blocks_free, mark_free_loop, free_rounds,
}
use synapse_kernel.Heap.Kheap.{kheap_init, kmalloc, kfree}
use synapse_kernel.Pool.{Pool}
use synapse_kernel.Pool.Ready.{Ready}
use synapse_kernel.MemorySystem.{
  memory_system_init, memory_run_tests, memory_test_kernel_heap, test_large,
}
use synapse_kernel.MemorySystem.Tensors.{TurnedOver}
use synapse_kernel.MemorySystem.SelfTest.{memory_run_tests-memory_system_init}
use synapse_kernel.MemorySystem.Start.{memory_system_init-Ready}

abbrev heap_of : ℕ → Heap
heap_of total = record { table = record { entries = λ i. 0; total = total }; saddr = 0x100000 }

abbrev unset : Pool
unset = record {
  heap = heap_of 0;
  total_size = 0;
  used_size = 0;
  free_blocks = 0;
  free_block = λ i. 0;
  free_block_sizes = 0;
  free_block_size = λ i. 0;
  free_block_count = 0;
  small_block_pool = 0;
  small_block_bitmap = 0;
  bitmap = λ i. 0;
  small_block_count = 0;
  allocations = 0;
  deallocations = 0;
  peak_usage = 0;
}

memory_system_init-Ready_example :
    let (res, s') = memory_system_init (2 ^ 30) 0x84321 (λ i. 9) unset in
    (res ≡ eok)
    × Ready 0 (record unset { heap = (kheap_init (heap_of 0) (λ i. 9) (2 ^ 30) 0x84321).1 }) s'
memory_system_init-Ready_example =
    memory_system_init-Ready (2 ^ 30) 0x84321 (λ i. 9) unset (omega arith) (omega arith)

-- The heap's test passes on a heap of four free blocks, and fails on one of two.
passed : (memory_test_kernel_heap (heap_of 4) (λ a. 0)).0 ≡ eok
unfolding memory_test_kernel_heap test_large kmalloc kfree heap_malloc heap_free heap_malloc_blocks
    heap_get_start_block start_block_loop heap_align_value_to_upper heap_block_to_address
    heap_mark_blocks_taken mark_taken_loop heap_address_to_block heap_mark_blocks_free
    mark_free_loop free_rounds
passed = refl

failed : (memory_test_kernel_heap (heap_of 2) (λ a. 0)).0 ≡ err enomem
unfolding memory_test_kernel_heap test_large kmalloc kfree heap_malloc heap_free heap_malloc_blocks
    heap_get_start_block start_block_loop heap_align_value_to_upper heap_block_to_address
    heap_mark_blocks_taken mark_taken_loop heap_address_to_block heap_mark_blocks_free
    mark_free_loop free_rounds
failed = refl

memory_run_tests-memory_system_init_example :
    let (res, s₁) = memory_system_init (2 ^ 30) 0x84321 (λ i. 9) unset in
    let (res', s₂, _) = memory_run_tests (λ i. 7) s₁ (λ a. 0) in
    (res ≡ eok) × (res' ≡ eok) × TurnedOver s₁ s₂
memory_run_tests-memory_system_init_example =
    memory_run_tests-memory_system_init (2 ^ 30) 0x84321 (λ i. 9) unset (λ i. 7) (λ a. 0)
      (omega arith) (omega arith)
