-- ===== src/MemorySystem/SelfTest.antt =====
-- memory_run_tests, on a heap and a pool with room, and after memory_system_init.
use synapse_kernel.Prelude.{
  contrary, ℕ, ◌+◌, ◌-◌, ◌^◌, ◌≤◌, ◌<◌, ◌≡◌, refl, arith, eok, ap, ◌∙◌, inl, inr, first_from-cases,
  FirstIndex, true,
}
use synapse_kernel.Heap.{Entries}
use synapse_kernel.Heap.Kheap.{
  total_table_entries, heap_start_addr, total_table_entries_bounds, heap_start_addr_bounds,
  initialised,
}
use synapse_kernel.Heap.Free.{Sized}
use synapse_kernel.Heap.Prefix.{Prefix}
use synapse_kernel.Pool.{Pool, is_unused}
use synapse_kernel.Pool.Small.{Placed}
use synapse_kernel.MemorySystem.{memory_test_kernel_heap, memory_run_tests, memory_system_init}
use synapse_kernel.MemorySystem.Start.{memory_system_init-Ready}
use synapse_kernel.MemorySystem.Passes.{memory_test_kernel_heap-passes}
use synapse_kernel.MemorySystem.Tensors.{TurnedOver, memory_test_ai_memory-passes}

-- The tests pass on a heap of which the first `k` blocks are in use and three more are there, with a pool
-- that has a free small block, and leave the heap and the memory in use as they were.
pub memory_run_tests-passes :
    (stale : ℕ → ℕ) (s : Pool) (byte : ℕ → ℕ) (k i : ℕ)
    → Sized s.heap
    → Prefix s.heap k
    → k + 3 ≤ s.heap.table.total
    → 0 < s.heap.saddr
    → Placed s
    → FirstIndex s.small_block_count 0 (is_unused s) i
    → s.used_size < 2 ^ 64 - 64
    → let (res, s', _) = memory_run_tests stale s byte in (res ≡ eok) × TurnedOver s s'
unfolding memory_run_tests
memory_run_tests-passes stale s byte k i z prefix fits pos placed f small =
    let (e, h) = memory_test_kernel_heap-passes s.heap k z prefix fits pos byte in
    rw (e, h, memory_run_tests)
      (memory_test_ai_memory-passes stale s (memory_test_kernel_heap s.heap byte).2 k i z prefix
        fits pos placed f small)

-- After memory_system_init, for every size of the RAM and a kernel that ends below 2 ^ 62 and not at 0,
-- memory_run_tests passes, and leaves the heap and the memory in use of the pool as they were.
pub memory_run_tests-memory_system_init :
    (ram_size kernel_end : ℕ) (memory : Entries) (s : Pool) (stale byte : ℕ → ℕ)
    → 0 < kernel_end
    → kernel_end < 2 ^ 62
    → let (res, s₁) = memory_system_init ram_size kernel_end memory s in
      let (res', s₂, _) = memory_run_tests stale s₁ byte in
      (res ≡ eok) × (res' ≡ eok) × TurnedOver s₁ s₂
memory_run_tests-memory_system_init ram_size kernel_end memory s stale byte pos low =
    let (done, ready) = memory_system_init-Ready ram_size kernel_end memory s pos low in
    let s₁ = (memory_system_init ram_size kernel_end memory s).1 in
    let below : kernel_end < 2 ^ 63 = omega arith in
    let made = initialised s.heap memory ram_size kernel_end below in
    let start = heap_start_addr_bounds ram_size kernel_end below in
    let size = total_table_entries_bounds ram_size in
    let total : s₁.heap.table.total ≡ total_table_entries ram_size =
      ready.same_total ∙ ap (λ r. r.1.table.total) made in
    let saddr : s₁.heap.saddr ≡ heap_start_addr ram_size kernel_end =
      ready.same_saddr ∙ ap (λ r. r.1.saddr) made in
    let z : Sized s₁.heap = record {
      few = omega (arith, total, size);
      addressable = omega (arith, total, saddr, start, size);
    } in
    let count = ready.small in
    let free : is_unused s₁ 0 ≡ true = rw (ready.unused 0 (omega arith)) refl in
    elim (first_from-cases s₁.small_block_count 0 (is_unused s₁)) [
      | inl none_free ↦ absurd (contrary free (none_free.fails 0 (omega arith) (omega arith)))
      | inr (i, f) ↦
          let (res, turned) =
            memory_run_tests-passes stale s₁ byte 273 i z ready.prefix (omega (arith, total, size))
              (omega (arith, saddr, start)) ready.placed f (rw ready.unspent (omega arith)) in
          (done, res, turned)
    ]
