-- ===== src/MemorySystem/Start.antt =====
-- memory_system_init: the heap and the pool after the start.
use synapse_kernel.Prelude.{ℕ, ◌/◌, ◌^◌, ◌<◌, ◌≡◌, refl, arith, eok}
use synapse_kernel.Heap.{Heap, Entries}
use synapse_kernel.Heap.Kheap.{
  kheap_init, total_table_entries, heap_start_addr, total_table_entries_bounds,
  heap_start_addr_bounds, heap_start_addr_near, initialised, cleared,
}
use synapse_kernel.Heap.Prefix.{Prefix}
use synapse_kernel.Pool.{Pool, ai_memory_init}
use synapse_kernel.Pool.Ready.{Ready, ai_memory_init-Ready}
use synapse_kernel.MemorySystem.{memory_system_init, ai_memory_pool_ratio}

memory_system_init-eok :
    (ram_size kernel_end : ℕ) (memory : Entries) (s : Pool) (heap : Heap)
    → kheap_init s.heap memory ram_size kernel_end ≡ (eok, heap)
    → (ai_memory_init (ram_size / ai_memory_pool_ratio) (record s { heap = heap })).0 ≡ eok
    → memory_system_init ram_size kernel_end memory s
      ≡ (eok, (ai_memory_init (ram_size / ai_memory_pool_ratio) (record s { heap = heap })).1)
unfolding memory_system_init
memory_system_init-eok ram_size kernel_end memory s heap made done =
    rw (made, done, memory_system_init) (rw made refl)

-- For every size of the RAM and a kernel that ends below 2 ^ 62 and not before its 1st byte,
-- memory_system_init succeeds, and leaves the pool ready on a heap whose first 273 blocks are in use.
pub memory_system_init-Ready :
    (ram_size kernel_end : ℕ) (memory : Entries) (s : Pool)
    → 0 < kernel_end
    → kernel_end < 2 ^ 62
    → let (res, s') = memory_system_init ram_size kernel_end memory s in
      (res ≡ eok)
      × Ready 0 (record s { heap = (kheap_init s.heap memory ram_size kernel_end).1 }) s'
memory_system_init-Ready ram_size kernel_end memory s pos low =
    let below : kernel_end < 2 ^ 63 = omega arith in
    let start = heap_start_addr_bounds ram_size kernel_end below in
    let near = heap_start_addr_near ram_size kernel_end below in
    let size = total_table_entries_bounds ram_size in
    let made = initialised s.heap memory ram_size kernel_end below in
    let heap =
      cleared memory (total_table_entries ram_size) (heap_start_addr ram_size kernel_end) in
    let prefix : Prefix heap 0 = record {
      in_use = λ j lt. absurd (omega arith);
      unused = λ j lo lt. ground arith;
    } in
    let (done, ready) =
      ai_memory_init-Ready (ram_size / ai_memory_pool_ratio) 0 (record s { heap = heap }) prefix
        (omega (arith, size)) (omega (arith, start)) (omega (arith, start, near, size)) in
    rw (memory_system_init-eok ram_size kernel_end memory s heap made done, made) (refl, ready)
