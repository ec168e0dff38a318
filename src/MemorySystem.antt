-- ===== src/MemorySystem.antt =====
-- core/memory/memory_system.c: the start of the memory, and its tests.
-- `byte` is the bytes of the memory by address, `stale` what new arrays hold. The messages are left
-- out, and so are memory_print_regions, which only prints, and memory_test_regions, which only calls it.
pub mod Start
pub mod Passes
pub mod Tensors
pub mod SelfTest
pub mod Regions
mod Tests
use synapse_kernel.Prelude.{
  ℕ, ◌+◌, ◌*◌, ◌/◌, ◌%◌, ◌^◌, Option, none, some, Bool, true, false, ◌&&◌, ◌||◌, not, Status, ok,
  eok, err, enomem, efault, leb, ltb, ◌==◌, if◌then◌else◌,
}
use synapse_kernel.Heap.{Heap, Entries}
use synapse_kernel.Heap.Kheap.{kheap_init, kmalloc, kfree}
use synapse_kernel.Task.{Ptr, null}
use synapse_kernel.Pool.{Pool, ai_memory_init}
use synapse_kernel.Tensor.{ai_tensor_create, ai_tensor_destroy, tensor_type_float32}

-- AI_MEMORY_POOL_RATIO
abbrev pub ai_memory_pool_ratio : ℕ
ai_memory_pool_ratio = 4

-- `memory` is what the place of the heap's table holds before; the result of kheap_init is not read.
unfoldable pub memory_system_init : ℕ → ℕ → Entries → Pool → Status × Pool
memory_system_init ram_size kernel_end memory s =
    let (_, heap) = kheap_init s.heap memory ram_size kernel_end in
    let (res, s') = ai_memory_init (ram_size / ai_memory_pool_ratio) (record s { heap = heap }) in
    elim res [ err e ↦ (err e, s') | ok _ ↦ (eok, s') ]

-- `memset(p, c, n)`
abbrev pub filled_with : Ptr → ℕ → ℕ → (ℕ → ℕ) → ℕ → ℕ
filled_with p c n byte a = if leb p a && ltb a (p + n) then c else byte a

-- memory_test_kernel_heap from the large allocation on.
unfoldable pub test_large : Heap → (ℕ → ℕ) → Status × Heap × (ℕ → ℕ)
test_large heap byte =
    let (large, h₁) = kmalloc 8196 heap in
    if large == null
    then (err enomem, h₁, byte)
    else let byte' = filled_with large 0xDD 8196 byte in
      let (realloc, h₂) = kmalloc 128 (kfree large h₁) in
      if realloc == null then (err enomem, h₂, byte') else (eok, kfree realloc h₂, byte')

unfoldable pub memory_test_kernel_heap : Heap → (ℕ → ℕ) → Status × Heap × (ℕ → ℕ)
memory_test_kernel_heap heap byte =
    let (small1, h₁) = kmalloc 64 heap in
    let (small2, h₂) = kmalloc 128 h₁ in
    let (small3, h₃) = kmalloc 256 h₂ in
    if small1 == null || small2 == null || small3 == null
    then (err enomem, h₃, byte)
    else let byte' =
        filled_with small3 0xCC 256
          (filled_with small2 0xBB 128 (filled_with small1 0xAA 64 byte)) in
      if not (byte' small1 == 0xAA) || not (byte' (small1 + 63) == 0xAA)
      then (err efault, h₃, byte')
      else test_large (kfree small3 (kfree small2 (kfree small1 h₃))) byte'

unfoldable pub memory_test_ai_memory : (ℕ → ℕ) → Pool → (ℕ → ℕ) → Status × Pool × (ℕ → ℕ)
memory_test_ai_memory stale s byte =
    let (tensor1d, s', byte') =
      ai_tensor_create (some (λ i. 4)) 1 tensor_type_float32 0 1 stale s byte in
    elim tensor1d [
      | none ↦ (err enomem, s', byte')
      | some tensor ↦ let (res, s'') = ai_tensor_destroy (some tensor) s' in (res, s'', byte')
    ]

unfoldable pub memory_run_tests : (ℕ → ℕ) → Pool → (ℕ → ℕ) → Status × Pool × (ℕ → ℕ)
memory_run_tests stale s byte =
    let (res, heap, byte') = memory_test_kernel_heap s.heap byte in
    let s' = record s { heap = heap } in
    elim res [ err e ↦ (err e, s', byte') | ok _ ↦ memory_test_ai_memory stale s' byte' ]
