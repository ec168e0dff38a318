-- ===== src/Process/Tests.antt =====
-- The theorems on processes at concrete kernels.
use synapse_kernel.Prelude.{ℕ, ◌≡◌, refl, arith, true, ◌==◌, eok, if◌then◌else◌, [], ◌∷◌}
use mathlib.Core.Logic.{◌↔◌}
use synapse_kernel.Heap.Kheap.{kmalloc, kfree}
use synapse_kernel.Task.{null}
use synapse_kernel.Task.Ring.{IsTaskList}
use synapse_kernel.Process.{
  set_heap, set_process, process_malloc, process_free, process_memory_verify,
}
use synapse_kernel.Process.Control.{process_get, process_current, process_terminate, process_switch}
use synapse_kernel.Process.Allocations.{without, process_free-process_malloc}
use synapse_kernel.Process.Verify.{
  NoWrap, Owns, process_memory_verify-Owns, process_memory_verify-wraps,
}
use synapse_kernel.Process.Switch.{process_terminate-removes, process_switch-keeps}
use synapse_kernel.Process.Sample.{cpu, sample, first_free, kmalloc-sample}

process_free-process_malloc_example :
    let (ptr, k') = process_malloc 5000 100 sample in
    let p = sample.process 5000 in
    (ptr ≡ (kmalloc 100 sample.tasks.heap).0)
    × ((k'.process 5000).allocations 0 ≡ record { ptr = ptr; size = 100 })
    × (process_free 5000 ptr k'
        ≡ (eok, set_process (set_heap sample (kfree ptr k'.tasks.heap)) 5000 (without p 0)))
process_free-process_malloc_example =
    process_free-process_malloc 5000 100 sample 0 (omega arith) (omega arith) first_free
      (rw kmalloc-sample (omega arith)) (λ j h. rw kmalloc-sample (omega arith))

in_space : NoWrap (sample.process 5000)
in_space = record { stack = omega arith; program = omega arith; owned = λ i h. omega arith }

process_memory_verify-Owns_example :
    (process_memory_verify 5000 0x30010 16 sample ≡ true) ↔ Owns (sample.process 5000) 0x30010 16
process_memory_verify-Owns_example =
    process_memory_verify-Owns 5000 0x30010 16 sample (omega arith) (omega arith) (omega arith)
      (omega arith) in_space

process_memory_verify-wraps_example :
    process_memory_verify 5000 0x40010 0xFFFF_FFFF_FFFF_FFFF sample ≡ true
process_memory_verify-wraps_example =
    process_memory_verify-wraps 5000 0x40010 0xFFFF_FFFF_FFFF_FFFF sample (omega arith)
      (omega arith) in_space (omega arith) (omega arith) (omega arith) (omega arith)

process_terminate-removes_example :
    let (status, k') = process_terminate 0 sample in
    (status ≡ eok)
    × (process_get 0 k' ≡ null)
    × ((j : ℕ) → k'.process_table j ≡ (if 0 == j then null else sample.process_table j))
    × IsTaskList k'.tasks.task k'.tasks.task_list_head (200 ∷ [])
    × ((sample.current_process ≡ 0) → process_current k' ≡ null)
process_terminate-removes_example =
    process_terminate-removes 0 sample [] (200 ∷ []) (omega arith) (omega arith)
      (refl, record { links = omega arith; distinct = omega arith; non_null = omega arith })

-- The current task, when the process in slot 1 is switched to.
process_switch-keeps_example :
    (process_switch cpu 1 sample).1.tasks.task 100 ≡ sample.tasks.task 100
process_switch-keeps_example = process_switch-keeps cpu 1 sample 100 (omega arith)
