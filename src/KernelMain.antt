-- ===== src/KernelMain.antt =====
-- core/kernel_main.c: the start of the kernel, and its two test processes.
-- The boot information is not NULL: the code reads `ram_size` from it also when it has found it
-- invalid. The messages and the waiting loops are left out.
pub mod Memory
mod Tests
use synapse_kernel.Prelude.{
  ℕ, zero, suc, Option, none, some, Bool, true, false, List, Status, ok, eok, err, Result, ◌==◌,
  if◌then◌else◌,
}
use synapse_kernel.Heap.{Heap, Entries}
use synapse_kernel.Task.{Ptr, null, Outcome, returns, runs}
use synapse_kernel.Process.{Kernel, set_heap, process_malloc, process_free}
use synapse_kernel.Process.Create.{create_kernel_process, create_user_process}
use synapse_kernel.Process.Control.{process_current, process_terminate}
use synapse_kernel.Scheduler.{System}
use synapse_kernel.Syscall.{Calls}
use synapse_kernel.Pool.{Pool}
use synapse_kernel.MemorySystem.{memory_system_init, memory_run_tests}
use synapse_kernel.Management.{process_management_init, process_management_start}

-- The kernel, the system calls' state and the pool. The pool holds the kernel heap until the
-- processes are started; the tasks hold it from then on.
pub record Machine : Type 0 where
  pub system : System
  pub calls : Calls
  pub pool : Pool

-- Addresses that the linker gives, and what the initialisers read from the processor.
pub record Platform : Type 0 where
  pub kernel_end : ℕ
  pub irq : Ptr
  pub self : Ptr
  pub return_handler : Ptr
  pub kernel_entry : Ptr
  pub user_entry : Ptr
  pub kernel_dummy : Ptr
  pub user_dummy : Ptr
  pub kernel_name : List ℕ
  pub user_name : List ℕ
  pub isenabler0 : ℕ
  pub freq : ℕ
  pub current : ℕ
  pub frequency : ℕ

-- kernel_main does not return: it halts in an endless loop, or the processor runs a task.
pub data Boot : Type 0 where
  memory_failed : Boot
  management_failed : Boot
  kernel_process_failed : Boot
  user_process_failed : Boot
  management_returned : Boot
  started : Ptr → Boot

-- The outcome of process_management_start.
abbrev pub boot_of : Outcome → Boot
boot_of (returns res) = management_returned
boot_of (runs task) = started task

abbrev pub set_kernel : Machine → Kernel → Machine
set_kernel m k = record m { system = record m.system { kernel = k } }

-- kernel_main from the creation of the kernel process on. `fuel` is for the search of the first task.
unfoldable pub start_processes : ℕ → Platform → Machine → Option (Boot × Machine)
start_processes fuel at m =
    let (res, k) =
      create_kernel_process at.return_handler at.kernel_dummy at.kernel_entry (some at.kernel_name)
        m.system.kernel in
    elim res [
      | err e ↦ some (kernel_process_failed, set_kernel m k)
      | ok _ ↦
          let (res', k') =
            create_user_process at.return_handler at.user_dummy at.user_entry (some at.user_name)
              k in
          elim res' [
            | err e ↦ some (user_process_failed, set_kernel m k')
            | ok _ ↦ elim (process_management_start fuel (set_kernel m k').system) [
              | none ↦ none
              | some (outcome, s) ↦ some (boot_of outcome, record m { system = s })
            ]
          ]
    ]

-- kernel_main from process_management_init on, with the heap that the memory's start has left.
unfoldable pub start_management : ℕ → Platform → Machine → Option (Boot × Machine)
start_management fuel at m =
    let s = record m.system { kernel = set_heap m.system.kernel m.pool.heap } in
    let (res, s', calls) =
      process_management_init at.irq at.self at.isenabler0 at.freq at.current at.frequency s
        m.calls in
    let m' = record m { system = s'; calls = calls } in
    elim res [ err e ↦ some (management_failed, m') | ok _ ↦ start_processes fuel at m' ]

-- The result of memory_run_tests is printed only.
abbrev pub tested : (ℕ → ℕ) → Machine → Machine
tested stale m =
    let (_, pool, byte) = memory_run_tests stale m.pool m.system.kernel.byte in
    set_kernel (record m { pool = pool }) (record m.system.kernel { byte = byte })

unfoldable pub kernel_main :
    ℕ → ℕ → Platform → Entries → (ℕ → ℕ) → Machine → Option (Boot × Machine)
kernel_main fuel ram_size at memory stale m =
    let (res, pool) = memory_system_init ram_size at.kernel_end memory m.pool in
    let m' = record m { pool = pool } in
    elim res [
      | err e ↦ some (memory_failed, m')
      | ok _ ↦ start_management fuel at (tested stale m')
    ]

-- The body of kernel_process_test; `process_current()` is not NULL where it is run.
unfoldable pub kernel_process_test : Kernel → Status × Kernel
kernel_process_test k =
    let (mem, k₁) = process_malloc (process_current k) 128 k in
    let k₂ = if mem == null then k₁ else (process_free (process_current k₁) mem k₁).1 in
    process_terminate (k₂.process (process_current k₂)).id k₂

unfoldable pub user_process_test : Kernel → Status × Kernel
user_process_test k = process_terminate (k.process (process_current k)).id k
