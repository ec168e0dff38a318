-- ===== src/Process/Slots.antt =====
-- What process_create leaves in the process table, the process and its task.
use synapse_kernel.Prelude.{ℕ, ◌≡◌, List, Result, Errno, ok, err, FirstIndex, ◌⊎◌}
use synapse_kernel.Heap.{Heap}
use synapse_kernel.Task.{Ptr}
use synapse_kernel.Process.{Kernel, max_processes}
use synapse_kernel.Process.Create.{is_empty}
use synapse_kernel.Process.Made.{Created}

module _ (return_handler : Ptr) where
  -- How process_create can end.
  abbrev pub Outcomes : List ℕ → Ptr → ℕ → Kernel → Result (ℕ × Ptr) × Kernel → Type 0
  Outcomes name program_data size k (res, k') =
      ((e : Errno) × (res ≡ err e)
        × (k'.process_table ≡ k.process_table)
        × (k'.current_process ≡ k.current_process))
      ⊎ ((slot : ℕ) × (process : Ptr) × (res ≡ ok (slot, process))
          × FirstIndex max_processes 0 (is_empty k.process_table) slot
          × Created return_handler name program_data size slot process k k')
