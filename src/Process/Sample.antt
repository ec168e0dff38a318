-- ===== src/Process/Sample.antt =====
-- A kernel with two processes, on which the theorems are run.
use synapse_kernel.Prelude.{ℕ, ◌+◌, ◌≡◌, refl, ap, ◌∙◌, arith, first_from, ◌==◌, if◌then◌else◌}
use synapse_kernel.Heap.{
  heap_malloc, heap_align_value_to_upper, heap_malloc_blocks, heap_get_start_block,
  start_block_loop, heap_block_to_address,
}
use synapse_kernel.Heap.Kheap.{kmalloc}
use synapse_kernel.Task.{
  Ptr, Task, Tasks, TaskState, running, ready, Registers, InterruptFrame, zero_task,
}
use synapse_kernel.Process.{Process, Kernel, process_malloc}
use synapse_kernel.Process.Allocations.{FirstFree, process_malloc-recorded}
use synapse_kernel.Process.Create.{zero_process}

abbrev pub cpu : Registers
cpu = record { x = λ i. 0x9000 + i; sp = 0x7000; pc = 0; spsr_el1 = 0; elr_el1 = 0 }

abbrev pub frame : InterruptFrame
frame = record { x = λ i. i; sp = 0x8000; elr_el1 = 0x4000; spsr_el1 = 0x305 }

abbrev pub task_of : TaskState → Ptr → Ptr → Task
task_of state process other = record {
  id = 1;
  state = state;
  priority = 1;
  registers = record { x = λ i. 0; sp = 0x8000; pc = 0x4000; spsr_el1 = 0x305; elr_el1 = 0x4000 };
  process = process;
  next = other;
  prev = other;
}

abbrev pub two_tasks : Tasks
two_tasks = record {
  heap = record { table = record { entries = λ i. 0; total = 64 }; saddr = 0x10000 };
  task = λ p.
      if p == 100
      then task_of running 5000 200
      else if p == 200
      then task_of ready 6000 100
      else zero_task;
  task_list_head = 100;
  current_task = 100;
  next_task_id = 2;
}

abbrev pub process_of : ℕ → Ptr → Process
process_of id task = record zero_process {
  id = id;
  task = task;
  ptr = 0x30000;
  size = 4096;
  stack = 0x40000;
}

-- Slot 0 holds the process at 5000, which is current, and slot 1 that at 6000.
abbrev pub sample : Kernel
sample = record {
  tasks = two_tasks;
  process = λ p. if p == 5000 then process_of 0 100 else process_of 1 200;
  process_table = λ i. if i == 0 then 5000 else if i == 1 then 6000 else 0;
  current_process = 0;
  byte = λ a. 0;
  word = λ a. 0;
}

-- The first block of the heap is free.
pub kmalloc-sample : (kmalloc 100 sample.tasks.heap).0 ≡ 0x10000
unfolding kmalloc heap_malloc heap_align_value_to_upper heap_malloc_blocks heap_get_start_block
    start_block_loop heap_block_to_address
kmalloc-sample = refl

-- The same, with the process in slot 1 running and that in slot 0 ready.
abbrev pub second_running : Kernel
second_running = record sample {
  tasks = record two_tasks {
    task = λ p.
        if p == 100
        then task_of ready 5000 200
        else if p == 200
        then task_of running 6000 100
        else zero_task;
    current_task = 200;
  };
  current_process = 1;
}

-- The first entry of the process at 5000 is free.
pub first_free : FirstFree 5000 sample 0
unfolding first_from
first_free = record {
  finds = refl;
  from = omega arith;
  below = omega arith;
  passes = refl;
  least = λ l a b. absurd (omega arith);
}

pub process_malloc-sample : (process_malloc 5000 100 sample).0 ≡ 0x10000
process_malloc-sample =
    ap (λ r. r.0)
      (process_malloc-recorded 5000 100 sample 0 (omega arith) (omega arith) first_free
        (rw kmalloc-sample (omega arith)))
    ∙ kmalloc-sample
