-- ===== src/Task/Tests.antt =====
-- The task list's theorems at a list of three tasks.
use synapse_kernel.Prelude.{◌≡◌, refl, [], ◌∷◌, arith, ◌==◌, if◌then◌else◌, eok, some}
use synapse_kernel.Heap.{
  heap_malloc, heap_align_value_to_upper, heap_malloc_blocks, heap_get_start_block,
  start_block_loop, heap_block_to_address,
}
use synapse_kernel.Heap.Kheap.{kmalloc}
use synapse_kernel.Task.{
  Ptr, null, Task, Tasks, TaskState, new, ready, running, blocked, zero_task, task_new, task_free,
  task_schedule, priority_normal,
}
use synapse_kernel.Task.Ring.{IsTaskList}
use synapse_kernel.Task.Create.{task_new-IsTaskList}
use synapse_kernel.Task.Remove.{task_free-IsTaskList}
use synapse_kernel.Task.Schedule.{scheduled, task_schedule-scheduled}

abbrev linked : TaskState → Ptr → Ptr → Task
linked state next prev = record {
  id = 1;
  state = state;
  priority = 1;
  registers = record { x = λ i. 0; sp = 16; pc = 4; spsr_el1 = 0; elr_el1 = 4 };
  process = null;
  next = next;
  prev = prev;
}

-- 100 is running, 200 is blocked, 300 is ready.
abbrev three : Tasks
three = record {
  heap = record { table = record { entries = λ i. 0; total = 8 }; saddr = 0x10000 };
  task = λ p.
      if p == 100
      then linked running 200 300
      else if p == 200
      then linked blocked 300 100
      else if p == 300
      then linked ready 100 200
      else zero_task;
  task_list_head = 100;
  current_task = 100;
  next_task_id = 7;
}

three-IsTaskList : IsTaskList three.task 100 (100 ∷ 200 ∷ 300 ∷ [])
three-IsTaskList =
    (refl, record { links = omega arith; distinct = omega arith; non_null = omega arith })

allocates : (kmalloc 312 three.heap).0 ≡ 0x10000
unfolding kmalloc heap_malloc heap_align_value_to_upper heap_malloc_blocks heap_get_start_block
    start_block_loop heap_block_to_address
allocates = refl

created_at : (task_new 0 three).0 ≡ 0x10000
unfolding task_new
created_at = rw allocates

task_new-IsTaskList_example :
    let (t, s') = task_new 0 three in
    IsTaskList s'.task s'.task_list_head (100 ∷ 200 ∷ 300 ∷ t ∷ [])
    × ((s'.task t).id ≡ 7)
    × ((s'.task t).state ≡ new)
    × ((s'.task t).priority ≡ priority_normal)
task_new-IsTaskList_example =
    task_new-IsTaskList 0 three (100 ∷ 200 ∷ 300 ∷ []) three-IsTaskList
      (rw created_at (omega arith)) (rw created_at (omega arith))

task_free-IsTaskList_example :
    let (status, s') = task_free 200 three in
    (status ≡ eok) × IsTaskList s'.task s'.task_list_head (100 ∷ 300 ∷ []) × (s'.current_task ≡ 100)
task_free-IsTaskList_example = task_free-IsTaskList three (100 ∷ []) 200 (300 ∷ []) three-IsTaskList

task_schedule-scheduled_example :
    task_schedule 3 three ≡ some (scheduled three (200 ∷ 300 ∷ 100 ∷ []))
task_schedule-scheduled_example =
    task_schedule-scheduled 3 three [] 100 (200 ∷ 300 ∷ []) three-IsTaskList refl (omega arith)
