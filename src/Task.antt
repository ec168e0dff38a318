-- ===== src/Task.antt =====
-- core/task/task.c: the circular task list and the switch between tasks.
-- A `struct task*` is an address, 0 for NULL, and the tasks are a store by address. The UART
-- messages are left out.
pub mod Ring
pub mod Create
pub mod Remove
pub mod Schedule
pub mod Context
mod Tests
use synapse_kernel.Prelude.{
  ℕ, zero, suc, ◌+◌, ◌%◌, ◌^◌, Option, none, some, Bool, true, false, ◌&&◌, ◌||◌, not, Status, eok,
  err, Errno, einvarg, efault, enotask, ltb, leb, ◌==◌, if◌then◌else◌, update,
}
use synapse_kernel.Heap.{Heap}
use synapse_kernel.Heap.Kheap.{kmalloc, kfree}

abbrev pub Ptr : Type 0
Ptr = ℕ

abbrev pub null : Ptr
null = 0

-- TASK_STATE_NEW to TASK_STATE_FINISHED
pub data TaskState : Type 0 where
  new ready running blocked finished : TaskState

-- `state == TASK_STATE_READY`, and so for the others
abbrev pub is_ready : TaskState → Bool
is_ready ready = true
is_ready _ = false

abbrev pub is_running : TaskState → Bool
is_running running = true
is_running _ = false

abbrev pub is_blocked : TaskState → Bool
is_blocked blocked = true
is_blocked _ = false

-- TASK_PRIORITY_LOW, TASK_PRIORITY_NORMAL, TASK_PRIORITY_HIGH
abbrev pub priority_low : ℕ
priority_low = 0

abbrev pub priority_normal : ℕ
priority_normal = 1

abbrev pub priority_high : ℕ
priority_high = 2

-- `x i` is the register xi, for i from 0 to 30.
pub record Registers : Type 0 where
  pub x : ℕ → ℕ
  pub sp : ℕ
  pub pc : ℕ
  pub spsr_el1 : ℕ
  pub elr_el1 : ℕ

pub record InterruptFrame : Type 0 where
  pub x : ℕ → ℕ
  pub sp : ℕ
  pub elr_el1 : ℕ
  pub spsr_el1 : ℕ

pub record Task : Type 0 where
  pub id : ℕ
  pub state : TaskState
  pub priority : ℕ
  pub registers : Registers
  pub process : Ptr
  pub next : Ptr
  pub prev : Ptr

-- The state of task.c, with the kernel heap that it allocates from.
pub record Tasks : Type 0 where
  pub heap : Heap
  pub task : Ptr → Task
  pub task_list_head : Ptr
  pub current_task : Ptr
  pub next_task_id : ℕ

-- `sizeof(struct task)`
abbrev pub task_size : ℕ
task_size = 312

-- A task whose bytes are all 0.
abbrev pub zero_task : Task
zero_task = record {
  id = 0;
  state = new;
  priority = 0;
  registers = record { x = λ i. 0; sp = 0; pc = 0; spsr_el1 = 0; elr_el1 = 0 };
  process = null;
  next = null;
  prev = null;
}

abbrev pub Store : Type 0
Store = Ptr → Task

-- `p->next = q`, `p->prev = q`, `p->state = s`
abbrev pub set_next : Store → Ptr → Ptr → Store
set_next store p q = update store p (record (store p) { next = q })

abbrev pub set_prev : Store → Ptr → Ptr → Store
set_prev store p q = update store p (record (store p) { prev = q })

abbrev pub set_state : Store → Ptr → TaskState → Store
set_state store p s = update store p (record (store p) { state = s })

unfoldable pub task_current : Tasks → Ptr
task_current s = s.current_task

-- The links that task_new writes: the task alone in the list, or at its end.
unfoldable pub link_last : Store → Ptr → Ptr → Store
link_last store head task =
    if head == null
    then set_prev (set_next store task task) task task
    else let linked = set_prev (set_next store task head) task (store head).prev in
      set_prev (set_next linked (linked head).prev task) head task

-- `task_priority` is a byte. Returns the task, NULL on failure.
unfoldable pub task_new : ℕ → Tasks → Ptr × Tasks
task_new task_priority s =
    if not (task_priority == priority_high)
      && not (task_priority == priority_low)
      && not (task_priority == priority_normal)
    then (null, s)
    else let (task, heap) = kmalloc task_size s.heap in
      if task == null
      then (null, record s { heap = heap })
      else let fresh : Task = record zero_task {
        id = s.next_task_id;
        priority = if task_priority == 0 then priority_normal else task_priority;
      } in
        (
          task,
          record {
            heap = heap;
            task = link_last (update s.task task fresh) s.task_list_head task;
            task_list_head = if s.task_list_head == null then task else s.task_list_head;
            current_task = s.current_task;
            next_task_id = (s.next_task_id + 1) % 2 ^ 32;
          },
        )

-- `task->prev->next = task->next; task->next->prev = task->prev;`
unfoldable pub unlink : Store → Ptr → Store
unlink store task =
    let store' = set_next store (store task).prev (store task).next in
    set_prev store' (store' task).next (store' task).prev

unfoldable pub task_free : Ptr → Tasks → Status × Tasks
task_free task s =
    if task == null
    then (err einvarg, s)
    else let alone = ((s.task task).next == task) && ((s.task task).prev == task) in
      let head =
        if s.task_list_head == task
        then (if alone then null else (s.task task).next)
        else s.task_list_head in
      (
        eok,
        record s {
          heap = kfree task s.heap;
          task = if alone then s.task else unlink s.task task;
          task_list_head = head;
          current_task = if s.current_task == task then null else s.current_task;
        },
      )

-- `int_frame` is `none` for NULL.
unfoldable pub task_save_state : Ptr → Option InterruptFrame → Tasks → Status × Tasks
task_save_state task none s = (err einvarg, s)
task_save_state task (some int_frame) s =
    if task == null
    then (err einvarg, s)
    else let registers : Registers = record {
      x = λ i. if ltb i 31 then int_frame.x i else (s.task task).registers.x i;
      sp = int_frame.sp;
      pc = int_frame.elr_el1;
      spsr_el1 = int_frame.spsr_el1;
      elr_el1 = int_frame.elr_el1;
    } in
      (eok, record s { task = update s.task task (record (s.task task) { registers = registers }) })

-- The word `current_task` that task_save_context reads is the label of that name in
-- core/task/context_switch.S, which is not global, and not the variable of task.c: it holds 0, and
-- no instruction writes it.
abbrev pub own_current_task : Ptr
own_current_task = null

-- task_save_context of core/task/context_switch.S. `cpu` is the processor's registers at the call;
-- `cpu.x 30` is the address behind it.
unfoldable pub task_save_context : Registers → Tasks → Tasks
task_save_context cpu s =
    if own_current_task == null
    then s
    else let old = (s.task own_current_task).registers in
      let registers : Registers = record old {
        x = λ i. if leb 19 i && leb i 30 then cpu.x i else old.x i;
        sp = cpu.sp;
        pc = cpu.x 30;
      } in
      record s {
        task =
            update s.task own_current_task
              (record (s.task own_current_task) { registers = registers });
      }

unfoldable pub task_current_save_state : Registers → Tasks → Status × Tasks
task_current_save_state cpu s =
    if s.current_task == null then (err einvarg, s) else (eok, task_save_context cpu s)

-- How a function that may switch tasks ends: it returns, or the processor runs the task.
pub data Outcome : Type 0 where
  returns : Status → Outcome
  runs : Ptr → Outcome

-- task_restore_context does not return for a task that is not NULL.
unfoldable pub task_switch : Ptr → Tasks → Outcome × Tasks
task_switch task s =
    if task == null
    then (returns (err einvarg), s)
    else if (s.task task).registers.sp == 0
    then (returns (err efault), s)
    else if (s.task task).registers.pc == 0
    then (returns (err efault), s)
    else (runs task, record s { current_task = task; task = set_state s.task task running })

-- The search for a ready task: the task that was found, or NULL after a full circle. `none` means
-- that the fuel ran out: the list is no circle through `start`.
unfoldable pub find_ready : ℕ → Store → Ptr → Ptr → Option Ptr
find_ready zero store start next = none
find_ready (suc fuel) store start next =
    let following = (store next).next in
    let rest = find_ready fuel store start following in
    if is_ready (store next).state
    then some next
    else if following == start
    then some null
    else rest

-- `fuel` bounds the rounds of the loop.
unfoldable pub task_schedule : ℕ → Tasks → Option (Outcome × Tasks)
task_schedule fuel s =
    if s.task_list_head == null
    then some (returns (err enotask), s)
    else if s.current_task == null
    then some (task_switch s.task_list_head s)
    else let start = (s.task s.current_task).next in
      elim (find_ready fuel s.task start start) [
        | none ↦ none
        | some next ↦ some (
            if next == null
            then (if is_running (s.task s.current_task).state
                then (returns eok, s)
                else (returns (err enotask), s))
            else task_switch next s)
      ]

unfoldable pub task_run_first_ever_task : ℕ → Tasks → Option (Outcome × Tasks)
task_run_first_ever_task fuel s =
    if s.task_list_head == null
    then some (returns (err enotask), s)
    else elim (find_ready fuel s.task s.task_list_head s.task_list_head) [
      | none ↦ none
      | some task ↦ some (if task == null then (returns (err enotask), s) else task_switch task s)
    ]

unfoldable pub task_return : ℕ → Tasks → Option (Outcome × Tasks)
task_return fuel s =
    if s.current_task == null
    then some (returns (err einvarg), s)
    else task_schedule fuel (record s { task = set_state s.task s.current_task finished })

unfoldable pub task_block : ℕ → Tasks → Option (Outcome × Tasks)
task_block fuel s =
    if s.current_task == null
    then some (returns (err einvarg), s)
    else task_schedule fuel (record s { task = set_state s.task s.current_task blocked })

unfoldable pub task_unblock : Ptr → Tasks → Status × Tasks
task_unblock task s =
    if task == null
    then (err einvarg, s)
    else if is_blocked (s.task task).state
    then (eok, record s { task = set_state s.task task ready })
    else (eok, s)
