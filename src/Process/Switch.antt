-- ===== src/Process/Switch.antt =====
-- process_switch and process_terminate.
use synapse_kernel.Prelude.{
  ℕ, ◌<◌, ◌≡◌, ◌≢◌, refl, ◌∙◌, arith, Bool, true, false, ◌||◌, ◌==◌, leb, if◌then◌else◌, List, ◌∷◌,
  ◌++◌, eok, ==_ne, ==_self, Bool-cases, inl, inr,
}
use synapse_kernel.Task.{
  Ptr, null, Tasks, Registers, running, runs, task_switch, task_save_context,
  task_current_save_state,
}
use synapse_kernel.Task.Ring.{IsTaskList}
use synapse_kernel.Task.Remove.{task_free-IsTaskList}
use synapse_kernel.Process.{Kernel, max_processes, max_processes_allocations}
use synapse_kernel.Process.Control.{
  process_get, process_current, process_switch, switched, process_terminate, terminate_in,
  free_allocations, free_arguments,
}

-- The tasks when process_terminate calls task_free.
abbrev pub released : Ptr → Kernel → Tasks
released process k =
    let p = k.process process in
    record k.tasks {
      heap =
          free_arguments p k.word
            (free_allocations max_processes_allocations 0 p.allocations k.tasks.heap).1;
    }

module _ (id : ℕ) (process : Ptr) (k : Kernel) where
  terminate_in_table :
      (j : ℕ)
      → (terminate_in id process k).process_table j ≡ (if id == j then null else k.process_table j)
  unfolding terminate_in
  terminate_in_table j = refl

  terminate_in_current :
      k.current_process ≡ id → (terminate_in id process k).current_process ≡ max_processes
  unfolding terminate_in
  terminate_in_current e = rw (e, ==_self id) refl

  terminate_in_tasks :
      (front back : List Ptr)
      → IsTaskList k.tasks.task k.tasks.task_list_head (front ++ (k.process process).task ∷ back)
      → let tasks = (terminate_in id process k).tasks in
        IsTaskList tasks.task tasks.task_list_head (front ++ back)
  unfolding terminate_in
  terminate_in_tasks front back l =
      (task_free-IsTaskList (released process k) front (k.process process).task back l).1

module _ (id : ℕ) (k : Kernel) (front back : List Ptr) where
  -- Terminating a process whose task is in the task list succeeds: the slot is empty, no other slot
  -- changes, the task leaves the list and the other tasks keep their order, and if the process was
  -- the current one there is no current process any more.
  pub process_terminate-removes :
      id < max_processes
      → k.process_table id ≢ null
      → let task = (k.process (k.process_table id)).task in
        IsTaskList k.tasks.task k.tasks.task_list_head (front ++ task ∷ back)
        → let (status, k') = process_terminate id k in
          (status ≡ eok)
          × (process_get id k' ≡ null)
          × ((j : ℕ) → k'.process_table j ≡ (if id == j then null else k.process_table j))
          × IsTaskList k'.tasks.task k'.tasks.task_list_head (front ++ back)
          × ((k.current_process ≡ id) → process_current k' ≡ null)
  unfolding process_terminate process_get process_current
  process_terminate-removes lt ne l =
      let process = k.process_table id in
      let valid : leb max_processes id ≡ false = ground arith in
      let table = terminate_in_table id process k in
      let none_left : k.current_process ≡ id → process_current (terminate_in id process k) ≡ null =
        λ e. rw (terminate_in_current id process k e) refl in
      rw (valid, ==_ne process null ne)
        (
          refl,
          table id ∙ rw (==_self id) refl,
          table,
          terminate_in_tasks id process k front back l,
          none_left,
        )

-- task_switch writes to no task but the one that it switches to.
switch_keeps :
    (task other : Ptr) (s : Tasks) → task ≢ other → (task_switch task s).1.task other ≡ s.task other
unfolding task_switch
switch_keeps task other s ne = elim (Bool-cases (task == null)) [
  | inl a ↦ rw a refl
  | inr a ↦ elim (Bool-cases ((s.task task).registers.sp == 0)) [
    | inl b ↦ rw (a, b) refl
    | inr b ↦ elim (Bool-cases ((s.task task).registers.pc == 0)) [
      | inl c ↦ rw (a, b, c) refl
      | inr c ↦ rw (a, b, c, ==_ne task other ne) refl
    ]
  ]
]

-- task_current_save_state saves nothing.
pub task_current_save_state-same :
    (cpu : Registers) (s : Tasks) → (task_current_save_state cpu s).1 ≡ s
unfolding task_current_save_state task_save_context
task_current_save_state-same cpu s = elim (Bool-cases (s.current_task == null)) [
  | inl e ↦ rw e refl
  | inr e ↦ rw e refl
]

pub same_tasks : (b : Bool) (s s' : Tasks) → s' ≡ s → (if b then s else s') ≡ s
same_tasks true s s' e = refl
same_tasks false s s' e = e

module _ (cpu : Registers) (id : ℕ) (k : Kernel) where
  -- Switching to a process in the table whose task has a stack pointer and a program counter: the processor runs that task, which becomes the current task and RUNNING,
  -- and the process becomes the current one.
  pub process_switch-runs :
      id < max_processes
      → k.process_table id ≢ null
      → let task = (k.process (k.process_table id)).task in
        task ≢ null
        → (k.tasks.task task).registers.sp ≢ 0
        → (k.tasks.task task).registers.pc ≢ 0
        → let (outcome, k') = process_switch cpu id k in
          (outcome ≡ runs task)
          × (k'.current_process ≡ id)
          × (k'.tasks.current_task ≡ task)
          × ((k'.tasks.task task).state ≡ running)
  unfolding process_switch switched task_switch
  process_switch-runs lt ne tn sp pc =
      let valid : leb max_processes id ≡ false = ground arith in
      let saved = task_current_save_state-same cpu k.tasks in
      rw
        (
          valid,
          ==_ne (k.process_table id) null ne,
          same_tasks (k.process_table k.current_process == null) k.tasks
              (task_current_save_state cpu k.tasks).1 saved,
          ==_ne _ null tn,
          ==_ne _ 0 sp,
          ==_ne _ 0 pc,
        )
        (refl, refl, refl, ground arith)

  -- process_switch changes no task but that of the process that it switches to: the current task
  -- keeps the registers that stood in it before, none of them those of the processor, and its state.
  pub process_switch-keeps :
      (other : Ptr)
      → (k.process (k.process_table id)).task ≢ other
      → (process_switch cpu id k).1.tasks.task other ≡ k.tasks.task other
  unfolding process_switch
  process_switch-keeps other ne =
      elim (Bool-cases (leb max_processes id || k.process_table id == null)) [
        | inl e ↦ rw e refl
        | inr e ↦
            rw
              (
                e,
                same_tasks (k.process_table k.current_process == null) k.tasks
                    (task_current_save_state cpu k.tasks).1
                    (task_current_save_state-same cpu k.tasks),
              )
              (switch_keeps (k.process (k.process_table id)).task other k.tasks ne)
      ]
