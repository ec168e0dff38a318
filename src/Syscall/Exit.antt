-- ===== src/Syscall/Exit.antt =====
-- The exit of the current process: syscall_process_exit of core/interrupts/syscall.c.
use synapse_kernel.Prelude.{
  ℕ, ◌<◌, ◌≡◌, ◌≢◌, refl, sym, ◌∙◌, arith, true, false, ◌==◌, leb, List, ◌∷◌, ◌++◌, ◌&&◌, ==_ne,
  ==_self, Bool-cases, inl, inr, some, ap, subst, eok,
}
use synapse_kernel.Task.{
  Ptr, null, Store, Tasks, runs, running, unlink, task_free, task_switch, set_state, task_schedule,
}
use synapse_kernel.Task.Ring.{IsTaskList}
use synapse_kernel.Task.Schedule.{set_state-IsTaskList}
use synapse_kernel.Task.Remove.{task_free-IsTaskList}
use synapse_kernel.Process.{Kernel, max_processes}
use synapse_kernel.Process.Control.{process_get, process_current, process_terminate, terminate_in}
use synapse_kernel.Process.Switch.{released}
use synapse_kernel.Syscall.{Calls, switches, process_exit}

unlink-registers : (store : Store) (t x : Ptr) → (unlink store t x).registers ≡ (store x).registers
unfolding unlink
unlink-registers store t x = ground arith

task_free-registers :
    (t x : Ptr) (s : Tasks) → ((task_free t s).1.task x).registers ≡ (s.task x).registers
unfolding task_free
task_free-registers t x s = elim (Bool-cases (t == null)) [
  | inl a ↦ rw a refl
  | inr a ↦ elim (Bool-cases (((s.task t).next == t) && ((s.task t).prev == t))) [
    | inl b ↦ rw (a, b) refl
    | inr b ↦ rw (a, b) (unlink-registers s.task t x)
  ]
]

-- With no current task task_schedule switches to the head of the list.
task_schedule-head :
    (fuel : ℕ) (x : Ptr) (rest : List Ptr) (s : Tasks)
    → IsTaskList s.task s.task_list_head (x ∷ rest)
    → s.current_task ≡ null
    → task_schedule fuel s ≡ some (task_switch x s)
unfolding task_schedule
task_schedule-head fuel x rest s (e, r) none_left =
    let some_task : s.task_list_head ≢ null = rw e r.non_null.0 in
    let empty : (s.current_task == null) ≡ true = rw none_left (==_self null) in
    rw (==_ne s.task_list_head null some_task, empty) (ap (λ y. some (task_switch y s)) e)

abbrev pub running_task : Ptr → Tasks → Tasks
running_task x s = record s { current_task = x; task = set_state s.task x running }

task_switch-runs_on :
    (x : Ptr) (s : Tasks)
    → x ≢ null
    → (s.task x).registers.sp ≢ 0
    → (s.task x).registers.pc ≢ 0
    → task_switch x s ≡ (runs x, running_task x s)
unfolding task_switch
task_switch-runs_on x s ne sp pc = rw (==_ne x null ne, ==_ne _ 0 sp, ==_ne _ 0 pc) refl

-- The kernel after process_terminate of the current process.
abbrev pub left : Kernel → Kernel
left k = terminate_in k.current_process (k.process_table k.current_process) k

left-registers :
    (k : Kernel) (x : Ptr) → ((left k).tasks.task x).registers ≡ (k.tasks.task x).registers
unfolding terminate_in
left-registers k x =
    let process = k.process_table k.current_process in
    task_free-registers (k.process process).task x (released process k)

left-tasks :
    (k : Kernel) (front back : List Ptr)
    → let task = (k.process (k.process_table k.current_process)).task in
      k.tasks.current_task ≡ task
      → IsTaskList k.tasks.task k.tasks.task_list_head (front ++ task ∷ back)
      → let tasks = (left k).tasks in
        IsTaskList tasks.task tasks.task_list_head (front ++ back) × (tasks.current_task ≡ null)
unfolding terminate_in
left-tasks k front back current l =
    let process = k.process_table k.current_process in
    let task = (k.process process).task in
    let (status, list, now) = task_free-IsTaskList (released process k) front task back l in
    (list, now ∙ rw (current, ==_self task) refl)

left-current :
    (k : Kernel) (tasks : Tasks)
    → k.current_process < max_processes
    → let k' = record (left k) { tasks = tasks } in
      (process_get k.current_process k' ≡ null) × (process_current k' ≡ null)
unfolding terminate_in process_get process_current
left-current k tasks lt =
    let valid : leb max_processes k.current_process ≡ false = ground arith in
    rw (valid, ==_self k.current_process) (refl, refl)

process_current-at :
    (k : Kernel)
    → k.current_process < max_processes
    → process_current k ≡ k.process_table k.current_process
unfolding process_current
process_current-at k lt =
    let valid : leb max_processes k.current_process ≡ false = ground arith in rw valid refl

process_terminate-left :
    (k : Kernel)
    → k.current_process < max_processes
    → k.process_table k.current_process ≢ null
    → process_terminate k.current_process k ≡ (eok, left k)
unfolding process_terminate
process_terminate-left k lt ne =
    let valid : leb max_processes k.current_process ≡ false = ground arith in
    rw (valid, ==_ne (k.process_table k.current_process) null ne) refl

process_exit-switches :
    (fuel : ℕ) (s : Calls) (next : Ptr) (tasks : Tasks)
    → s.kernel.current_process < max_processes
    → s.kernel.process_table s.kernel.current_process ≢ null
    → (s.kernel.process (s.kernel.process_table s.kernel.current_process)).id
      ≡ s.kernel.current_process
    → task_schedule fuel (left s.kernel).tasks ≡ some (runs next, tasks)
    → process_exit fuel s
      ≡ some (switches next, record s { kernel = record (left s.kernel) { tasks = tasks } })
unfolding process_exit
process_exit-switches fuel s next tasks lt ne id run =
    let current = process_current-at s.kernel lt in
    let here = ==_ne (s.kernel.process_table s.kernel.current_process) null ne in
    let gone = process_terminate-left s.kernel lt ne in
    rw (current, here, id, gone, run, process_exit) (rw (current, here, id, gone) refl)

module _ (fuel : ℕ) (s : Calls) (front back rest : List Ptr) (next : Ptr) where
  -- Where the current process is in its slot under its own number, its task is the current task and
  -- stands in the task list with others, process_exit ends, whatever fuel is given, by running the
  -- task that is then the head of the list, whatever state that task was in, if it has a stack
  -- pointer and a program counter. The slot of the process is empty, and no process is the current
  -- one, though a task runs. The other tasks are in the list in their order, and the task that runs
  -- is the current task and RUNNING.
  pub process_exit-next :
      let k = s.kernel in
      let process = k.process_table k.current_process in
      let task = (k.process process).task in
      k.current_process < max_processes
      → process ≢ null
      → (k.process process).id ≡ k.current_process
      → k.tasks.current_task ≡ task
      → IsTaskList k.tasks.task k.tasks.task_list_head (front ++ task ∷ back)
      → front ++ back ≡ next ∷ rest
      → (k.tasks.task next).registers.sp ≢ 0
      → (k.tasks.task next).registers.pc ≢ 0
      → (s' : Calls) × (process_exit fuel s ≡ some (switches next, s'))
        × (process_get k.current_process s'.kernel ≡ null)
        × (process_current s'.kernel ≡ null)
        × (s'.kernel.tasks.current_task ≡ next)
        × ((s'.kernel.tasks.task next).state ≡ running)
        × IsTaskList s'.kernel.tasks.task s'.kernel.tasks.task_list_head (next ∷ rest)
  process_exit-next lt ne id current l e sp pc =
      let k = left s.kernel in
      let (list, none_left) = left-tasks s.kernel front back current l in
      let after : IsTaskList k.tasks.task k.tasks.task_list_head (next ∷ rest) =
        subst (λ ts. IsTaskList k.tasks.task k.tasks.task_list_head ts) e list in
      let same = left-registers s.kernel next in
      let run : task_schedule fuel k.tasks ≡ some (runs next, running_task next k.tasks) =
        task_schedule-head fuel next rest k.tasks after none_left
        ∙ ap some (
            task_switch-runs_on next k.tasks after.1.non_null.0
              (λ z. sp (ap (λ r. r.sp) (sym same) ∙ z))
              (λ z. pc (ap (λ r. r.pc) (sym same) ∙ z))) in
      let (slot, unset) = left-current s.kernel (running_task next k.tasks) lt in
      (
        record s { kernel = record k { tasks = running_task next k.tasks } },
        process_exit-switches fuel s next (running_task next k.tasks) lt ne id run,
        slot,
        unset,
        refl,
        ground arith,
        set_state-IsTaskList k.tasks.task next running k.tasks.task_list_head (next ∷ rest) after,
      )
