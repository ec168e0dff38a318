-- ===== src/Scheduler/Choice.antt =====
-- The process that the timer's handler switches to, and what it leaves of the interrupted task.
use synapse_kernel.Prelude.{
  contrary, ℕ, ◌≤◌, ◌<◌, ◌≡◌, ◌≢◌, refl, ap, subst, arith, Bool, true, false, ◌&&◌, not, ◌==◌, leb,
  ltb, if◌then◌else◌, first_from-cases, Exhausted, FirstIndex, ==_ne, ==_self, Bool-cases, ◌⊎◌, inl,
  inr,
}
use synapse_kernel.Task.{
  Ptr, null, Task, Registers, InterruptFrame, runs, ready, running, is_ready, is_running,
  task_current, task_save_state,
}
use synapse_kernel.Process.{Kernel, max_processes}
use synapse_kernel.Process.Control.{process_get, switched}
use synapse_kernel.Process.Switch.{process_switch-runs, process_switch-keeps}
use synapse_kernel.Scheduler.{
  System, no_pid, is_candidate, task_schedule_next_process, interrupted, scheduler_timer_handler,
}

chosen :
    (k : Kernel) (i : ℕ)
    → FirstIndex max_processes 0 (is_candidate k) i
    → task_schedule_next_process k ≡ i
unfolding task_schedule_next_process
chosen k i f = rw (f.finds, task_schedule_next_process) refl

none_chosen :
    (k : Kernel)
    → Exhausted max_processes 0 (is_candidate k)
    → task_schedule_next_process k ≡ no_pid
unfolding task_schedule_next_process
none_chosen k n = rw (n.ends, task_schedule_next_process) refl

-- task_schedule_next_process gives the lowest slot whose process has a ready task, or `-ENOENT`
-- as a `pid_t`, which is no slot, when no process has one.
pub task_schedule_next_process-lowest :
    (k : Kernel)
    → ((i : ℕ) × (task_schedule_next_process k ≡ i)
        × (i < max_processes)
        × (is_candidate k i ≡ true)
        × ((j : ℕ) → j < i → is_candidate k j ≡ false))
      ⊎ ((task_schedule_next_process k ≡ no_pid)
          × (max_processes ≤ no_pid)
          × ((j : ℕ) → j < max_processes → is_candidate k j ≡ false))
task_schedule_next_process-lowest k = elim (first_from-cases max_processes 0 (is_candidate k)) [
  | inl n ↦ inr (none_chosen k n, omega arith, (λ j h. n.fails j (omega arith) (omega arith)))
  | inr (i, f) ↦
      inl (i, chosen k i f, omega (arith, f.below), f.passes, (λ j h. f.least j (omega arith) h))
]

get_valid : (k : Kernel) (i : ℕ) → i < max_processes → process_get i k ≡ k.process_table i
unfolding process_get
get_valid k i h = let valid : leb max_processes i ≡ false = ground arith in rw valid refl

both_set :
    (proc task : Ptr) (r : Bool)
    → (not (proc == null) && (not (task == null) && r)) ≡ true
    → (proc ≢ null) × (task ≢ null)
both_set proc task r e = (ground arith, ground arith)

-- The process and the task of a candidate are not NULL.
candidate_parts :
    (k : Kernel) (i : ℕ)
    → i < max_processes
    → is_candidate k i ≡ true
    → (k.process_table i ≢ null) × ((k.process (k.process_table i)).task ≢ null)
candidate_parts k i h c =
    subst (λ proc. (proc ≢ null) × ((k.process proc).task ≢ null)) (get_valid k i h)
      (both_set (process_get i k) (k.process (process_get i k)).task
        (is_ready (k.tasks.task (k.process (process_get i k)).task).state) c)

-- A task holds the registers of a frame.
pub record Holds (frame : InterruptFrame) (task : Task) : Type 0 where
  pub general : (i : ℕ) → i < 31 → task.registers.x i ≡ frame.x i
  pub sp : task.registers.sp ≡ frame.sp
  pub pc : task.registers.pc ≡ frame.elr_el1
  pub elr : task.registers.elr_el1 ≡ frame.elr_el1
  pub spsr : task.registers.spsr_el1 ≡ frame.spsr_el1

picked : (j a b : ℕ) → j < 31 → (if ltb j 31 then a else b) ≡ a
picked j a b lt = ground arith

module _ (frame : InterruptFrame) (k : Kernel) where
  -- `interrupted` stores the frame in the current task, and makes it ready if it was running.
  interrupted-Holds :
      k.tasks.current_task ≢ null
      → let new = (interrupted frame k).tasks.task k.tasks.current_task in
        Holds frame new
        × (((k.tasks.task k.tasks.current_task).state ≡ running) → new.state ≡ ready)
  unfolding interrupted task_current task_save_state
  interrupted-Holds ne =
      let c = k.tasks.current_task in
      elim (Bool-cases (is_running (k.tasks.task c).state)) [
        | inl r ↦
            rw (==_ne c null ne, ==_self c, r, ==_self c)
              (
                record {
                  general = λ j lt. picked j _ _ lt;
                  sp = refl;
                  pc = refl;
                  elr = refl;
                  spsr = refl;
                },
                (λ e. refl),
              )
        | inr r ↦
            rw (==_ne c null ne, ==_self c, r, ==_self c)
              (
                record {
                  general = λ j lt. picked j _ _ lt;
                  sp = refl;
                  pc = refl;
                  elr = refl;
                  spsr = refl;
                },
                (λ e. absurd (contrary (ap is_running e) r)),
              )
      ]

module _ (cpu : Registers) (frame : InterruptFrame) (s : System) (i : ℕ) where
  -- While the scheduler is running, the timer's handler runs the task of the lowest slot with a ready task, the interrupted task
  -- counted as ready, when the task has a stack pointer and a program counter.
  pub scheduler_timer_handler-runs :
      let k = interrupted frame s.kernel in
      let task = (k.process (k.process_table i)).task in
      s.scheduler_running ≡ true
      → FirstIndex max_processes 0 (is_candidate k) i
      → (k.tasks.task task).registers.sp ≢ 0
      → (k.tasks.task task).registers.pc ≢ 0
      → let (outcome, s') = scheduler_timer_handler cpu frame s in
        (outcome ≡ runs task)
        × (s'.kernel.current_process ≡ i)
        × (s'.kernel.tasks.current_task ≡ task)
        × ((s'.kernel.tasks.task task).state ≡ running)
  unfolding scheduler_timer_handler switched
  scheduler_timer_handler-runs on f sp pc =
      let k = interrupted frame s.kernel in
      let (table, tn) = candidate_parts k i (omega (arith, f.below)) f.passes in
      let (a, b, c, d) = process_switch-runs cpu i k (omega (arith, f.below)) table tn sp pc in
      rw (on, chosen k i f) (ap switched a, b, c, d)

  -- When the timer's handler switches away from the task that the interrupt stopped, this holds
  -- the registers of the frame, and is ready if it was running.
  pub scheduler_timer_handler-Holds :
      let k = interrupted frame s.kernel in
      let c = s.kernel.tasks.current_task in
      s.scheduler_running ≡ true
      → FirstIndex max_processes 0 (is_candidate k) i
      → c ≢ null
      → (k.process (k.process_table i)).task ≢ c
      → let task = (scheduler_timer_handler cpu frame s).1.kernel.tasks.task c in
        Holds frame task × (((s.kernel.tasks.task c).state ≡ running) → task.state ≡ ready)
  unfolding scheduler_timer_handler
  scheduler_timer_handler-Holds on f cn other =
      let k = interrupted frame s.kernel in
      let c = s.kernel.tasks.current_task in
      rw (on, chosen k i f, process_switch-keeps cpu i k c other)
        (interrupted-Holds frame s.kernel cn)
