-- ===== src/Scheduler.antt =====
-- core/scheduler/scheduler.c: the choice of the next process, the timer's handler, and start and stop.
-- `cpu` is the registers of the processor where the code saves them.
pub mod Choice
pub mod Starvation
pub mod Resume
mod Tests
use synapse_kernel.Prelude.{
  ℕ, Option, none, some, Bool, true, false, ◌&&◌, not, Status, eok, ok, err, ◌==◌, if◌then◌else◌,
  first_from,
}
use synapse_kernel.Task.{
  Ptr, null, Tasks, Registers, InterruptFrame, Outcome, returns, runs, ready, is_ready, is_running,
  set_state, task_current, task_save_state, task_run_first_ever_task,
}
use synapse_kernel.Interrupt.{interrupt_enable_all, interrupt_disable_all}
use synapse_kernel.Timer.{
  Timer, timer_init, timer_register_handler, timer_set_interval, timer_enable, timer_disable,
}
use synapse_kernel.Process.{Kernel, max_processes}
use synapse_kernel.Process.Control.{process_get, process_switch, switched}

-- SCHEDULER_TICKS_MS
abbrev pub scheduler_ticks_ms : ℕ
scheduler_ticks_ms = 10

-- The kernel with the timer and the flag of scheduler.c.
pub record System : Type 0 where
  pub kernel : Kernel
  pub timer : Timer
  pub scheduler_running : Bool

-- `-ENOENT` as a `pid_t`
abbrev pub no_pid : ℕ
no_pid = 65521

-- `proc && proc->task && proc->task->state == TASK_STATE_READY`
abbrev pub is_candidate : Kernel → ℕ → Bool
is_candidate k i =
    let proc = process_get i k in
    let task = (k.process proc).task in
    not (proc == null) && (not (task == null) && is_ready (k.tasks.task task).state)

unfoldable pub task_schedule_next_process : Kernel → ℕ
task_schedule_next_process k = elim (first_from max_processes 0 (is_candidate k)) [
  | none ↦ no_pid
  | some i ↦ i
]

-- The first half of scheduler_timer_handler: the interrupted task is saved and made ready.
unfoldable pub interrupted : InterruptFrame → Kernel → Kernel
interrupted int_frame k =
    let current = task_current k.tasks in
    if current == null
    then k
    else let saved = (task_save_state current (some int_frame) k.tasks).1 in
      record k {
        tasks =
            if is_running (saved.task current).state
            then record saved { task = set_state saved.task current ready }
            else saved;
      }

unfoldable pub scheduler_timer_handler : Registers → InterruptFrame → System → Outcome × System
scheduler_timer_handler cpu int_frame s =
    if not s.scheduler_running
    then (returns eok, s)
    else let k = interrupted int_frame s.kernel in
      let next_pid = task_schedule_next_process k in
      let (outcome, k') = process_switch cpu next_pid k in
      (switched outcome, record s { kernel = k' })

-- `irq` and `self` are the addresses of timer_irq_handler and scheduler_timer_handler; `freq`,
-- `current` and `frequency` are what the timer's functions read.
unfoldable pub scheduler_init : Ptr → Ptr → ℕ → ℕ → ℕ → System → Status × System
scheduler_init irq self freq current frequency s =
    let (r₁, t₁) = timer_init irq freq s.timer in
    elim r₁ [
      | err e ↦ (err e, record s { timer = t₁ })
      | ok _ ↦
          let (r₂, t₂) = timer_register_handler self t₁ in
          elim r₂ [
            | err e ↦ (err e, record s { timer = t₂ })
            | ok _ ↦
                let (r₃, t₃) = timer_set_interval scheduler_ticks_ms current frequency t₂ in
                elim r₃ [
                  | err e ↦ (err e, record s { timer = t₃ })
                  | ok _ ↦ (eok, record s { timer = t₃ })
                ]
          ]
    ]

-- The end of scheduler_start, from the result of task_run_first_ever_task on.
unfoldable pub first_task_ran : Outcome → System → Outcome × System
first_task_ran (runs task) s = (runs task, s)
first_task_ran (returns (ok _)) s = (returns eok, s)
first_task_ran (returns (err e)) s =
    let t = (timer_disable s.timer).1 in
    (
      returns (err e),
      record s {
        scheduler_running = false;
        timer = record t { interrupts = (interrupt_disable_all t.interrupts).1 };
      },
    )

-- `none` means that the search for the first task ran out of fuel.
unfoldable pub scheduler_start : ℕ → System → Option (Outcome × System)
scheduler_start fuel s =
    let (r₁, t₁) = timer_enable s.timer in
    elim r₁ [
      | err e ↦ some (returns (err e), record s { timer = t₁ })
      | ok _ ↦
          let (r₂, interrupts) = interrupt_enable_all t₁.interrupts in
          let t₂ = record t₁ { interrupts = interrupts } in
          elim r₂ [
            | err e ↦ some (returns (err e), record s { timer = (timer_disable t₂).1 })
            | ok _ ↦ elim (task_run_first_ever_task fuel s.kernel.tasks) [
              | none ↦ none
              | some (outcome, tasks) ↦ some (
                  first_task_ran outcome (record {
                    kernel = record s.kernel { tasks = tasks };
                    timer = t₂;
                    scheduler_running = true;
                  }))
            ]
          ]
    ]

unfoldable pub scheduler_stop : System → Status × System
scheduler_stop s =
    let (res, t) = timer_disable s.timer in
    elim res [
      | err e ↦ (err e, record s { timer = t })
      | ok _ ↦ (eok, record s { timer = t; scheduler_running = false })
    ]

unfoldable pub scheduler_is_running : System → Bool
scheduler_is_running s = s.scheduler_running
