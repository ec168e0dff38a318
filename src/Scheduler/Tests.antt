-- ===== src/Scheduler/Tests.antt =====
-- The scheduler on two processes, of which the second is interrupted.
use synapse_kernel.Prelude.{◌≡◌, refl, arith, true, first_from, FirstIndex, inl, [], ◌∷◌}
use synapse_kernel.Task.{running, runs, task_current, task_save_state}
use synapse_kernel.Timer.{Timer}
use synapse_kernel.Process.{max_processes}
use synapse_kernel.Process.Control.{process_get}
use synapse_kernel.Process.Sample.{cpu, frame, second_running}
use synapse_kernel.Scheduler.{System, is_candidate, interrupted, scheduler_timer_handler}
use synapse_kernel.Scheduler.Choice.{scheduler_timer_handler-runs}
use synapse_kernel.Task.Context.{Cpu, irq_handler_entry, task_restore_context}
use synapse_kernel.Scheduler.Resume.{Resumed, scheduler_timer_handler-Resumed}
use synapse_kernel.Scheduler.Starvation.{IsFavoured, AllRun, here, tick, Run-starves}

abbrev timer : Timer
timer = record {
  interrupts = record { handlers = λ i. 0; initialized = true; writes = [] };
  timer_initialized = true;
  timer_handler = 0x6000;
  timer_ticks = 0;
  timer_interval_ms = 10;
  timer_writes = [];
}

abbrev system : System
system = record { kernel = second_running; timer = timer; scheduler_running = true }

slot_0 : FirstIndex max_processes 0 (is_candidate (interrupted frame second_running)) 0
unfolding first_from interrupted task_current task_save_state process_get
slot_0 = record {
  finds = refl;
  from = omega arith;
  below = omega arith;
  passes = refl;
  least = λ l a b. absurd (omega arith);
}

-- The task of the process in slot 0, which the handler leaves as it was.
task_0 :
    let k = interrupted frame second_running in
    ((k.process (k.process_table 0)).task ≡ 100)
    × (k.tasks.current_task ≡ 200)
    × ((k.tasks.task 100).registers.sp ≡ 0x8000)
    × ((k.tasks.task 100).registers.pc ≡ 0x4000)
unfolding interrupted task_current task_save_state
task_0 = (refl, refl, refl, refl)

scheduler_timer_handler-runs_example :
    let k = interrupted frame second_running in
    let task = (k.process (k.process_table 0)).task in
    let (outcome, s') = scheduler_timer_handler cpu frame system in
    (outcome ≡ runs task)
    × (s'.kernel.current_process ≡ 0)
    × (s'.kernel.tasks.current_task ≡ task)
    × ((s'.kernel.tasks.task task).state ≡ running)
scheduler_timer_handler-runs_example =
    let (a, b, c, d) = task_0 in
    scheduler_timer_handler-runs cpu frame system 0 refl slot_0 (rw (a, c) (omega arith))
      (rw (a, d) (omega arith))

favoured : IsFavoured 5000 100 system
favoured = record {
  on = refl;
  resumable = record { slot = refl; own = refl; sp = omega arith; pc = omega arith };
  due = inl refl;
}

-- Two interrupts of the timer, the first in the process of slot 1.
Run-starves_example :
    let first = scheduler_timer_handler cpu frame system in
    let second = scheduler_timer_handler cpu frame first.1 in
    AllRun 5000 100 (first.0 ∷ second.0 ∷ []) × IsFavoured 5000 100 second.1
Run-starves_example =
    let first = scheduler_timer_handler cpu frame system in
    Run-starves 5000 100 (omega arith) (omega arith) favoured (
      tick {s = system} cpu frame (omega arith) (omega arith)
        (tick {s = first.1} cpu frame (omega arith) (omega arith) here))

-- The processor when the interrupt comes, and when the task goes on.
abbrev before : Cpu
before = record { x = λ i. i; sp_el0 = 0; sp_el1 = 0x9000; pc = 0x4000; pstate = 0x305 }

abbrev now : Cpu
now = record { x = λ i. 77; sp_el0 = 0; sp_el1 = 0x7000; pc = 0x5000; pstate = 0x3C5 }

slot_0_before :
    FirstIndex max_processes 0
      (is_candidate (interrupted (irq_handler_entry 0x8200 before) second_running))
      0
unfolding first_from interrupted task_current task_save_state process_get irq_handler_entry
slot_0_before = record {
  finds = refl;
  from = omega arith;
  below = omega arith;
  passes = refl;
  least = λ l a b. absurd (omega arith);
}

other_task :
    let k = interrupted (irq_handler_entry 0x8200 before) second_running in
    (k.process (k.process_table 0)).task ≡ 100
unfolding interrupted task_current
other_task = refl

scheduler_timer_handler-Resumed_example :
    let frame = irq_handler_entry 0x8200 before in
    let task = (scheduler_timer_handler cpu frame system).1.kernel.tasks.task 200 in
    Resumed 0x8200 200 before now (task_restore_context 200 task now)
scheduler_timer_handler-Resumed_example =
    scheduler_timer_handler-Resumed cpu system 0 0x8200 before now refl slot_0_before (omega arith)
      (rw other_task (omega arith))
