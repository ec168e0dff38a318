-- ===== src/Scheduler/Resume.antt =====
-- What a task finds in the processor when it goes on after an interrupt.
use synapse_kernel.Prelude.{
  ℕ, ◌+◌, ◌-◌, ◌%◌, ◌^◌, ◌≤◌, ◌<◌, ◌≡◌, ◌≢◌, refl, ◌∙◌, arith, true, false,
}
use synapse_kernel.Prelude.{FirstIndex}
use synapse_kernel.Task.{Ptr, null, Task, Registers}
use synapse_kernel.Task.Context.{
  Cpu, is_el0, irq_stack, irq_handler_entry, irq_handler_exit, task_restore_context,
}
use synapse_kernel.Process.{max_processes}
use synapse_kernel.Scheduler.{System, is_candidate, interrupted, scheduler_timer_handler}
use synapse_kernel.Scheduler.Choice.{Holds, scheduler_timer_handler-Holds}

-- The processor `after` an interrupt against `before`, when it came from the vector with `link`.
pub record Resumed (link task : Ptr) (before now after : Cpu) : Type 0 where
  pub pc : after.pc ≡ before.pc
  pub pstate : after.pstate ≡ before.pstate
  pub saved : (i : ℕ) → 19 ≤ i → i < 30 → after.x i ≡ before.x i
  pub user_stack : is_el0 before.pstate ≡ true → after.sp_el0 ≡ before.sp_el0
  pub lost_link : after.x 30 ≡ link
  pub lost_first : after.x 0 ≡ task
  pub lost : (i : ℕ) → 4 ≤ i → i < 19 → i ≢ 10 → after.x i ≡ now.x i
  pub lost_stack :
      is_el0 before.pstate ≡ false → after.sp_el1 ≡ (before.sp_el1 + 2 ^ 64 - irq_stack) % 2 ^ 64

task_restore_context-Resumed :
    (link task : Ptr) (t : Task) (before now : Cpu)
    → Holds (irq_handler_entry link before) t
    → Resumed link task before now (task_restore_context task t now)
unfolding irq_handler_entry task_restore_context
task_restore_context-Resumed link task t before now h =
    let elr = h.elr in
    let spsr = h.spsr in
    let sp = h.sp in
    record {
      pc = h.elr;
      pstate = h.spsr;
      saved = λ i lo hi. ground (arith, h.general i);
      user_stack = λ e. rw (spsr, e) (sp ∙ rw e refl);
      lost_link = ground (arith, h.general 30);
      lost_first = ground arith;
      lost = λ i lo hi ne. ground arith;
      lost_stack = λ e. rw (spsr, e) (sp ∙ rw e refl);
    }

module _ (cpu : Registers) (s : System) (i : ℕ) (link : Ptr) (before now : Cpu) where
  -- A task that the timer's handler has switched away from goes on where the interrupt came, when
  -- task_restore_context runs it from what the handler has left of it: at the same address, in the
  -- same state, with the same x19 to x29, and at EL0 with the same stack. But x30 is an address of
  -- the vectors, x0 is the task's address, x4 to x18 but x10 are those of the code that called
  -- task_restore_context, and at EL1 the stack pointer is 544 lower.
  pub scheduler_timer_handler-Resumed :
      let frame = irq_handler_entry link before in
      let k = interrupted frame s.kernel in
      let c = s.kernel.tasks.current_task in
      s.scheduler_running ≡ true
      → FirstIndex max_processes 0 (is_candidate k) i
      → c ≢ null
      → (k.process (k.process_table i)).task ≢ c
      → let task = (scheduler_timer_handler cpu frame s).1.kernel.tasks.task c in
        Resumed link c before now (task_restore_context c task now)
  scheduler_timer_handler-Resumed on f cn other =
      let frame = irq_handler_entry link before in
      let c = s.kernel.tasks.current_task in
      task_restore_context-Resumed link c
        ((scheduler_timer_handler cpu frame s).1.kernel.tasks.task c) before now
        (scheduler_timer_handler-Holds cpu frame s i on f cn other).0

-- An interrupt whose handler returns leaves the processor as it was, with the stack pointers, but for
-- x30, which is an address of the vectors.
pub irq_handler_exit-same :
    (link : Ptr) (cpu : Cpu)
    → let after = irq_handler_exit (irq_handler_entry link cpu) cpu in
      (after.x 30 ≡ link)
      × ((i : ℕ) → i ≢ 30 → after.x i ≡ cpu.x i)
      × (record after { x = cpu.x } ≡ cpu)
unfolding irq_handler_entry irq_handler_exit
irq_handler_exit-same link cpu = (refl, (λ i ne. ground arith), refl)
