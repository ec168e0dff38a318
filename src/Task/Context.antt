-- ===== src/Task/Context.antt =====
-- core/task/context_switch.S and the interrupt entries of arch/arm64/interrupt/vector.S: what an
-- interrupt saves of the processor, and what the return from it and the switch to a task load.
use synapse_kernel.Prelude.{ℕ, ◌+◌, ◌-◌, ◌%◌, ◌^◌, Bool, ◌&&◌, leb, ◌==◌, if◌then◌else◌, update}
use synapse_kernel.Task.{Ptr, Task, InterruptFrame}

-- `x i` is the register xi, for i from 0 to 30. `pc` and `pstate` are what an exception saves in
-- ELR_EL1 and SPSR_EL1.
pub record Cpu : Type 0 where
  pub x : ℕ → ℕ
  pub sp_el0 : ℕ
  pub sp_el1 : ℕ
  pub pc : ℕ
  pub pstate : ℕ

-- `spsr & 0xF` is 0: EL0t
abbrev pub is_el0 : ℕ → Bool
is_el0 pstate = pstate % 16 == 0

-- The bytes of the stack that irq_handler_entry takes.
abbrev pub irq_stack : ℕ
irq_stack = 544

-- The frame that irq_handler_entry passes to irq_handler. `link` is the address that the `bl` of
-- el1_irq_spx or el0_irq_a64 leaves in x30.
unfoldable pub irq_handler_entry : Ptr → Cpu → InterruptFrame
irq_handler_entry link cpu = record {
  x = update cpu.x 30 link;
  sp = if is_el0 cpu.pstate then cpu.sp_el0 else (cpu.sp_el1 + 2 ^ 64 - irq_stack) % 2 ^ 64;
  elr_el1 = cpu.pc;
  spsr_el1 = cpu.pstate;
}

-- The end of irq_handler_entry, when irq_handler has returned: the registers of the frame, the
-- stack as it was, and `eret`, with ELR_EL1 and SPSR_EL1 as the interrupt has left them.
unfoldable pub irq_handler_exit : InterruptFrame → Cpu → Cpu
irq_handler_exit frame cpu = record cpu { x = frame.x }

-- task_restore_context of a task at an address that is not NULL. `now` is the processor when it is
-- called, of whose registers only x1, x2, x3, x10 and x19 to x30 are written.
unfoldable pub task_restore_context : Ptr → Task → Cpu → Cpu
task_restore_context task t now =
    let r = t.registers in
    record {
      x = λ i.
          if leb 19 i && leb i 30
          then r.x i
          else update
              (update (update (update (update now.x 0 task) 1 r.spsr_el1) 2 r.sp) 3
                (r.spsr_el1 % 16))
              10 (task + 8) i;
      sp_el0 = if is_el0 r.spsr_el1 then r.sp else now.sp_el0;
      sp_el1 = if is_el0 r.spsr_el1 then now.sp_el1 else r.sp;
      pc = r.elr_el1;
      pstate = r.spsr_el1;
    }
