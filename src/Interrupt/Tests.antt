-- ===== src/Interrupt/Tests.antt =====
-- Interrupts on concrete tables.
use synapse_kernel.Prelude.{◌≡◌, refl, arith, true, eok, [], ◌==◌, if◌then◌else◌, update}
use synapse_kernel.Task.{Ptr, InterruptFrame, Outcome, returns, runs}
use synapse_kernel.Interrupt.{
  Interrupts, interrupt_register_handler, interrupt_unregister_handler, irq_handler,
}
use synapse_kernel.Interrupt.Table.{interrupt_register_handler-bounds}
use synapse_kernel.Interrupt.Irq.{irq_handler-spurious}

-- Line 30 has the handler at 500.
abbrev ready_table : Interrupts
ready_table = record { handlers = update (λ i. 0) 30 500; initialized = true; writes = [] }

abbrev frame : InterruptFrame
frame = record { x = λ i. i; sp = 0x8000; elr_el1 = 0x4000; spsr_el1 = 0x305 }

abbrev itself : Interrupts → Interrupts
itself s = s

abbrev replace : Interrupts → Interrupts → Interrupts
replace s m = s

-- The handler at 500 returns; any other runs the task at 100.
abbrev handle : Ptr → InterruptFrame → Interrupts → Outcome × Interrupts
handle p f s = if p == 500 then (returns eok, s) else (runs 100, s)

at_128 :
    ((interrupt_register_handler 128 600 ready_table).1 ≡ ready_table)
    × ((interrupt_unregister_handler 128 ready_table).1 ≡ ready_table)
at_128 = interrupt_register_handler-bounds 128 600 ready_table (omega arith)

spurious : irq_handler itself replace handle 1023 frame ready_table ≡ (returns eok, ready_table)
spurious = irq_handler-spurious itself replace handle 1023 frame ready_table refl (omega arith)
