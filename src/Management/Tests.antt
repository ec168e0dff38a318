-- ===== src/Management/Tests.antt =====
-- A timer interrupt after the start of the process management.
use synapse_kernel.Prelude.{◌≡◌, refl, arith, eok, none, false, []}
use synapse_kernel.Task.{Ptr, InterruptFrame, Outcome, returns}
use synapse_kernel.Process.Sample.{cpu, frame, sample}
use synapse_kernel.Interrupt.{irq_handler}
use synapse_kernel.Scheduler.{System, scheduler_timer_handler}
use synapse_kernel.Syscall.{Calls}
use synapse_kernel.Management.{process_management_init}
use synapse_kernel.Management.Wired.{interrupts_of, put_interrupts, irq_code}
use synapse_kernel.Management.Tick.{ticked, acknowledged}
use synapse_kernel.Management.Delivery.{
  here, next, timer_interrupt, irq_handler-process_management_init,
}

abbrev off : System
off = record {
  kernel = sample;
  timer = record {
    interrupts = record { handlers = λ i. 9; initialized = false; writes = [] };
    timer_initialized = false;
    timer_handler = 0;
    timer_ticks = 0;
    timer_interval_ms = 0;
    timer_writes = [];
  };
  scheduler_running = false;
}

abbrev calls : Calls
calls = record {
  kernel = sample;
  syscall_table = λ i. none;
  svc_handler_set = false;
  output = [];
  stored = [];
}

-- The system after the initialisation, and after a first interrupt.
abbrev begun : System
begun = (process_management_init 0x81000 0x82000 0 62500000 500 62500000 off calls).1

abbrev code : Ptr → InterruptFrame → System → Outcome × System
code = irq_code 0x81000 0x82000 900 62500000 cpu (λ p f s. (returns eok, s))

abbrev later : System
later = (irq_handler interrupts_of put_interrupts code 30 frame begun).1

irq_handler-process_management_init_example :
    ((process_management_init 0x81000 0x82000 0 62500000 500 62500000 off calls).0 ≡ eok)
    × (irq_handler interrupts_of put_interrupts code 1054 frame later
        ≡ acknowledged 1054 (scheduler_timer_handler cpu frame (ticked 900 62500000 later)))
irq_handler-process_management_init_example =
    irq_handler-process_management_init 0x81000 0x82000 0 62500000 500 62500000 off calls 900
      62500000 cpu (λ p f s. (returns eok, s)) 1054 frame later refl refl (omega arith)
      (omega arith) refl
      (next here (timer_interrupt 900 62500000 cpu (λ p f s. (returns eok, s)) 30 frame refl refl))
