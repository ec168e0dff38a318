-- ===== src/Management.antt =====
-- core/process/process_management_init.c: the initialisers in their order, and the start.
pub mod Keeping
pub mod Wired
pub mod Tick
pub mod Delivery
mod Tests
use synapse_kernel.Prelude.{ℕ, Option, none, some, Status, eok, ok, err, efault}
use synapse_kernel.Task.{Ptr, Outcome, returns, runs}
use synapse_kernel.Interrupt.{interrupt_init}
use synapse_kernel.Scheduler.{System, scheduler_init, scheduler_start}
use synapse_kernel.Syscall.{Calls, syscall_init}

-- `isenabler0` is what interrupt_init reads, and the other numbers what scheduler_init does.
unfoldable pub process_management_init :
    Ptr → Ptr → ℕ → ℕ → ℕ → ℕ → System → Calls → Status × System × Calls
process_management_init irq self isenabler0 freq current frequency s calls =
    let (r₁, interrupts) = interrupt_init isenabler0 s.timer.interrupts in
    let s₁ = record s { timer = record s.timer { interrupts = interrupts } } in
    elim r₁ [
      | err e ↦ (err e, s₁, calls)
      | ok _ ↦
          let (r₂, calls') = syscall_init calls in
          elim r₂ [
            | err e ↦ (err e, s₁, calls')
            | ok _ ↦
                let (r₃, s₂) = scheduler_init irq self freq current frequency s₁ in
                elim r₃ [ err e ↦ (err e, s₂, calls') | ok _ ↦ (eok, s₂, calls') ]
          ]
    ]

-- The end of process_management_start, from the return of scheduler_start on.
unfoldable pub start_returned : Outcome → Outcome
start_returned (runs task) = runs task
start_returned (returns (err e)) = returns (err e)
start_returned (returns (ok _)) = returns (err efault)

unfoldable pub process_management_start : ℕ → System → Option (Outcome × System)
unfolding start_returned
process_management_start fuel s = elim (scheduler_start fuel s) [
  | none ↦ none
  | some (outcome, s') ↦ some (start_returned outcome, s')
]
