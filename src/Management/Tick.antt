-- ===== src/Management/Tick.antt =====
-- A timer interrupt of a wired system: the tick, the handler of the scheduler, and the acknowledgement.
use synapse_kernel.Prelude.{
  ℕ, ◌+◌, ◌*◌, ◌/◌, ◌%◌, ◌^◌, ◌≡◌, ◌≢◌, refl, ap, ◌∙◌, ==_ne, ==_self, Bool-cases, inl, inr, [],
  ◌∷◌, ◌++◌,
}
use synapse_kernel.Task.{Ptr, null, Registers, InterruptFrame, Outcome, returns, runs}
use synapse_kernel.Interrupt.{irq_handler, end_of_interrupt, gicc_eoir}
use synapse_kernel.Timer.{timer_irq, timer_tick, timer_irq_handler, cntp_cval_el0, interval}
use synapse_kernel.Scheduler.{System, scheduler_timer_handler, scheduler_ticks_ms}
use synapse_kernel.Management.Wired.{interrupts_of, put_interrupts, put_timer, irq_code, IsWired}

-- The system when the timer's interrupt has been counted and the timer set for the next one, 10 ms
-- after `now`.
abbrev pub ticked : ℕ → ℕ → System → System
ticked now frequency s = record s {
  timer = record s.timer {
    timer_ticks = (s.timer.timer_ticks + 1) % 2 ^ 64;
    timer_writes =
        s.timer.timer_writes
        ++ (cntp_cval_el0, (now + frequency * 10 % 2 ^ 64 / 1000) % 2 ^ 64) ∷ [];
  };
}

-- A handler that has returned is followed by the write of `iar` to GICC_EOIR, and one after which
-- another task runs by nothing.
abbrev pub acknowledged : ℕ → Outcome × System → Outcome × System
acknowledged iar (returns res, s) = (
  returns res,
  record s {
    timer = record s.timer {
      interrupts = record s.timer.interrupts {
        writes = s.timer.interrupts.writes ++ (gicc_eoir, iar) ∷ [];
      };
    };
  },
)
acknowledged iar (runs task, s) = (runs task, s)

-- The handler of the scheduler changes nothing of the timer and the interrupts.
pub scheduler_timer_handler-timer :
    (cpu : Registers) (frame : InterruptFrame) (s : System)
    → (scheduler_timer_handler cpu frame s).1.timer ≡ s.timer
unfolding scheduler_timer_handler
scheduler_timer_handler-timer cpu frame s = elim (Bool-cases s.scheduler_running) [
  | inl e ↦ rw e refl
  | inr e ↦ rw e refl
]

end_of_interrupt-acknowledged :
    (code : Ptr → InterruptFrame → System → Outcome × System) (iar : ℕ) (r : Outcome × System)
    → end_of_interrupt interrupts_of put_interrupts code iar r ≡ acknowledged iar r
unfolding end_of_interrupt
end_of_interrupt-acknowledged code iar (returns res, s) = refl
end_of_interrupt-acknowledged code iar (runs task, s) = refl

timer_tick-ticked :
    (now frequency : ℕ) (s : System)
    → s.timer.timer_interval_ms ≡ scheduler_ticks_ms
    → put_timer (timer_tick now frequency s.timer) s ≡ ticked now frequency s
unfolding timer_tick
timer_tick-ticked now frequency s e =
    ap
      (λ ms. record s {
        timer = record s.timer {
          timer_ticks = (s.timer.timer_ticks + 1) % 2 ^ 64;
          timer_writes =
              s.timer.timer_writes ++ (cntp_cval_el0, (now + interval frequency ms) % 2 ^ 64) ∷ [];
        };
      })
      e

module _ (irq self : Ptr) (ne : irq ≢ null) (ne' : self ≢ null) where
  irq_handler-called :
      (now frequency : ℕ) (cpu : Registers)
      (other : Ptr → InterruptFrame → System → Outcome × System) (iar : ℕ) (frame : InterruptFrame)
      (s : System)
      → iar % 2 ^ 10 ≡ timer_irq
      → IsWired irq self s
      → let code = irq_code irq self now frequency cpu other in
        irq_handler interrupts_of put_interrupts code iar frame s
        ≡ end_of_interrupt interrupts_of put_interrupts code iar
            (scheduler_timer_handler cpu frame (put_timer (timer_tick now frequency s.timer) s))
  unfolding irq_handler timer_irq_handler timer_tick
  irq_handler-called now frequency cpu other iar frame s id w =
      rw
        (
          w.initialized,
          id,
          w.line,
          ==_ne irq null ne,
          ==_self irq,
          w.handler,
          ==_ne self null ne',
          ==_self self,
        )
        refl

  pub irq_handler-wired :
      (now frequency : ℕ) (cpu : Registers)
      (other : Ptr → InterruptFrame → System → Outcome × System) (iar : ℕ) (frame : InterruptFrame)
      (s : System)
      → iar % 2 ^ 10 ≡ timer_irq
      → IsWired irq self s
      → irq_handler interrupts_of put_interrupts
          (irq_code irq self now frequency cpu other)
          iar
          frame
          s
        ≡ acknowledged iar (scheduler_timer_handler cpu frame (ticked now frequency s))
  irq_handler-wired now frequency cpu other iar frame s id w =
      irq_handler-called now frequency cpu other iar frame s id w
      ∙ end_of_interrupt-acknowledged (irq_code irq self now frequency cpu other) iar
          (scheduler_timer_handler cpu frame (put_timer (timer_tick now frequency s.timer) s))
      ∙ ap (λ m. acknowledged iar (scheduler_timer_handler cpu frame m))
          (timer_tick-ticked now frequency s w.interval)
