-- ===== src/Management/Delivery.antt =====
-- The way of a timer interrupt from irq_handler to scheduler_timer_handler, from
-- process_management_init on.
use synapse_kernel.Prelude.{
  ℕ, ◌%◌, ◌^◌, ◌≡◌, ◌≢◌, ◌<◌, ◌||◌, refl, sym, ap, ◌∙◌, arith, true, false, eok, ◌==◌, ==_ne,
  ==_self, some, Bool-cases, inl, inr, leb, subst, eq_of_==,
}
use synapse_kernel.Task.{Ptr, null, Registers, InterruptFrame, Outcome, returns, runs}
use synapse_kernel.Process.{Kernel}
use synapse_kernel.Interrupt.{Interrupts, interrupt_register_handler, irq_handler, end_of_interrupt}
use synapse_kernel.Interrupt.Irq.{irq_handler-spurious}
use synapse_kernel.Timer.{Timer, timer_irq}
use synapse_kernel.Scheduler.{System, scheduler_timer_handler, scheduler_start, scheduler_stop}
use synapse_kernel.Syscall.{Calls}
use synapse_kernel.Management.{process_management_init}
use synapse_kernel.Management.Keeping.{
  SameWiring, ResultSame, scheduler_start-ResultSame, scheduler_stop-SameWiring,
}
use synapse_kernel.Management.Wired.{
  interrupts_of, put_interrupts, irq_code, IsWired, process_management_init-IsWired,
}
use synapse_kernel.Management.Tick.{
  ticked, acknowledged, scheduler_timer_handler-timer, irq_handler-wired,
}

module _ (irq self : Ptr) where
  -- What may happen to the system: an interrupt of the timer, an interrupt of a line without a
  -- handler, any change of the tasks and the processes, the registration of a handler, the start of
  -- the scheduler and its end.
  pub data Step (s s' : System) : Type 0 where
    timer_interrupt :
        (now frequency : ℕ) (cpu : Registers)
        (other : Ptr → InterruptFrame → System → Outcome × System) (iar : ℕ)
        (frame : InterruptFrame)
        → iar % 2 ^ 10 ≡ timer_irq
        → s'
          ≡ (irq_handler interrupts_of put_interrupts
              (irq_code irq self now frequency cpu other)
              iar
              frame
              s).1
        → Step s s'
    no_handler :
        (code : Ptr → InterruptFrame → System → Outcome × System) (iar : ℕ) (frame : InterruptFrame)
        → s.timer.interrupts.handlers (iar % 2 ^ 10) ≡ null
        → s' ≡ (irq_handler interrupts_of put_interrupts code iar frame s).1
        → Step s s'
    kernel : (k : Kernel) → s' ≡ record s { kernel = k } → Step s s'
    register :
        (interrupt_num : ℕ) (handler : Ptr)
        → s'
          ≡ put_interrupts (interrupt_register_handler interrupt_num handler s.timer.interrupts).1 s
        → Step s s'
    start : (fuel : ℕ) (outcome : Outcome) → scheduler_start fuel s ≡ some (outcome, s') → Step s s'
    stop : s' ≡ (scheduler_stop s).1 → Step s s'

  pub data Reach (s : System) : System → Type 0 where
    here : Reach s s
    next : {t u : System} → Reach s t → Step t u → Reach s u

  module _ (ne : irq ≢ null) (ne' : self ≢ null) where
    interrupt_register_handler-line :
        (n : ℕ) (handler : Ptr) (i : Interrupts)
        → i.initialized ≡ true
        → i.handlers timer_irq ≡ irq
        → let i' = (interrupt_register_handler n handler i).1 in
          (i'.initialized ≡ true) × (i'.handlers timer_irq ≡ irq)
    unfolding interrupt_register_handler
    interrupt_register_handler-line n handler i on line =
        elim (Bool-cases (leb 128 n || handler == null)) [
          | inl a ↦ rw (on, a) (refl, line)
          | inr a ↦ elim (Bool-cases (i.handlers n == null)) [
            | inr b ↦ rw (on, a, b) (refl, line)
            | inl b ↦
                let free : i.handlers n ≡ null = eq_of_== (i.handlers n) null b in
                let other : (n == timer_irq) ≡ false =
                  ==_ne n timer_irq (λ e. ne (sym line ∙ ap i.handlers (sym e) ∙ free)) in
                rw (on, a, b) (refl, rw other line)
          ]
        ]

    end_of_interrupt-IsWired :
        (iar : ℕ) (r : Outcome × System)
        → IsWired irq self r.1
        → IsWired irq self (acknowledged iar r).1
    end_of_interrupt-IsWired iar (returns res, s) w = record {
      initialized = w.initialized;
      line = w.line;
      handler = w.handler;
      interval = w.interval;
    }
    end_of_interrupt-IsWired iar (runs task, s) w = w

    -- A system with the same timer.
    same_timer : (s s' : System) → s'.timer ≡ s.timer → IsWired irq self s → IsWired irq self s'
    same_timer s s' e w = record {
      initialized = ap (λ (t : Timer). t.interrupts.initialized) e ∙ w.initialized;
      line = ap (λ (t : Timer). t.interrupts.handlers timer_irq) e ∙ w.line;
      handler = ap (λ (t : Timer). t.timer_handler) e ∙ w.handler;
      interval = ap (λ (t : Timer). t.timer_interval_ms) e ∙ w.interval;
    }

    ticked-IsWired :
        (now frequency : ℕ) (s : System)
        → IsWired irq self s
        → IsWired irq self (ticked now frequency s)
    ticked-IsWired now frequency s w = record {
      initialized = w.initialized;
      line = w.line;
      handler = w.handler;
      interval = w.interval;
    }

    timer_interrupt-IsWired :
        (now frequency : ℕ) (cpu : Registers)
        (other : Ptr → InterruptFrame → System → Outcome × System) (iar : ℕ)
        (frame : InterruptFrame) (s : System)
        → iar % 2 ^ 10 ≡ timer_irq
        → IsWired irq self s
        → IsWired irq self
            (irq_handler interrupts_of put_interrupts
              (irq_code irq self now frequency cpu other)
              iar
              frame
              s).1
    timer_interrupt-IsWired now frequency cpu other iar frame s id w =
        let before = ticked now frequency s in
        let after = scheduler_timer_handler cpu frame before in
        subst (λ (r : Outcome × System). IsWired irq self r.1)
          (sym (irq_handler-wired irq self ne ne' now frequency cpu other iar frame s id w))
          (end_of_interrupt-IsWired iar after (
            same_timer before after.1 (scheduler_timer_handler-timer cpu frame before)
              (ticked-IsWired now frequency s w)))

    irq_handler-unhandled :
        (code : Ptr → InterruptFrame → System → Outcome × System) (iar : ℕ) (frame : InterruptFrame)
        (s : System)
        → s.timer.interrupts.handlers (iar % 2 ^ 10) ≡ null
        → s.timer.interrupts.initialized ≡ true
        → iar % 2 ^ 10 < 1020
        → irq_handler interrupts_of put_interrupts code iar frame s
          ≡ acknowledged iar (returns eok, s)
    unfolding irq_handler end_of_interrupt
    irq_handler-unhandled code iar frame s empty on lt =
        let small : leb 1020 (iar % 2 ^ 10) ≡ false = ground arith in
        rw (on, small, empty, ==_self null) refl

    no_handler-IsWired :
        (code : Ptr → InterruptFrame → System → Outcome × System) (iar : ℕ) (frame : InterruptFrame)
        (s : System)
        → s.timer.interrupts.handlers (iar % 2 ^ 10) ≡ null
        → IsWired irq self s
        → IsWired irq self (irq_handler interrupts_of put_interrupts code iar frame s).1
    no_handler-IsWired code iar frame s empty w = elim (Bool-cases (leb 1020 (iar % 2 ^ 10))) [
      | inl e ↦
          subst (λ (r : Outcome × System). IsWired irq self r.1)
            (sym (
              irq_handler-spurious interrupts_of put_interrupts code iar frame s w.initialized
                (ground arith)))
            w
      | inr e ↦
          subst (λ (r : Outcome × System). IsWired irq self r.1)
            (sym (irq_handler-unhandled code iar frame s empty w.initialized (ground arith)))
            (end_of_interrupt-IsWired iar (returns eok, s) w)
    ]

    register-IsWired :
        (n : ℕ) (handler : Ptr) (s : System)
        → IsWired irq self s
        → IsWired irq self
            (put_interrupts (interrupt_register_handler n handler s.timer.interrupts).1 s)
    register-IsWired n handler s w =
        let (on, line) =
          interrupt_register_handler-line n handler s.timer.interrupts w.initialized w.line in
        record { initialized = on; line = line; handler = w.handler; interval = w.interval }

    same_wiring :
        (s s' : System) → SameWiring s.timer s'.timer → IsWired irq self s → IsWired irq self s'
    same_wiring s s' same w = record {
      initialized = same.table.initialized ∙ w.initialized;
      line = ap (λ f. f timer_irq) same.table.handlers ∙ w.line;
      handler = same.handler ∙ w.handler;
      interval = same.interval ∙ w.interval;
    }

    Step-IsWired : (s s' : System) → Step s s' → IsWired irq self s → IsWired irq self s'
    Step-IsWired s s' (timer_interrupt now frequency cpu other iar frame id e) w =
        subst (IsWired irq self) (sym e)
          (timer_interrupt-IsWired now frequency cpu other iar frame s id w)
    Step-IsWired s s' (no_handler code iar frame empty e) w =
        subst (IsWired irq self) (sym e) (no_handler-IsWired code iar frame s empty w)
    Step-IsWired s s' (kernel k e) w = same_timer s s' (ap (λ (t : System). t.timer) e) w
    Step-IsWired s s' (register n handler e) w =
        subst (IsWired irq self) (sym e) (register-IsWired n handler s w)
    Step-IsWired s s' (start fuel outcome e) w =
        same_wiring s s' (subst (ResultSame s.timer) e (scheduler_start-ResultSame fuel s)) w
    Step-IsWired s s' (stop e) w =
        subst (IsWired irq self) (sym e)
          (same_wiring s (scheduler_stop s).1 (scheduler_stop-SameWiring s) w)

    Reach-IsWired : (s s' : System) → IsWired irq self s → Reach s s' → IsWired irq self s'
    Reach-IsWired s s' w here = w
    Reach-IsWired s s' w (next {t = t} r st) = Step-IsWired t s' st (Reach-IsWired s t w r)

  -- process_management_init, on interrupts and a timer that are not initialised, succeeds. In every
  -- system that comes from there by interrupts of the timer, interrupts of lines without a handler,
  -- changes of the tasks and the processes, registrations of handlers, and starts and stops of the
  -- scheduler, an interrupt of line 30, whatever its source is in the other bits of the controller's
  -- answer, comes to this: the ticks are one more, the timer is set for 10 ms later, both modulo
  -- 2 ^ 64, and the handler of the scheduler is called with the frame. If it returns, the answer is
  -- written to GICC_EOIR, and if a task runs nothing is written. `other` is the code of other handlers.
  pub irq_handler-process_management_init :
      (isenabler0 freq current rate : ℕ) (s : System) (calls : Calls) (now frequency : ℕ)
      (cpu : Registers) (other : Ptr → InterruptFrame → System → Outcome × System) (iar : ℕ)
      (frame : InterruptFrame) (s₂ : System)
      → s.timer.interrupts.initialized ≡ false
      → s.timer.timer_initialized ≡ false
      → irq ≢ null
      → self ≢ null
      → iar % 2 ^ 10 ≡ timer_irq
      → let (res, s₁, _) = process_management_init irq self isenabler0 freq current rate s calls in
        Reach s₁ s₂
        → (res ≡ eok)
          × (irq_handler interrupts_of put_interrupts
                (irq_code irq self now frequency cpu other)
                iar
                frame
                s₂
              ≡ acknowledged iar (scheduler_timer_handler cpu frame (ticked now frequency s₂)))
  irq_handler-process_management_init isenabler0 freq current rate s calls now frequency cpu other
        iar frame s₂ off unset ne ne' id reach =
      let (res, wired) =
        process_management_init-IsWired irq self isenabler0 freq current rate s calls off unset
          ne in
      let s₁ = (process_management_init irq self isenabler0 freq current rate s calls).1 in
      (
        res,
        irq_handler-wired irq self ne ne' now frequency cpu other iar frame s₂ id
            (Reach-IsWired ne ne' s₁ s₂ wired reach),
      )
