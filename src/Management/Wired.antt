-- ===== src/Management/Wired.antt =====
-- process_management_init puts timer_irq_handler on its line and scheduler_timer_handler into the timer.
use synapse_kernel.Prelude.{ℕ, ◌≡◌, ◌≢◌, refl, update, true, false, eok, ◌==◌, if◌then◌else◌, ==_ne}
use synapse_kernel.Task.{Ptr, null, Registers, InterruptFrame, Outcome}
use synapse_kernel.Interrupt.{Interrupts, interrupt_init, interrupt_register_handler}
use synapse_kernel.Timer.{
  Timer, timer_irq, timer_irq_handler, timer_init, timer_register_handler, timer_set_interval,
}
use synapse_kernel.Scheduler.{System, scheduler_init, scheduler_timer_handler, scheduler_ticks_ms}
use synapse_kernel.Syscall.{Calls, syscall_init}
use synapse_kernel.Management.{process_management_init}

interrupt_init-fresh :
    (isenabler0 : ℕ) (i : Interrupts)
    → i.initialized ≡ false
    → let (res, i') = interrupt_init isenabler0 i in
      (res ≡ eok) × (i'.initialized ≡ true) × (i'.handlers timer_irq ≡ null)
unfolding interrupt_init
interrupt_init-fresh isenabler0 i off = rw (off, interrupt_init) (refl, refl, refl)

registered :
    (irq : Ptr) (i : Interrupts)
    → i.initialized ≡ true
    → i.handlers timer_irq ≡ null
    → irq ≢ null
    → interrupt_register_handler timer_irq irq i
      ≡ (eok, record i { handlers = update i.handlers timer_irq irq })
unfolding interrupt_register_handler
registered irq i on empty ne = rw (on, ==_ne irq null ne, empty, interrupt_register_handler) refl

timer_init-fresh :
    (irq : Ptr) (freq : ℕ) (t : Timer)
    → t.timer_initialized ≡ false
    → t.interrupts.initialized ≡ true
    → t.interrupts.handlers timer_irq ≡ null
    → irq ≢ null
    → let (res, t') = timer_init irq freq t in
      (res ≡ eok)
      × (t'.timer_initialized ≡ true)
      × (t'.interrupts
          ≡ record t.interrupts { handlers = update t.interrupts.handlers timer_irq irq })
unfolding timer_init
timer_init-fresh irq freq t unset on empty ne =
    let given = registered irq t.interrupts on empty ne in
    rw (unset, given, timer_init) (rw given (refl, refl, refl))

timer_register_handler-set :
    (self : Ptr) (t : Timer)
    → t.timer_initialized ≡ true
    → timer_register_handler self t ≡ (eok, record t { timer_handler = self })
unfolding timer_register_handler
timer_register_handler-set self t on = rw (on, timer_register_handler) refl

timer_set_interval-set :
    (current rate : ℕ) (t : Timer)
    → t.timer_initialized ≡ true
    → let (res, t') = timer_set_interval scheduler_ticks_ms current rate t in
      (res ≡ eok)
      × (t'.timer_interval_ms ≡ scheduler_ticks_ms)
      × (t'.timer_handler ≡ t.timer_handler)
      × (t'.interrupts ≡ t.interrupts)
unfolding timer_set_interval
timer_set_interval-set current rate t on = rw (on, timer_set_interval) (refl, refl, refl, refl)

abbrev pub interrupts_of : System → Interrupts
interrupts_of s = s.timer.interrupts

abbrev pub put_interrupts : Interrupts → System → System
put_interrupts i s = record s { timer = record s.timer { interrupts = i } }

abbrev pub timer_of : System → Timer
timer_of s = s.timer

abbrev pub put_timer : Timer → System → System
put_timer t s = record s { timer = t }

-- `irq` and `self` are the addresses of timer_irq_handler and scheduler_timer_handler, `other` is the
-- code at any other address, and `now` and `frequency` what the timer's handler reads.
module _ (irq self : Ptr) (now frequency : ℕ) (cpu : Registers)
    (other : Ptr → InterruptFrame → System → Outcome × System) where
  -- The code that a call through the pointer of the timer reaches.
  abbrev pub timer_code : Ptr → InterruptFrame → System → Outcome × System
  timer_code p frame s = if p == self then scheduler_timer_handler cpu frame s else other p frame s

  -- The code that a call through the table of the interrupts reaches.
  abbrev pub irq_code : Ptr → InterruptFrame → System → Outcome × System
  irq_code p frame s =
      if p == irq
      then timer_irq_handler timer_of put_timer timer_code now frequency frame s
      else other p frame s

module _ (irq self : Ptr) where
  -- The table and the timer lead to the scheduler.
  pub record IsWired (s : System) : Type 0 where
    pub initialized : s.timer.interrupts.initialized ≡ true
    pub line : s.timer.interrupts.handlers timer_irq ≡ irq
    pub handler : s.timer.timer_handler ≡ self
    pub interval : s.timer.timer_interval_ms ≡ scheduler_ticks_ms

  scheduler_init-IsWired :
      (freq current rate : ℕ) (s : System)
      → s.timer.interrupts.initialized ≡ true
      → s.timer.interrupts.handlers timer_irq ≡ null
      → s.timer.timer_initialized ≡ false
      → irq ≢ null
      → let (res, s₁) = scheduler_init irq self freq current rate s in (res ≡ eok) × IsWired s₁
  unfolding scheduler_init
  scheduler_init-IsWired freq current rate s on empty unset ne =
      let (a, set, table) = timer_init-fresh irq freq s.timer unset on empty ne in
      let t = (timer_init irq freq s.timer).1 in
      let b = timer_register_handler-set self t set in
      let (c, ms, handler, same) =
        timer_set_interval-set current rate (record t { timer_handler = self }) set in
      rw (a, b, scheduler_init)
        (rw (b, c)
          (rw b (
            refl,
            record {
              initialized = rw (same, table) on;
              line = rw (same, table) refl;
              handler = handler;
              interval = ms;
            },
          )))

  pub process_management_init-IsWired :
      (isenabler0 freq current rate : ℕ) (s : System) (calls : Calls)
      → s.timer.interrupts.initialized ≡ false
      → s.timer.timer_initialized ≡ false
      → irq ≢ null
      → let (res, s₁, _) = process_management_init irq self isenabler0 freq current rate s calls in
        (res ≡ eok) × IsWired s₁
  unfolding process_management_init syscall_init
  process_management_init-IsWired isenabler0 freq current rate s calls off unset ne =
      let begun = put_interrupts (interrupt_init isenabler0 s.timer.interrupts).1 s in
      let (first, on, empty) = interrupt_init-fresh isenabler0 s.timer.interrupts off in
      let (res, wired) = scheduler_init-IsWired freq current rate begun on empty unset ne in
      rw (first, res, process_management_init) (refl, wired)
