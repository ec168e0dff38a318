-- ===== src/Management/Keeping.antt =====
-- The start and the end of the scheduler change no handler and no interval.
use synapse_kernel.Prelude.{
  ℕ, ◌≡◌, refl, ◌∙◌, arith, true, false, ok, err, inl, inr, some, none, Option, Bool, not,
  Result-cases, Status, if◌then◌else◌, [], ◌∷◌,
}
use synapse_kernel.Task.{Outcome, returns, runs, Tasks, task_run_first_ever_task}
use synapse_kernel.Interrupt.{
  Interrupts, interrupt_enable, interrupt_disable, interrupt_enable_all, interrupt_disable_all,
  write, daifclr,
}
use synapse_kernel.Timer.{Timer, timer_irq, timer_enable, timer_disable}
use synapse_kernel.Scheduler.{System, scheduler_start, scheduler_stop, first_task_ran}

pub record SameTable (i i' : Interrupts) : Type 0 where
  pub handlers : i'.handlers ≡ i.handlers
  pub initialized : i'.initialized ≡ i.initialized

pub record SameWiring (t t' : Timer) : Type 0 where
  pub table : SameTable t.interrupts t'.interrupts
  pub handler : t'.timer_handler ≡ t.timer_handler
  pub interval : t'.timer_interval_ms ≡ t.timer_interval_ms

SameTable-trans : (i j k : Interrupts) → SameTable i j → SameTable j k → SameTable i k
SameTable-trans i j k p q = record {
  handlers = q.handlers ∙ p.handlers;
  initialized = q.initialized ∙ p.initialized;
}

SameWiring-trans : (t u v : Timer) → SameWiring t u → SameWiring u v → SameWiring t v
SameWiring-trans t u v p q = record {
  table = SameTable-trans t.interrupts u.interrupts v.interrupts p.table q.table;
  handler = q.handler ∙ p.handler;
  interval = q.interval ∙ p.interval;
}

interrupt_enable-SameTable : (n : ℕ) (i : Interrupts) → SameTable i (interrupt_enable n i).1
unfolding interrupt_enable
interrupt_enable-SameTable n i = record { handlers = ground arith; initialized = ground arith }

interrupt_disable-SameTable : (n : ℕ) (i : Interrupts) → SameTable i (interrupt_disable n i).1
unfolding interrupt_disable
interrupt_disable-SameTable n i = record { handlers = ground arith; initialized = ground arith }

interrupt_enable_all-SameTable : (i : Interrupts) → SameTable i (interrupt_enable_all i).1
unfolding interrupt_enable_all
interrupt_enable_all-SameTable i = record { handlers = ground arith; initialized = ground arith }

interrupt_disable_all-SameTable : (i : Interrupts) → SameTable i (interrupt_disable_all i).1
unfolding interrupt_disable_all
interrupt_disable_all-SameTable i = record { handlers = ground arith; initialized = ground arith }

either :
    (b : Bool) (P : Timer → Type 0) (r r' : Status × Timer)
    → P r.1
    → P r'.1
    → P (if b then r else r').1
either true P r r' p q = p
either false P r r' p q = q

SameWiring-refl : (t : Timer) → SameWiring t t
SameWiring-refl t = record {
  table = record { handlers = refl; initialized = refl };
  handler = refl;
  interval = refl;
}

timer_enable-SameWiring : (t : Timer) → SameWiring t (timer_enable t).1
unfolding timer_enable
timer_enable-SameWiring t =
    let table = interrupt_enable-SameTable timer_irq (write t.interrupts ((daifclr, 2) ∷ [])) in
    either (not t.timer_initialized) (SameWiring t) _ _ (SameWiring-refl t) (record {
      table = record { handlers = table.handlers; initialized = table.initialized };
      handler = refl;
      interval = refl;
    })

timer_disable-SameWiring : (t : Timer) → SameWiring t (timer_disable t).1
unfolding timer_disable
timer_disable-SameWiring t =
    either (not t.timer_initialized) (SameWiring t) _ _ (SameWiring-refl t) (record {
      table = interrupt_disable-SameTable timer_irq t.interrupts;
      handler = refl;
      interval = refl;
    })

-- Other interrupts under the timer.
with_interrupts :
    (t : Timer) (i : Interrupts)
    → SameTable t.interrupts i
    → SameWiring t (record t { interrupts = i })
with_interrupts t i same = record { table = same; handler = refl; interval = refl }

pub scheduler_stop-SameWiring : (s : System) → SameWiring s.timer (scheduler_stop s).1.timer
unfolding scheduler_stop
scheduler_stop-SameWiring s = elim (Result-cases (timer_disable s.timer).0) [
  | inl (x, e) ↦ rw (e, scheduler_stop) (timer_disable-SameWiring s.timer)
  | inr (x, e) ↦ rw (e, scheduler_stop) (timer_disable-SameWiring s.timer)
]

first_task_ran-SameWiring :
    (outcome : Outcome) (s : System) → SameWiring s.timer (first_task_ran outcome s).1.timer
unfolding first_task_ran
first_task_ran-SameWiring (runs task) s = SameWiring-refl s.timer
first_task_ran-SameWiring (returns (ok x)) s = SameWiring-refl s.timer
first_task_ran-SameWiring (returns (err e)) s =
    let t = (timer_disable s.timer).1 in
    SameWiring-trans s.timer t (record t { interrupts = (interrupt_disable_all t.interrupts).1 })
      (timer_disable-SameWiring s.timer)
      (with_interrupts t (interrupt_disable_all t.interrupts).1
        (interrupt_disable_all-SameTable t.interrupts))

-- If there is a result, its timer is wired as `t` is.
abbrev pub ResultSame : Timer → Option (Outcome × System) → Type 0
ResultSame t none = Unit
ResultSame t (some (outcome, s')) = SameWiring t s'.timer

ran-ResultSame :
    (t : Timer) (r : Option (Outcome × Tasks)) (finish : Outcome → Tasks → Outcome × System)
    → ((outcome : Outcome) (tasks : Tasks) → SameWiring t (finish outcome tasks).1.timer)
    → ResultSame t (elim r [ none ↦ none | some (outcome, tasks) ↦ some (finish outcome tasks) ])
ran-ResultSame t none finish h = tt
ran-ResultSame t (some (outcome, tasks)) finish h = h outcome tasks

pub scheduler_start-ResultSame :
    (fuel : ℕ) (s : System) → ResultSame s.timer (scheduler_start fuel s)
unfolding scheduler_start
scheduler_start-ResultSame fuel s =
    let t₁ = (timer_enable s.timer).1 in
    let i = (interrupt_enable_all t₁.interrupts).1 in
    let t₂ : Timer = record t₁ { interrupts = i } in
    let first = timer_enable-SameWiring s.timer in
    let second =
      SameWiring-trans s.timer t₁ t₂ first
        (with_interrupts t₁ i (interrupt_enable_all-SameTable t₁.interrupts)) in
    elim (Result-cases (timer_enable s.timer).0) [
      | inr (x, e) ↦ rw (e, ResultSame, scheduler_start) first
      | inl (x, e) ↦ elim (Result-cases (interrupt_enable_all t₁.interrupts).0) [
        | inr (y, f) ↦
            rw (e, f, ResultSame, scheduler_start)
              (SameWiring-trans s.timer t₂ (timer_disable t₂).1 second
                (timer_disable-SameWiring t₂))
        | inl (y, f) ↦
            rw (e, f, ResultSame, scheduler_start)
              (ran-ResultSame s.timer (task_run_first_ever_task fuel s.kernel.tasks)
                (λ outcome tasks. first_task_ran outcome (record {
                  kernel = record s.kernel { tasks = tasks };
                  timer = t₂;
                  scheduler_running = true;
                }))
                (λ outcome tasks.
                  let ready : System = record {
                    kernel = record s.kernel { tasks = tasks };
                    timer = t₂;
                    scheduler_running = true;
                  } in
                  SameWiring-trans s.timer t₂ (first_task_ran outcome ready).1.timer second
                    (first_task_ran-SameWiring outcome ready)))
      ]
    ]
