-- ===== src/Scheduler/Starvation.antt =====
-- What the processes behind slot 0 get of the processor: the handler of the timer as a relation
-- between the states before and after a run of the system.
use synapse_kernel.Prelude.{
  contrary, ℕ, ◌≡◌, ◌≢◌, refl, ap, subst, arith, suc, Bool, some, true, ◌==◌, eq_of_==, first_from,
  ==_ne, ==_self, Bool-cases, ◌⊎◌, inl, inr, List, [], ◌∷◌,
}
use synapse_kernel.Task.{
  Ptr, null, Tasks, Registers, InterruptFrame, Task, Outcome, runs, ready, running, is_running,
  task_current, task_save_state, task_switch, task_current_save_state,
}
use synapse_kernel.Process.{Kernel}
use synapse_kernel.Process.Switch.{same_tasks, task_current_save_state-same}
use synapse_kernel.Process.Control.{process_get, process_switch, switched}
use synapse_kernel.Scheduler.{
  System, is_candidate, task_schedule_next_process, interrupted, scheduler_timer_handler,
}

module _ (frame : InterruptFrame) (k : Kernel) where
  interrupted_slots :
      let k' = interrupted frame k in
      (k'.process_table ≡ k.process_table) × (k'.process ≡ k.process)
  unfolding interrupted task_current
  interrupted_slots = elim (Bool-cases (k.tasks.current_task == null)) [
    | inl n ↦ rw n (refl, refl)
    | inr n ↦ rw n (refl, refl)
  ]

  interrupted_other :
      (t : Ptr) → k.tasks.current_task ≢ t → (interrupted frame k).tasks.task t ≡ k.tasks.task t
  unfolding interrupted task_current task_save_state
  interrupted_other t other = elim (Bool-cases (k.tasks.current_task == null)) [
    | inl n ↦ rw n refl
    | inr n ↦ elim (Bool-cases (is_running (k.tasks.task k.tasks.current_task).state)) [
      | inl b ↦ rw (n, ==_self k.tasks.current_task, b, ==_ne k.tasks.current_task t other) refl
      | inr b ↦ rw (n, ==_self k.tasks.current_task, b, ==_ne k.tasks.current_task t other) refl
    ]
  ]

  -- What the frame leaves of the interrupted task `c`.
  Framed : Ptr → Type 0
  Framed c =
      let new = (interrupted frame k).tasks.task c in
      let old = (k.tasks.task c).state in
      (new.registers.sp ≡ frame.sp)
      × (new.registers.pc ≡ frame.elr_el1)
      × ((old ≡ ready) ⊎ (old ≡ running) → new.state ≡ ready)

  interrupted_current : k.tasks.current_task ≢ null → Framed k.tasks.current_task
  unfolding Framed interrupted task_current task_save_state
  interrupted_current ne =
      let c = k.tasks.current_task in
      elim (Bool-cases (is_running (k.tasks.task c).state)) [
        | inl r ↦ rw (==_ne c null ne, ==_self c, r, ==_self c) (refl, refl, (λ d. refl))
        | inr r ↦
            rw (==_ne c null ne, ==_self c, r, ==_self c)
              (
                refl,
                refl,
                (λ d. elim d [ inl e ↦ e | inr e ↦ absurd (contrary (ap is_running e) r) ]),
              )
      ]

-- A task with a stack pointer and a program counter.
abbrev pub HasContext : Task → Type 0
HasContext task = (task.registers.sp ≢ 0) × (task.registers.pc ≢ 0)

switched_to :
    (t : Ptr) (tasks : Tasks)
    → t ≢ null
    → HasContext (tasks.task t)
    → let (outcome, after) = task_switch t tasks in
      (outcome ≡ runs t)
      × (after.current_task ≡ t)
      × ((after.task t).state ≡ running)
      × HasContext (after.task t)
unfolding task_switch
switched_to t tasks tn (sp, pc) =
    rw (==_ne t null tn, ==_ne _ 0 sp, ==_ne _ 0 pc, ==_self t) (refl, refl, refl, (sp, pc))

first_at : (n : ℕ) (test : ℕ → Bool) → test 0 ≡ true → first_from (suc n) 0 test ≡ some 0
unfolding first_from
first_at n test e = rw e refl

module _ (p t : Ptr) where
  -- Slot 0 holds the process at `p`, whose task at `t` can be resumed.
  pub record Resumable (k : Kernel) : Type 0 where
    pub slot : k.process_table 0 ≡ p
    pub own : (k.process p).task ≡ t
    pub sp : (k.tasks.task t).registers.sp ≢ 0
    pub pc : (k.tasks.task t).registers.pc ≢ 0

  -- The task is ready, or it is the one that runs.
  pub record IsFavoured (s : System) : Type 0 where
    pub on : s.scheduler_running ≡ true
    pub resumable : Resumable s.kernel
    pub due :
        ((s.kernel.tasks.task t).state ≡ ready)
        ⊎ ((s.kernel.tasks.current_task ≡ t) × ((s.kernel.tasks.task t).state ≡ running))

  -- After the first half of the handler the task is ready.
  interrupted-Resumable :
      (frame : InterruptFrame) (s : System)
      → t ≢ null
      → frame.sp ≢ 0
      → frame.elr_el1 ≢ 0
      → IsFavoured s
      → let k = interrupted frame s.kernel in Resumable k × ((k.tasks.task t).state ≡ ready)
  unfolding Framed
  interrupted-Resumable frame s tn sp pc f =
      let r = f.resumable in
      let k = interrupted frame s.kernel in
      let (table, process) = interrupted_slots frame s.kernel in
      let slot : k.process_table 0 ≡ p = rw table r.slot in
      let own : (k.process p).task ≡ t = rw process r.own in
      elim (Bool-cases (s.kernel.tasks.current_task == t)) [
        | inl c ↦
            let same = eq_of_== s.kernel.tasks.current_task t c in
            let (a, b, d) : Framed frame s.kernel t =
              subst (λ c. c ≢ null → Framed frame s.kernel c) same
                (interrupted_current frame s.kernel) tn in
            (record { slot = slot; own = own; sp = rw a sp; pc = rw b pc }, d (ground arith))
        | inr c ↦
            let task = interrupted_other frame s.kernel t (λ e. contrary (rw e (==_self t)) c) in
            (
              record { slot = slot; own = own; sp = rw task r.sp; pc = rw task r.pc },
              rw task
                  (elim f.due [ inl e ↦ e | inr (e, g) ↦ absurd (contrary (rw e (==_self t)) c) ]),
            )
      ]

  -- process_switch to slot 0 runs the task and leaves it to be resumed again.
  process_switch-first :
      (cpu : Registers) (k : Kernel)
      → p ≢ null
      → t ≢ null
      → Resumable k
      → let (outcome, k') = process_switch cpu 0 k in
        (outcome ≡ runs t)
        × (k'.tasks.current_task ≡ t)
        × ((k'.tasks.task t).state ≡ running)
        × Resumable k'
  unfolding process_switch switched
  process_switch-first cpu k pn tn r =
      let (a, b, c, (d, e)) = switched_to t k.tasks tn (r.sp, r.pc) in
      rw
        (
          same_tasks (k.process_table k.current_process == null) k.tasks
              (task_current_save_state cpu k.tasks).1 (task_current_save_state-same cpu k.tasks),
          r.slot,
          ==_ne p null pn,
          r.own,
        )
        (ap switched a, b, c, record { slot = r.slot; own = r.own; sp = d; pc = e })

  -- The system between two interrupts of the timer: the code that runs may change all but the
  -- flag, slot 0, its process's task, and the current task.
  pub record Untouched (s s' : System) : Type 0 where
    pub flag : s'.scheduler_running ≡ s.scheduler_running
    pub slot : s'.kernel.process_table 0 ≡ s.kernel.process_table 0
    pub own : (s'.kernel.process p).task ≡ (s.kernel.process p).task
    pub task : s'.kernel.tasks.task t ≡ s.kernel.tasks.task t
    pub current : s'.kernel.tasks.current_task ≡ s.kernel.tasks.current_task

  -- A run of the system with what its interrupts of the timer end in, the first in front.
  pub data Run : System → System → List Outcome → Type 0 where
    here : {s : System} → Run s s []
    work : {s s' s'' : System} {os : List Outcome} → Untouched s s' → Run s' s'' os → Run s s'' os
    tick :
        {s s'' : System} {os : List Outcome} (cpu : Registers) (frame : InterruptFrame)
        → frame.sp ≢ 0
        → frame.elr_el1 ≢ 0
        → Run (scheduler_timer_handler cpu frame s).1 s'' os
        → Run s s'' ((scheduler_timer_handler cpu frame s).0 ∷ os)

  first_candidate :
      (k : Kernel)
      → p ≢ null
      → t ≢ null
      → Resumable k
      → (k.tasks.task t).state ≡ ready
      → task_schedule_next_process k ≡ 0
  unfolding task_schedule_next_process process_get
  first_candidate k pn tn r due =
      let passes : is_candidate k 0 ≡ true =
        rw (r.slot, r.own, ==_ne p null pn, ==_ne t null tn, due) refl in
      rw (first_at 63 (is_candidate k) passes, task_schedule_next_process) refl

  scheduler_timer_handler-IsFavoured :
      (cpu : Registers) (frame : InterruptFrame) (s : System)
      → p ≢ null
      → t ≢ null
      → frame.sp ≢ 0
      → frame.elr_el1 ≢ 0
      → IsFavoured s
      → let (outcome, s') = scheduler_timer_handler cpu frame s in
        (outcome ≡ runs t) × IsFavoured s'
  unfolding scheduler_timer_handler switched
  scheduler_timer_handler-IsFavoured cpu frame s pn tn fsp elr f =
      let k = interrupted frame s.kernel in
      let (r, due) = interrupted-Resumable frame s tn fsp elr f in
      let (a, b, c, d) = process_switch-first cpu k pn tn r in
      rw (f.on, first_candidate k pn tn r due)
        (ap switched a, record { on = refl; resumable = d; due = inr (b, c) })

  work-IsFavoured : (s s' : System) → Untouched s s' → IsFavoured s → IsFavoured s'
  work-IsFavoured s s' u f =
      let r = f.resumable in
      let slot : s'.kernel.process_table 0 ≡ p = rw u.slot r.slot in
      let own : (s'.kernel.process p).task ≡ t = rw u.own r.own in
      record {
        on = rw u.flag f.on;
        resumable = record { slot = slot; own = own; sp = rw u.task r.sp; pc = rw u.task r.pc };
        due = rw (u.task, u.current) f.due;
      }

  abbrev pub AllRun : List Outcome → Type 0
  AllRun [] = Unit
  AllRun (o ∷ os) = (o ≡ runs t) × AllRun os

  -- While the scheduler is on and the task of the process in slot 0, whose saved stack pointer and
  -- program counter are not 0, is ready or is the one that runs, every interrupt of the timer ends in that task, and it stays so: in a run of the system in which the code between
  -- the interrupts leaves slot 0, that task, the current task and the scheduler's flag as they
  -- are, whatever it does with the other slots, and in which no frame has 0 for its stack pointer or
  -- its return address, no other process is ever scheduled.
  pub Run-starves :
      {s s' : System} {os : List Outcome}
      → p ≢ null
      → t ≢ null
      → IsFavoured s
      → Run s s' os
      → AllRun os × IsFavoured s'
  Run-starves pn tn f here = (tt, f)
  Run-starves pn tn f (work {s} {s'} u r) = Run-starves pn tn (work-IsFavoured s s' u f) r
  Run-starves pn tn f (tick {s} cpu frame fsp elr r) =
      let (o, f') = scheduler_timer_handler-IsFavoured cpu frame s pn tn fsp elr f in
      let (os, last) = Run-starves pn tn f' r in ((o, os), last)
