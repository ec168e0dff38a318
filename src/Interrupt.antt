-- ===== src/Interrupt.antt =====
-- core/interrupts/interrupt.c: the table of interrupt handlers and the interrupt controller.
-- A handler is the address of its code, 0 for NULL. What the code writes to the controller and to
-- DAIF is a list, oldest first; what it reads from the controller is an argument.
pub mod Table
pub mod Irq
mod Tests
use Prim.Native.Nat.{bit_or}
use synapse_kernel.Prelude.{
  ℕ, zero, suc, ◌+◌, ◌/◌, ◌%◌, ◌^◌, Option, none, some, Bool, true, false, ◌||◌, ◌&&◌, not, Status,
  eok, err, einvarg, enotready, einuse, List, [], ◌∷◌, ◌++◌, leb, ltb, ◌==◌, if◌then◌else◌, update,
}
use synapse_kernel.Task.{
  Ptr, null, TaskState, Tasks, InterruptFrame, Outcome, returns, runs, task_current,
  task_save_state, task_schedule, is_ready,
}

-- MAX_INTERRUPT_HANDLERS
abbrev pub max_interrupt_handlers : ℕ
max_interrupt_handlers = 128

-- The registers of interrupt.h that are written, and the interrupt mask of the processor.
pub data Register : Type 0 where
  gicd_ctlr gicc_ctlr gicc_pmr gicc_bpr gicc_eoir : Register
  gicd_isenabler gicd_icenabler gicd_ispendr gicd_icpendr gicd_icfgr : ℕ → Register
  daifset daifclr : Register

abbrev pub Write : Type 0
Write = Register × ℕ

-- The entries of `handlers` from 128 on are what lies behind the table.
pub record Interrupts : Type 0 where
  pub handlers : ℕ → Ptr
  pub initialized : Bool
  pub writes : List Write

abbrev pub write : Interrupts → List Write → Interrupts
write s ws = record s { writes = s.writes ++ ws }

-- `for (int i = 0; i < n; i++)` over writes, with the rounds left.
unfoldable pub for_writes : ℕ → ℕ → (ℕ → List Write) → List Write
for_writes zero i body = []
for_writes (suc k) i body = body i ++ for_writes k (i + 1) body

-- `isenabler0` is what reading GICD_ISENABLER(0) gives.
unfoldable pub interrupt_init : ℕ → Interrupts → Status × Interrupts
unfolding for_writes
interrupt_init isenabler0 s = if s.initialized then (eok, s) else (
  eok,
  record {
    handlers = λ i. if ltb i max_interrupt_handlers then null else s.handlers i;
    initialized = true;
    writes =
        s.writes
        ++ (gicd_ctlr, 0)
          ∷ (for_writes 8 0 (λ i. (gicd_icfgr i, 0) ∷ [])
              ++ for_writes 4 0
                  (λ i. (gicd_icenabler i, 0xFFFFFFFF) ∷ (gicd_icpendr i, 0xFFFFFFFF) ∷ [])
              ++ for_writes 4 0 (λ i. (gicd_ispendr i, 0xFFFFFFFF) ∷ [])
              ++ (gicd_isenabler 0, bit_or isenabler0 0x4000_0000)
                ∷ (gicd_ctlr, 2)
                ∷ (gicc_ctlr, 0)
                ∷ (gicc_pmr, 0xFF)
                ∷ (gicc_bpr, 0)
                ∷ (gicc_ctlr, 2)
                ∷ []);
  },
)

unfoldable pub interrupt_register_handler : ℕ → Ptr → Interrupts → Status × Interrupts
interrupt_register_handler interrupt_num handler s =
    if not s.initialized
    then (err enotready, s)
    else if leb max_interrupt_handlers interrupt_num || handler == null
    then (err einvarg, s)
    else if not (s.handlers interrupt_num == null)
    then (err einuse, s)
    else (eok, record s { handlers = update s.handlers interrupt_num handler })

unfoldable pub interrupt_unregister_handler : ℕ → Interrupts → Status × Interrupts
interrupt_unregister_handler interrupt_num s =
    if not s.initialized
    then (err enotready, s)
    else if leb max_interrupt_handlers interrupt_num
    then (err einvarg, s)
    else (eok, record s { handlers = update s.handlers interrupt_num null })

unfoldable pub interrupt_enable : ℕ → Interrupts → Status × Interrupts
interrupt_enable interrupt_num s =
    if not s.initialized
    then (err enotready, s)
    else if leb max_interrupt_handlers interrupt_num
    then (err einvarg, s)
    else let reg_idx = interrupt_num / 32 in
      let bit_offset = interrupt_num % 32 in
      (eok, write s ((gicd_isenabler reg_idx, 2 ^ bit_offset) ∷ []))

unfoldable pub interrupt_disable : ℕ → Interrupts → Status × Interrupts
interrupt_disable interrupt_num s =
    if not s.initialized
    then (err enotready, s)
    else if leb max_interrupt_handlers interrupt_num
    then (err einvarg, s)
    else let reg_idx = interrupt_num / 32 in
      let bit_offset = interrupt_num % 32 in
      (eok, write s ((gicd_icenabler reg_idx, 2 ^ bit_offset) ∷ []))

unfoldable pub interrupt_enable_all : Interrupts → Status × Interrupts
interrupt_enable_all s =
    if not s.initialized then (err enotready, s) else (eok, write s ((daifclr, 2) ∷ []))

unfoldable pub interrupt_disable_all : Interrupts → Status × Interrupts
interrupt_disable_all s =
    if not s.initialized then (err enotready, s) else (eok, write s ((daifset, 2) ∷ []))

-- A handler may change all of the system `M`, in which the interrupt state is read by `get` and
-- written by `put`. It returns, or the processor runs another task and it never does.
module _ {M : Type 0} (get : M → Interrupts) (put : Interrupts → M → M)
    (call : Ptr → InterruptFrame → M → Outcome × M) where
  -- What follows the handler's call.
  unfoldable pub end_of_interrupt : ℕ → Outcome × M → Outcome × M
  end_of_interrupt iar (returns res, m) =
      (returns res, put (write (get m) ((gicc_eoir, iar) ∷ [])) m)
  end_of_interrupt iar (runs task, m) = (runs task, m)

  -- `iar` is what reading GICC_IAR gives.
  unfoldable pub irq_handler : ℕ → InterruptFrame → M → Outcome × M
  irq_handler iar int_frame m =
      if not (get m).initialized
      then (returns (err enotready), m)
      else let interrupt_id = iar % 2 ^ 10 in
        if leb 1020 interrupt_id
        then (returns eok, m)
        else let handler = (get m).handlers interrupt_id in
          end_of_interrupt iar
            (if handler == null then (returns eok, m) else call handler int_frame m)

  unfoldable pub el1_irq_handler : ℕ → InterruptFrame → M → Outcome × M
  el1_irq_handler iar int_frame m = irq_handler iar int_frame m

-- The tasks of the system are read by `tasks` and written by `put_tasks`; `none` means that the
-- search of task_schedule ran out of fuel.
module _ {M : Type 0} (get : M → Interrupts) (put : Interrupts → M → M)
    (call : Ptr → InterruptFrame → M → Outcome × M) (tasks : M → Tasks)
    (put_tasks : Tasks → M → M) where
  -- The end of el0_irq_handler, from the return of irq_handler on.
  unfoldable pub schedule_after : ℕ → Ptr → Status → M → Option (Outcome × M)
  schedule_after fuel current res m =
      if not (current == null) && is_ready ((tasks m).task current).state
      then elim (task_schedule fuel (tasks m)) [
        | none ↦ none
        | some (returns _, s) ↦ some (returns res, put_tasks s m)
        | some (runs task, s) ↦ some (runs task, put_tasks s m)
      ]
      else some (returns res, m)

  unfoldable pub el0_irq_handler : ℕ → ℕ → InterruptFrame → M → Option (Outcome × M)
  el0_irq_handler fuel iar int_frame m =
      let current = task_current (tasks m) in
      let saved =
        if current == null
        then m
        else put_tasks (task_save_state current (some int_frame) (tasks m)).1 m in
      let (outcome, m') = irq_handler get put call iar int_frame saved in
      elim outcome [
        | returns res ↦ schedule_after fuel current res m'
        | runs task ↦ some (runs task, m')
      ]
