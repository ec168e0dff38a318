-- ===== src/Timer.antt =====
-- core/timer/timer.c: the tick counter, the interval, and the handler that a tick calls.
-- The count and the frequency that the code reads from the system registers are arguments. Messages
-- are left out.
pub mod Ticks
mod Tests
use synapse_kernel.Prelude.{
  ℕ, zero, suc, ◌+◌, ◌*◌, ◌/◌, ◌%◌, ◌^◌, Bool, true, false, not, Status, eok, ok, err, einvarg,
  enotready, List, [], ◌∷◌, ◌++◌, ◌==◌, if◌then◌else◌, ◌<◌, ◌≤◌, ltb, update,
}
use synapse_kernel.Hex.{hex_from, uint64_to_hex}
use synapse_kernel.Hex.Reading.{HexPrints, uint64_to_hex-HexPrints}
use synapse_kernel.Task.{Ptr, null, InterruptFrame, Outcome, returns, runs}
use synapse_kernel.Interrupt.{
  Interrupts, interrupt_register_handler, interrupt_enable, interrupt_disable, write, daifclr,
}

-- TIMER_IRQ
abbrev pub timer_irq : ℕ
timer_irq = 30

-- CPU_FREQ_HZ
abbrev pub cpu_freq_hz : ℕ
cpu_freq_hz = 1000000000

pub data TimerRegister : Type 0 where
  cntp_cval_el0 cntp_ctl_el0 cntfrq_el0 : TimerRegister

-- The state of timer.c, with the interrupt state that it uses; `timer_writes` is what is written
-- to the timer's registers, oldest first.
pub record Timer : Type 0 where
  pub interrupts : Interrupts
  pub timer_initialized : Bool
  pub timer_handler : Ptr
  pub timer_ticks : ℕ
  pub timer_interval_ms : ℕ
  pub timer_writes : List (TimerRegister × ℕ)

abbrev pub write_timer : Timer → List (TimerRegister × ℕ) → Timer
write_timer s ws = record s { timer_writes = s.timer_writes ++ ws }

-- `(frequency * ms) / 1000` on `uint64_t`
abbrev pub interval : ℕ → ℕ → ℕ
interval frequency ms = frequency * ms % 2 ^ 64 / 1000

-- What timer_irq_handler does before it calls the handler.
unfoldable pub timer_tick : ℕ → ℕ → Timer → Timer
timer_tick current frequency s = record s {
  timer_ticks = (s.timer_ticks + 1) % 2 ^ 64;
  timer_writes =
      s.timer_writes
      ++ (cntp_cval_el0, (current + interval frequency s.timer_interval_ms) % 2 ^ 64) ∷ [];
}

-- A handler may change all of the system `M`, in which the timer is read by `get` and written by
-- `put`.
module _ {M : Type 0} (get : M → Timer) (put : Timer → M → M)
    (call : Ptr → InterruptFrame → M → Outcome × M) where
  unfoldable pub timer_irq_handler : ℕ → ℕ → InterruptFrame → M → Outcome × M
  timer_irq_handler current frequency int_frame m =
      let m' = put (timer_tick current frequency (get m)) m in
      let handler = (get m').timer_handler in
      if handler == null then (returns eok, m') else call handler int_frame m'

-- `self` is the address of timer_irq_handler.
unfoldable pub timer_init : Ptr → ℕ → Timer → Status × Timer
timer_init self freq s =
    if s.timer_initialized
    then (eok, s)
    else let (res, interrupts) = interrupt_register_handler timer_irq self s.interrupts in
      elim res [
        | err e ↦ (err e, record s { interrupts = interrupts })
        | ok _ ↦ (
          eok,
          record s {
            interrupts = interrupts;
            timer_initialized = true;
            timer_writes =
                s.timer_writes
                ++ (cntp_ctl_el0, 0) ∷ (if freq == 0 then (cntfrq_el0, cpu_freq_hz) ∷ [] else []);
          },
        )
      ]

unfoldable pub timer_register_handler : Ptr → Timer → Status × Timer
timer_register_handler handler s =
    if not s.timer_initialized
    then (err enotready, s)
    else (eok, record s { timer_handler = handler })

unfoldable pub timer_unregister_handler : Timer → Status × Timer
timer_unregister_handler s =
    if not s.timer_initialized then (err enotready, s) else (eok, record s { timer_handler = null })

unfoldable pub timer_set_interval : ℕ → ℕ → ℕ → Timer → Status × Timer
timer_set_interval ms current frequency s =
    if not s.timer_initialized then (err enotready, s) else if ms == 0 then (err einvarg, s) else (
      eok,
      record s {
        timer_interval_ms = ms;
        timer_writes =
            s.timer_writes
            ++ (cntp_ctl_el0, 0) ∷ (cntp_cval_el0, (current + interval frequency ms) % 2 ^ 64) ∷ [];
      },
    )

unfoldable pub timer_enable : Timer → Status × Timer
timer_enable s = if not s.timer_initialized then (err enotready, s) else (
  eok,
  record s {
    interrupts = (interrupt_enable timer_irq (write s.interrupts ((daifclr, 2) ∷ []))).1;
    timer_writes = s.timer_writes ++ (cntp_ctl_el0, 1) ∷ (cntp_ctl_el0, 1) ∷ [];
  },
)

unfoldable pub timer_disable : Timer → Status × Timer
timer_disable s = if not s.timer_initialized then (err enotready, s) else (
  eok,
  record s {
    interrupts = (interrupt_disable timer_irq s.interrupts).1;
    timer_writes = s.timer_writes ++ (cntp_ctl_el0, 0) ∷ [];
  },
)

unfoldable pub timer_get_ticks : Timer → ℕ
timer_get_ticks s = s.timer_ticks

unfoldable pub timer_get_ms : Timer → ℕ
timer_get_ms s =
    if s.timer_interval_ms == 0 then 0 else s.timer_ticks * s.timer_interval_ms % 2 ^ 64

-- uint64_to_str, with the loop of the uint64_to_hex of task.c. What it is used for is printed only.
unfoldable uint64_to_str : ℕ → (ℕ → ℕ) → ℕ → ℕ → ℕ
uint64_to_str value buffer buffer_size =
    if ltb buffer_size 3
    then buffer
    else let (pos, written) =
        hex_from 16 value buffer_size 2 false (update (update buffer 0 48) 1 120) in
      update written pos 0

-- The string reads as the value.
uint64_to_str-HexPrints :
    (value buffer_size : ℕ) (buffer : ℕ → ℕ)
    → value < 2 ^ 64
    → 19 ≤ buffer_size
    → HexPrints value (uint64_to_str value buffer buffer_size)
unfolding uint64_to_str uint64_to_hex
uint64_to_str-HexPrints value buffer_size buffer h room =
    uint64_to_hex-HexPrints value buffer_size buffer h room
