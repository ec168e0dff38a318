-- ===== src/Interrupt/Irq.antt =====
-- The dispatch of an interrupt.
use synapse_kernel.Prelude.{
  ℕ, ◌%◌, ◌≤◌, ◌<◌, ◌≡◌, ◌≢◌, arith, true, false, eok, [], ◌∷◌, Status, ==_ne, leb,
}
use synapse_kernel.Task.{Ptr, null, InterruptFrame, Outcome, returns, runs}
use synapse_kernel.Interrupt.{Interrupts, irq_handler, end_of_interrupt, gicc_eoir, write}

module _ {M : Type 0} (get : M → Interrupts) (put : Interrupts → M → M)
    (call : Ptr → InterruptFrame → M → Outcome × M) (iar : ℕ) (frame : InterruptFrame) (m : M) where
  -- For an interrupt with a handler that returns, irq_handler calls the handler once, signals the
  -- end of the interrupt with the value read, after the handler, and returns the handler's result.
  pub irq_handler-returns :
      (res : Status) (m' : M)
      → (get m).initialized ≡ true
      → iar % 1024 < 1020
      → (get m).handlers (iar % 1024) ≢ null
      → call ((get m).handlers (iar % 1024)) frame m ≡ (returns res, m')
      → irq_handler get put call iar frame m
        ≡ (returns res, put (write (get m') ((gicc_eoir, iar) ∷ [])) m')
  unfolding irq_handler end_of_interrupt
  irq_handler-returns res m' init lt ne e =
      let small : leb 1020 (iar % 1024) ≡ false = ground arith in rw (init, small, ==_ne _ _ ne, e)

  -- For an interrupt whose handler switches to another task, irq_handler leaves the system as the
  -- handler left it: the end of the interrupt is never signalled.
  pub irq_handler-runs :
      (task : Ptr) (m' : M)
      → (get m).initialized ≡ true
      → iar % 1024 < 1020
      → (get m).handlers (iar % 1024) ≢ null
      → call ((get m).handlers (iar % 1024)) frame m ≡ (runs task, m')
      → irq_handler get put call iar frame m ≡ (runs task, m')
  unfolding irq_handler end_of_interrupt
  irq_handler-runs task m' init lt ne e =
      let small : leb 1020 (iar % 1024) ≡ false = ground arith in rw (init, small, ==_ne _ _ ne, e)

  -- Spurious interrupts, from 1020 on, are left alone.
  pub irq_handler-spurious :
      (get m).initialized ≡ true
      → 1020 ≤ iar % 1024
      → irq_handler get put call iar frame m ≡ (returns eok, m)
  unfolding irq_handler
  irq_handler-spurious init le =
      let big : leb 1020 (iar % 1024) ≡ true = ground arith in rw (init, big)
