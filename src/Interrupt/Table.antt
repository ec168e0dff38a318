-- ===== src/Interrupt/Table.antt =====
-- Registration of handlers and the lines of the controller.
use synapse_kernel.Prelude.{
  ℕ, ◌≤◌, ◌<◌, ◌≡◌, ◌≢◌, arith, true, eok, err, einuse, ◌==◌, if◌then◌else◌,
}
use synapse_kernel.Task.{Ptr, null}
use synapse_kernel.Interrupt.{
  Interrupts, interrupt_register_handler, interrupt_unregister_handler, max_interrupt_handlers,
}

module _ (n : ℕ) (h : Ptr) (s : Interrupts) where
  -- Registering a handler for a free line below 128 succeeds and stores it there and nowhere
  -- else; a second registration for the line then fails with -EINUSE and changes nothing; and
  -- unregistering the line gives back the table as it was.
  pub interrupt_register_handler-stores :
      s.initialized ≡ true
      → n < max_interrupt_handlers
      → h ≢ null
      → s.handlers n ≡ null
      → let (status, s') = interrupt_register_handler n h s in
        (status ≡ eok)
        × ((i : ℕ) → s'.handlers i ≡ (if n == i then h else s.handlers i))
        × ((h' : Ptr) → h' ≢ null → interrupt_register_handler n h' s' ≡ (err einuse, s'))
        × ((interrupt_unregister_handler n s').0 ≡ eok)
        × ((i : ℕ) → (interrupt_unregister_handler n s').1.handlers i ≡ s.handlers i)
  unfolding interrupt_register_handler interrupt_unregister_handler
  interrupt_register_handler-stores init lt ne free = (
    ground arith,
    (λ i. ground arith),
    (λ h' ne'. ground arith),
    ground arith,
    (λ i. ground arith),
  )

  -- No registration and no removal writes behind the table: for lines from 128 on they fail.
  pub interrupt_register_handler-bounds :
      max_interrupt_handlers ≤ n
      → ((interrupt_register_handler n h s).1 ≡ s) × ((interrupt_unregister_handler n s).1 ≡ s)
  unfolding interrupt_register_handler interrupt_unregister_handler
  interrupt_register_handler-bounds le = (ground arith, ground arith)
