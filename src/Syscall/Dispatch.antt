-- ===== src/Syscall/Dispatch.antt =====
-- Which handler a system call reaches, and what its caller gets.
use synapse_kernel.Prelude.{
  ℕ, zero, suc, ◌^◌, ◌<◌, ◌≡◌, ◌≢◌, refl, arith, Option, none, some, true, false, einvsyscall, List,
  [], ◌∷◌, leb, update, ℤ, pos, negsuc, ◌-◌, ==_ne,
}
use mathlib.Core.Logic.{◌↔◌}
use synapse_kernel.Task.{null, InterruptFrame}
use synapse_kernel.Process.{process_malloc}
use synapse_kernel.Process.Control.{process_current}
use synapse_kernel.Syscall.{
  Calls, Handler, Answer, gives, syscall_process_exit, syscall_process_malloc, syscall_process_free,
  syscall_process_get_args, syscall_internal_print_char, syscall_internal_print_string, code,
  to_int, to_register, not_positive, syscall_init, syscall_handler, svc_c_handler, answered, handle,
  malloc_call,
}

-- The handlers in the order of their numbers.
abbrev pub numbered : List Handler
numbered =
    syscall_process_exit ∷ syscall_process_malloc ∷ syscall_process_free ∷ syscall_process_get_args
    ∷ syscall_internal_print_char ∷ syscall_internal_print_string ∷ []

abbrev pub nth : List Handler → ℕ → Option Handler
nth [] n = none
nth (h ∷ hs) zero = some h
nth (h ∷ hs) (suc n) = nth hs n

-- The handler of a number, if it has one.
abbrev pub handler_of : ℤ → Option Handler
handler_of (pos n) = nth numbered n
handler_of (negsuc n) = none

-- What svc_c_handler is to do for a handler, or for a number that has none.
abbrev pub dispatched :
    ℕ → InterruptFrame → Calls → Option Handler → Option (Answer × InterruptFrame × Calls)
dispatched fuel frame s none =
    some (gives (code einvsyscall), record frame { x = update frame.x 0 (2 ^ 64 - 13) }, s)
dispatched fuel frame s (some h) = elim (handle fuel h (frame.x 1) (frame.x 2) s) [
  | none ↦ none
  | some a ↦ some (answered frame a)
]

-- After syscall_init a supervisor call reaches the handler that has its number, from 0 for exit to
-- 5 for printing a string, with x1 and x2 of the frame; for every other number, also a negative
-- one, -EINVSYSCALL stands in x0 and nothing else changes.
pub svc_c_handler-dispatched :
    (fuel : ℕ) (n : ℤ) (frame : InterruptFrame) (s : Calls)
    → let s' = (syscall_init s).1 in
      svc_c_handler fuel n frame s' ≡ dispatched fuel frame s' (handler_of n)
unfolding svc_c_handler syscall_handler syscall_init answered
svc_c_handler-dispatched fuel (negsuc n) frame s = refl
svc_c_handler-dispatched fuel (pos zero) frame s = refl
svc_c_handler-dispatched fuel (pos (suc zero)) frame s = refl
svc_c_handler-dispatched fuel (pos (suc (suc zero))) frame s = refl
svc_c_handler-dispatched fuel (pos (suc (suc (suc zero)))) frame s = refl
svc_c_handler-dispatched fuel (pos (suc (suc (suc (suc zero))))) frame s = refl
svc_c_handler-dispatched fuel (pos (suc (suc (suc (suc (suc zero)))))) frame s = refl
svc_c_handler-dispatched fuel (pos (suc (suc (suc (suc (suc (suc n))))))) frame s =
    let big : leb 6 (suc (suc (suc (suc (suc (suc n)))))) ≡ true = ground arith in rw big refl

to_int_fits : (p : ℕ) → p < 2 ^ 64 - 2 ^ 31 → (to_register (to_int p) ≡ p) ↔ (p < 2 ^ 31)
to_int_fits p h = ((λ e. ground arith), (λ l. ground arith))

-- A process that asks for memory gets in its register the address that process_malloc returned,
-- and recorded, exactly when this lies below 2 ^ 31: the address goes through `int`. The size is
-- positive, and the address is not in the last 2 ^ 31 bytes of the address space.
pub malloc_call-fits :
    (size : ℕ) (s : Calls)
    → process_current s.kernel ≢ null
    → size ≢ 0
    → size < 2 ^ 63
    → let ptr = (process_malloc (process_current s.kernel) size s.kernel).0 in
      ptr < 2 ^ 64 - 2 ^ 31 → (to_register (malloc_call size s).0 ≡ ptr) ↔ (ptr < 2 ^ 31)
unfolding malloc_call
malloc_call-fits size s ne nz small h =
    let wanted : not_positive size ≡ false = ground arith in
    rw (==_ne (process_current s.kernel) null ne, wanted)
      (to_int_fits (process_malloc (process_current s.kernel) size s.kernel).0 h)
