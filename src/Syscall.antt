-- ===== src/Syscall.antt =====
-- core/interrupts/svc.c and syscall.c: from svc_c_handler to the handler of the system call.
-- What the UART is sent is a list of the characters and of the addresses of the strings.
pub mod Dispatch
pub mod Trap
pub mod Callers
pub mod Exit
mod Tests
use synapse_kernel.Prelude.{
  ℕ, ◌+◌, ◌%◌, ◌^◌, Option, none, some, Bool, true, false, not, ◌||◌, Status, Result, Errno, eok,
  ok, err, errno_value, einvarg, esyscall, einvsyscall, List, [], ◌∷◌, ◌++◌, leb, ltb, ◌==◌,
  if◌then◌else◌, update, ℤ, pos, negsuc, ◌-◌,
}
use synapse_kernel.Task.{Ptr, null, Tasks, InterruptFrame, Outcome, returns, runs, task_schedule}
use synapse_kernel.Process.{Kernel, process_malloc, process_free}
use synapse_kernel.Process.Control.{process_current, process_terminate}

-- SYSCALL_PROCESS_EXIT to SYSCALL_PRINT_STRING, by their numbers, and SYSCALL_MAX
abbrev pub syscall_max : ℕ
syscall_max = 6

-- The handlers that syscall_init stores.
pub data Handler : Type 0 where
  syscall_process_exit syscall_process_malloc syscall_process_free : Handler
  syscall_process_get_args syscall_internal_print_char syscall_internal_print_string : Handler

pub data Output : Type 0 where
  char : ℕ → Output
  string : Ptr → Output

-- `svc_handler_set` is whether `global_svc_handler` is syscall_handler or NULL; `stored` is what the
-- system calls store through the caller's pointers, oldest first.
pub record Calls : Type 0 where
  pub kernel : Kernel
  pub syscall_table : ℕ → Option Handler
  pub svc_handler_set : Bool
  pub output : List Output
  pub stored : List (Ptr × ℕ)

-- A system call returns an `int`, or the processor runs another task.
pub data Answer : Type 0 where
  gives : ℤ → Answer
  switches : Ptr → Answer

-- `-e`
abbrev pub code : Errno → ℤ
code e = negsuc (errno_value e - 1)

abbrev pub status_code : Status → ℤ
status_code (ok _) = pos 0
status_code (err e) = code e

-- `(int)x` of a value below 2 ^ 64
abbrev pub to_int : ℕ → ℤ
to_int x = let low = x % 2 ^ 32 in if ltb low (2 ^ 31) then pos low else negsuc (2 ^ 32 - low - 1)

-- A `long` argument is the register's value; it is negative from 2 ^ 63 on.
abbrev pub not_positive : ℕ → Bool
not_positive x = x == 0 || leb (2 ^ 63) x

-- `handler` is whether the argument is syscall_handler or NULL.
unfoldable pub svc_init : Bool → Calls → Status × Calls
svc_init handler s =
    if not handler then (err einvarg, s) else (eok, record s { svc_handler_set = handler })

unfoldable pub syscall_init : Calls → Status × Calls
unfolding svc_init
syscall_init s = svc_init true (record s {
  syscall_table =
      update
        (update
          (update
            (update
              (update (update s.syscall_table 0 (some syscall_process_exit)) 1
                (some syscall_process_malloc))
              2 (some syscall_process_free))
            3 (some syscall_process_get_args))
          4 (some syscall_internal_print_char))
        5 (some syscall_internal_print_string);
})

-- `fuel` bounds the search of task_schedule.
unfoldable pub process_exit : ℕ → Calls → Option (Answer × Calls)
process_exit fuel s =
    let current = process_current s.kernel in
    let k =
      if current == null
      then s.kernel
      else (process_terminate (s.kernel.process current).id s.kernel).1 in
    elim (task_schedule fuel k.tasks) [
      | none ↦ none
      | some (returns _, tasks) ↦
          some (gives (code esyscall), record s { kernel = record k { tasks = tasks } })
      | some (runs task, tasks) ↦
          some (switches task, record s { kernel = record k { tasks = tasks } })
    ]

unfoldable pub malloc_call : ℕ → Calls → ℤ × Calls
malloc_call size s =
    let current = process_current s.kernel in
    if current == null || not_positive size
    then (pos 0, s)
    else let (ptr, k) = process_malloc current size s.kernel in
      (to_int ptr, record s { kernel = k })

unfoldable pub free_call : ℕ → Calls → ℤ × Calls
free_call ptr s =
    let current = process_current s.kernel in
    if current == null || ptr == 0
    then (code einvarg, s)
    else let (res, k) = process_free current ptr s.kernel in
      (status_code res, record s { kernel = k })

unfoldable pub get_args_call : ℕ → ℕ → Calls → ℤ × Calls
get_args_call argc_ptr argv_ptr s =
    let current = process_current s.kernel in
    if current == null
    then (code einvarg, s)
    else let p = s.kernel.process current in
      (
        pos 0,
        record s {
          stored =
              s.stored
              ++ (if argc_ptr == 0 then [] else (argc_ptr, p.argc) ∷ [])
              ++ (if argv_ptr == 0 then [] else (argv_ptr, p.argv) ∷ []);
        },
      )

-- The call of a handler; a character is the low byte of the register.
unfoldable pub handle : ℕ → Handler → ℕ → ℕ → Calls → Option (Answer × Calls)
unfolding process_exit malloc_call free_call get_args_call
handle fuel syscall_process_exit arg1 arg2 s = process_exit fuel s
handle fuel syscall_process_malloc arg1 arg2 s =
    let (r, s') = malloc_call arg1 s in some (gives r, s')
handle fuel syscall_process_free arg1 arg2 s = let (r, s') = free_call arg1 s in some (gives r, s')
handle fuel syscall_process_get_args arg1 arg2 s =
    let (r, s') = get_args_call arg1 arg2 s in some (gives r, s')
handle fuel syscall_internal_print_char arg1 arg2 s =
    some (gives (pos 0), record s { output = s.output ++ char (arg1 % 256) ∷ [] })
handle fuel syscall_internal_print_string arg1 arg2 s =
    if arg1 == 0
    then some (gives (code einvarg), s)
    else some (gives (pos 0), record s { output = s.output ++ string arg1 ∷ [] })

-- No handler reads its third and fourth argument.
unfoldable pub syscall_handler : ℕ → ℤ → ℕ → ℕ → Calls → Option (Answer × Calls)
syscall_handler fuel (negsuc n) arg1 arg2 s = some (gives (code einvsyscall), s)
syscall_handler fuel (pos syscall_num) arg1 arg2 s =
    if leb syscall_max syscall_num
    then some (gives (code einvsyscall), s)
    else elim (s.syscall_table syscall_num) [
      | none ↦ some (gives (code einvsyscall), s)
      | some handler ↦ handle fuel handler arg1 arg2 s
    ]

-- `int_frame->x0 = result`, with the sign extended
abbrev pub to_register : ℤ → ℕ
to_register (pos n) = n
to_register (negsuc n) = 2 ^ 64 - n - 1

-- The end of svc_c_handler: the frame that the assembly restores.
unfoldable pub answered : InterruptFrame → Answer × Calls → Answer × InterruptFrame × Calls
answered int_frame (gives r, s) =
    (gives r, record int_frame { x = update int_frame.x 0 (to_register r) }, s)
answered int_frame (switches task, s) = (switches task, int_frame, s)

unfoldable pub svc_c_handler :
    ℕ → ℤ → InterruptFrame → Calls → Option (Answer × InterruptFrame × Calls)
unfolding answered
svc_c_handler fuel svc_num int_frame s =
    if s.svc_handler_set
    then elim (syscall_handler fuel svc_num (int_frame.x 1) (int_frame.x 2) s) [
      | none ↦ none
      | some a ↦ some (answered int_frame a)
    ]
    else some (answered int_frame (gives (code einvsyscall), s))
