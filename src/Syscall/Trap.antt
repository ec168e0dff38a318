-- ===== src/Syscall/Trap.antt =====
-- core/interrupts/svc.c, syscall.c, arch/arm64/vector.S and core/task/context_switch.S: from the
-- instruction `svc #0` of a caller to the handler and back. The processor is in its 64-bit state.
-- What the vectors send to the UART is left out, but not what sending it does to the registers.
use synapse_kernel.Prelude.{
  ℕ, ◌+◌, ◌*◌, ◌/◌, ◌%◌, ◌^◌, Option, none, some, ℤ, if◌then◌else◌, ◌==◌, update,
}
use synapse_kernel.Task.{Ptr, InterruptFrame}
use synapse_kernel.Task.Context.{Cpu}
use synapse_kernel.Syscall.{Calls, Answer, gives, switches, to_int, to_register, svc_c_handler}

-- What the build and the compiler decide: the address of str_el0_svc, the address that the call of
-- uart_send_string in el0_svc_handler leaves in x30, and the upper half of x0 when svc_c_handler,
-- which returns an `int`, returns.
pub record Build : Type 0 where
  pub str_el0_svc : Ptr
  pub link : Ptr
  pub upper : ℕ

-- What becomes of a caller: it goes on with a result, another task runs, or the processor stays in
-- an endless loop.
pub data Called (A : Type 0) : Type 0 where
  returned : A → Cpu → Calls → Called A
  entered : Ptr → Calls → Called A
  stuck : Called A

pub data Level : Type 0 where
  el0 el1 : Level

-- The exception level, bits 3 and 2 of the state.
abbrev pub level_of : ℕ → Level
level_of pstate = if pstate / 4 % 4 == 0 then el0 else el1

-- The registers when svc_handler is reached: uart_send_string has left 0 in x2, and the branches
-- with link the address of el0_svc_handler in x30.
abbrev pub vectored : Build → Cpu → ℕ → ℕ
vectored b cpu = update (update (update cpu.x 2 0) 30 b.link) 0 b.str_el0_svc

-- The frame that svc_handler saves on the kernel's stack.
abbrev pub saved_frame : Build → Cpu → InterruptFrame
saved_frame b cpu = record {
  x = vectored b cpu;
  sp = cpu.sp_el0;
  elr_el1 = cpu.pc;
  spsr_el1 = cpu.pstate;
}

-- `str x0, [sp]` after the call, the registers of the frame, and `eret`: SP_EL0 is left as it is and
-- the frame is taken off the stack, and ELR_EL1 and SPSR_EL1 come from x20 and x21, which the call preserves.
unfoldable pub restored :
    Build → (sp_el0 sp_el1 elr spsr : ℕ) → Answer × InterruptFrame × Calls → Called Unit
restored b sp_el0 sp_el1 elr spsr (gives r, frame, s) =
    returned tt
      (record {
        x = update frame.x 0 (b.upper * 2 ^ 32 + to_register r % 2 ^ 32);
        sp_el0 = sp_el0;
        sp_el1 = sp_el1;
        pc = elr;
        pstate = spsr;
      })
      s
restored b sp_el0 sp_el1 elr spsr (switches task, frame, s) = entered task s

-- svc_handler: x0 holds SP_EL0 when svc_c_handler is called.
unfoldable pub svc_handler : ℕ → Build → Cpu → Calls → Option (Called Unit)
unfolding restored
svc_handler fuel b cpu s = elim (svc_c_handler fuel (to_int cpu.sp_el0) (saved_frame b cpu) s) [
  | none ↦ none
  | some a ↦ some (restored b cpu.sp_el0 cpu.sp_el1 cpu.pc cpu.pstate a)
]

-- The vector of a synchronous exception that is a supervisor call: el0_sync_a64 reaches
-- svc_handler, and the two of EL1 reach exception_hang.
unfoldable pub sync_vector : ℕ → Build → Cpu → Calls → Option (Called Unit)
unfolding svc_handler
sync_vector fuel b cpu s = elim (level_of cpu.pstate) [
  | el0 ↦ svc_handler fuel b cpu s
  | el1 ↦ some stuck
]

-- The operands of the inline assembly; `num` is the register that holds the number.
abbrev pub loaded : Cpu → ℕ → ℕ → ℕ → ℕ → ℕ → Cpu
loaded cpu num arg1 arg2 arg3 arg4 = record cpu {
  x = update (update (update (update (update cpu.x 0 num) 1 arg1) 2 arg2) 3 arg3) 4 arg4;
}

-- `mov %0, x0` into an `int`
unfoldable pub result_of : Called Unit → Called ℤ
result_of (returned _ cpu s) = returned (to_int (cpu.x 0)) cpu s
result_of (entered task s) = entered task s
result_of stuck = stuck

unfoldable pub syscall : ℕ → Build → ℕ → ℕ → ℕ → ℕ → ℕ → Cpu → Calls → Option (Called ℤ)
unfolding sync_vector result_of
syscall fuel b num arg1 arg2 arg3 arg4 cpu s =
    elim (sync_vector fuel b (loaded cpu num arg1 arg2 arg3 arg4) s) [
      | none ↦ none
      | some c ↦ some (result_of c)
    ]

-- svc_call has the body of syscall.
unfoldable pub svc_call : ℕ → Build → ℕ → ℕ → ℕ → ℕ → ℕ → Cpu → Calls → Option (Called ℤ)
unfolding sync_vector result_of
svc_call fuel b num arg1 arg2 arg3 arg4 cpu s =
    elim (sync_vector fuel b (loaded cpu num arg1 arg2 arg3 arg4) s) [
      | none ↦ none
      | some c ↦ some (result_of c)
    ]

-- `while (1) {}` after the call
unfoldable pub not_returned : Called ℤ → Called ℤ
not_returned (returned _ _ _) = stuck
not_returned (entered task s) = entered task s
not_returned stuck = stuck

unfoldable pub syscall_exit : ℕ → Build → ℕ → Cpu → Calls → Option (Called ℤ)
unfolding syscall not_returned
syscall_exit fuel b exit_code cpu s = elim (syscall fuel b 0 exit_code 0 0 0 cpu s) [
  | none ↦ none
  | some c ↦ some (not_returned c)
]

-- `(void*)(uint64_t)` of an `int`
unfoldable pub pointer_of : Called ℤ → Called Ptr
pointer_of (returned r cpu s) = returned (to_register r) cpu s
pointer_of (entered task s) = entered task s
pointer_of stuck = stuck

unfoldable pub syscall_malloc : ℕ → Build → ℕ → Cpu → Calls → Option (Called Ptr)
unfolding syscall pointer_of
syscall_malloc fuel b size cpu s = elim (syscall fuel b 1 size 0 0 0 cpu s) [
  | none ↦ none
  | some c ↦ some (pointer_of c)
]

unfoldable pub syscall_free : ℕ → Build → Ptr → Cpu → Calls → Option (Called ℤ)
unfolding syscall
syscall_free fuel b ptr cpu s = syscall fuel b 2 ptr 0 0 0 cpu s

unfoldable pub syscall_get_args : ℕ → Build → Ptr → Ptr → Cpu → Calls → Option (Called ℤ)
unfolding syscall
syscall_get_args fuel b argc argv cpu s = syscall fuel b 3 argc argv 0 0 cpu s

-- `char` is unsigned.
unfoldable pub syscall_print_char : ℕ → Build → ℕ → Cpu → Calls → Option (Called ℤ)
unfolding syscall
syscall_print_char fuel b c cpu s = syscall fuel b 4 (c % 256) 0 0 0 cpu s

unfoldable pub syscall_print_string : ℕ → Build → Ptr → Cpu → Calls → Option (Called ℤ)
unfolding syscall
syscall_print_string fuel b str cpu s = syscall fuel b 5 str 0 0 0 cpu s
