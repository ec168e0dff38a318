-- ===== src/Syscall/Callers.antt =====
-- What a caller of a system call gets: its number is not read, and the stack pointer decides.
use synapse_kernel.Prelude.{
  ==_self, List, ℕ, ◌+◌, ◌*◌, ◌≤◌, ◌%◌, ◌^◌, ◌≡◌, refl, ap, fun_ext, arith, Option, none, some,
  update, ℤ, negsuc, ok, ltb, Bool-cases, inl, inr, zero, suc, ◌-◌,
}
use synapse_kernel.Task.{Ptr}
use synapse_kernel.Task.Context.{Cpu}
use synapse_kernel.Syscall.{Calls, to_int, to_register, syscall_init, svc_c_handler}
use synapse_kernel.Process.{Kernel}
use synapse_kernel.Process.Create.{process_create, create_user_process, create_kernel_process}
use synapse_kernel.Syscall.Dispatch.{handler_of, numbered, nth, svc_c_handler-dispatched}
use synapse_kernel.Syscall.Trap.{
  Build, Called, returned, stuck, el0, el1, level_of, vectored, saved_frame, loaded, restored,
  svc_handler, sync_vector, result_of, syscall, syscall_exit, syscall_malloc, syscall_free,
  syscall_get_args, syscall_print_char, syscall_print_string, pointer_of, not_returned,
}

module _ (fuel : ℕ) (b : Build) (cpu : Cpu) (s : Calls) where
  same_frame :
      (num num' arg1 arg2 arg2' arg3 arg4 i : ℕ)
      → vectored b (loaded cpu num arg1 arg2 arg3 arg4) i
        ≡ vectored b (loaded cpu num' arg1 arg2' arg3 arg4) i
  same_frame num num' arg1 arg2 arg2' arg3 arg4 i = ground arith

  -- What syscall returns, by the registers that svc_handler saves.
  by_frame : (ℕ → ℕ) → Option (Called ℤ)
  by_frame x =
      let reached : Option (Called Unit) = elim (level_of cpu.pstate) [
        | el0 ↦
            elim (svc_c_handler fuel (to_int cpu.sp_el0)
              (record { x = x; sp = cpu.sp_el0; elr_el1 = cpu.pc; spsr_el1 = cpu.pstate }) s) [
                | none ↦ none
                | some a ↦ some (restored b cpu.sp_el0 cpu.sp_el1 cpu.pc cpu.pstate a)
              ]
        | el1 ↦ some stuck
      ] in
      elim reached [ none ↦ none | some c ↦ some (result_of c) ]

  -- A system call comes to the same whatever its number and its second argument are.
  pub syscall_same :
      (num num' arg1 arg2 arg2' arg3 arg4 : ℕ)
      → syscall fuel b num arg1 arg2 arg3 arg4 cpu s
        ≡ syscall fuel b num' arg1 arg2' arg3 arg4 cpu s
  unfolding syscall sync_vector svc_handler by_frame
  syscall_same num num' arg1 arg2 arg2' arg3 arg4 =
      ap by_frame (fun_ext (same_frame num num' arg1 arg2 arg2' arg3 arg4))

unnumbered : (n : ℕ) → 6 ≤ n → nth numbered n ≡ none
unnumbered zero h = absurd (omega arith)
unnumbered (suc zero) h = absurd (omega arith)
unnumbered (suc (suc zero)) h = absurd (omega arith)
unnumbered (suc (suc (suc zero))) h = absurd (omega arith)
unnumbered (suc (suc (suc (suc zero)))) h = absurd (omega arith)
unnumbered (suc (suc (suc (suc (suc zero))))) h = absurd (omega arith)
unnumbered (suc (suc (suc (suc (suc (suc n)))))) h = refl

-- The number that svc_c_handler is given when the caller's stack pointer is `sp`.
no_handler : (sp : ℕ) → 6 ≤ sp % 2 ^ 32 → handler_of (to_int sp) ≡ none
no_handler sp h = elim (Bool-cases (ltb (sp % 2 ^ 32) (2 ^ 31))) [
  | inl e ↦ rw e (unnumbered (sp % 2 ^ 32) h)
  | inr e ↦ rw e refl
]

-- `-EINVSYSCALL` comes through the register.
einvsyscall_register :
    (upper : ℕ) → to_int (upper * 2 ^ 32 + to_register (negsuc 12) % 2 ^ 32) ≡ negsuc 12
einvsyscall_register upper =
    let low : (upper * 2 ^ 32 + to_register (negsuc 12) % 2 ^ 32) % 2 ^ 32 ≡ 2 ^ 32 - 13 =
      omega arith in
    rw low refl

module _ (fuel : ℕ) (b : Build) (cpu : Cpu) (s : Calls) where
  refused_cpu : ℕ → ℕ → ℕ → ℕ → ℕ → Cpu
  refused_cpu num arg1 arg2 arg3 arg4 = record {
    x =
        update (update (vectored b (loaded cpu num arg1 arg2 arg3 arg4)) 0 (2 ^ 64 - 13)) 0
          (b.upper * 2 ^ 32 + to_register (negsuc 12) % 2 ^ 32);
    sp_el0 = cpu.sp_el0;
    sp_el1 = cpu.sp_el1;
    pc = cpu.pc;
    pstate = cpu.pstate;
  }

  syscall-refused :
      (num arg1 arg2 arg3 arg4 : ℕ)
      → level_of cpu.pstate ≡ el0
      → 6 ≤ cpu.sp_el0 % 2 ^ 32
      → syscall fuel b num arg1 arg2 arg3 arg4 cpu (syscall_init s).1
        ≡ some (returned (negsuc 12) (refused_cpu num arg1 arg2 arg3 arg4) (syscall_init s).1)
  unfolding syscall sync_vector svc_handler refused_cpu restored result_of
  syscall-refused num arg1 arg2 arg3 arg4 user big =
      rw
        (
          user,
          svc_c_handler-dispatched fuel (to_int cpu.sp_el0)
              (saved_frame b (loaded cpu num arg1 arg2 arg3 arg4)) s,
          no_handler cpu.sp_el0 big,
          einvsyscall_register b.upper,
          syscall,
          sync_vector,
          svc_handler,
          result_of,
        )
        refl

  -- A call that goes on with `r`, nothing of the kernel changed, and x30 not the caller's.
  abbrev pub GoesOn : (A : Type 0) → A → Option (Called A) → Type 0
  GoesOn A r c =
      (after : Cpu) × (c ≡ some (returned r after (syscall_init s).1))
      × (after.x 30 ≡ b.link)
      × (after.pc ≡ cpu.pc)

  -- After syscall_init every system call of a process at EL0 is refused whose stack pointer has a
  -- low half of 6 or more: syscall_exit stays in its loop, syscall_malloc gives a pointer that is
  -- not NULL, 2 ^ 64 - 13, the four others give -EINVSYSCALL, and the register x30 holds an
  -- address of the vectors.
  pub wrappers-refused :
      (a c : ℕ)
      → level_of cpu.pstate ≡ el0
      → 6 ≤ cpu.sp_el0 % 2 ^ 32
      → let s' = (syscall_init s).1 in
        (syscall_exit fuel b a cpu s' ≡ some stuck)
        × GoesOn Ptr (2 ^ 64 - 13) (syscall_malloc fuel b a cpu s')
        × GoesOn ℤ (negsuc 12) (syscall_free fuel b a cpu s')
        × GoesOn ℤ (negsuc 12) (syscall_get_args fuel b a c cpu s')
        × GoesOn ℤ (negsuc 12) (syscall_print_char fuel b a cpu s')
        × GoesOn ℤ (negsuc 12) (syscall_print_string fuel b a cpu s')
  unfolding syscall_exit syscall_malloc syscall_free syscall_get_args syscall_print_char
      syscall_print_string pointer_of not_returned refused_cpu
  wrappers-refused a c user big =
      let after = refused_cpu in
      (
        rw (syscall-refused 0 a 0 0 0 user big, syscall_exit) refl,
        (after 1 a 0 0 0, rw (syscall-refused 1 a 0 0 0 user big, syscall_malloc) refl, refl, refl),
        (after 2 a 0 0 0, syscall-refused 2 a 0 0 0 user big, refl, refl),
        (after 3 a c 0 0, syscall-refused 3 a c 0 0 user big, refl, refl),
        (after 4 (a % 256) 0 0 0, syscall-refused 4 (a % 256) 0 0 0 user big, refl, refl),
        (after 5 a 0 0 0, syscall-refused 5 a 0 0 0 user big, refl, refl),
      )

  syscall_stuck :
      (num arg1 arg2 arg3 arg4 : ℕ)
      → level_of cpu.pstate ≡ el1
      → syscall fuel b num arg1 arg2 arg3 arg4 cpu s ≡ some stuck
  unfolding syscall sync_vector result_of
  syscall_stuck num arg1 arg2 arg3 arg4 kernel = rw (kernel, syscall, sync_vector) refl

module _ (return_handler dummy_buffer entry_point : Ptr) (name : Option (List ℕ)) (k : Kernel) where
  -- When process_create succeeds for create_user_process, this gives the identifier of the
  -- process, whose task is to start at the entry point, and at EL1, where the vector of a
  -- supervisor call hangs: while the processor's state is the one the process starts with, whatever
  -- the registers and the state of the system calls are, no system
  -- call of the process returns.
  pub create_user_process-stuck :
      (n : ℕ) (process : Ptr) (fuel : ℕ) (b : Build) (cpu : Cpu) (s : Calls)
      (num arg1 arg2 arg3 arg4 : ℕ)
      → let (created, k') = process_create return_handler name dummy_buffer 8 k in
        let made = create_user_process return_handler dummy_buffer entry_point name k in
        let task = made.1.tasks.task (k'.process process).task in
        created ≡ ok (n, process)
        → cpu.pstate ≡ task.registers.spsr_el1
        → (made.0 ≡ ok (k'.process process).id)
          × (task.registers.elr_el1 ≡ entry_point)
          × (syscall fuel b num arg1 arg2 arg3 arg4 cpu s ≡ some stuck)
  unfolding create_user_process create_kernel_process
  create_user_process-stuck n process fuel b cpu s num arg1 arg2 arg3 arg4 made state =
      let k' = (process_create return_handler name dummy_buffer 8 k).1 in
      let p = create_user_process return_handler dummy_buffer entry_point name k in
      let spsr : (p.1.tasks.task (k'.process process).task).registers.spsr_el1 ≡ 0x305 =
        rw (made, create_user_process, create_kernel_process, ==_self (k'.process process).task)
          refl in
      (
        rw (made, create_user_process, create_kernel_process) refl,
        rw (made, create_user_process, create_kernel_process, ==_self (k'.process process).task)
            refl,
        syscall_stuck fuel b cpu s num arg1 arg2 arg3 arg4 (rw (state, spsr) refl),
      )
