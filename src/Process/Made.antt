-- ===== src/Process/Made.antt =====
-- What process_create promises of a new process: its memory, its task and its fields.
use synapse_kernel.Prelude.{
  ℕ, ◌+◌, ◌-◌, ◌%◌, ◌^◌, ◌≤◌, ◌<◌, take, replicate, length, ◌++◌, [], ◌≡◌, ◌≢◌, refl, arith, List,
  update, ◌⊎◌,
}
use mathlib.Core.List.{append-nil}
use synapse_kernel.Task.{Ptr, null, Task, ready}
use synapse_kernel.Process.{Process, Kernel, process_stack_size}
use synapse_kernel.CString.Copy.{NonZero, strncpy_lem}
use synapse_kernel.Process.Create.{copied_name, copy_bytes, fill_bytes, process_task}

abbrev pub IsInside : Ptr → ℕ → ℕ → Type 0
IsInside p n a = (p ≤ a) × (a < p + n)

abbrev pub IsOutside : Ptr → ℕ → ℕ → Type 0
IsOutside p n a = (a < p) ⊎ (p + n ≤ a)

-- The memory with the new stack of 128 KB and the program: the program is the one at
-- `program_data`, as far as the stack does not lie over it, the stack is zero, as far as the
-- program does not lie over it, and no other byte changes. memcpy takes the size as an `int`.
pub record IsLoaded (program_data : Ptr) (size : ℕ) (stack ptr : Ptr) (byte byte' : ℕ → ℕ)
    : Type 0 where
  pub program :
      (i : ℕ)
      → i < size % 2 ^ 32
      → IsOutside stack 0x20000 (program_data + i)
      → byte' (ptr + i) ≡ byte (program_data + i)
  pub zeros : (a : ℕ) → IsInside stack 0x20000 a → IsOutside ptr (size % 2 ^ 32) a → byte' a ≡ 0
  pub others :
      (a : ℕ) → IsOutside stack 0x20000 a → IsOutside ptr (size % 2 ^ 32) a → byte' a ≡ byte a

pub copy_bytes-fill_bytes :
    (program_data size stack ptr : ℕ) (byte : ℕ → ℕ)
    → IsLoaded program_data size stack ptr byte
        (copy_bytes ptr program_data size (fill_bytes stack 0 process_stack_size byte))
copy_bytes-fill_bytes program_data size stack ptr byte = record {
  program = λ i lt out. let back : ptr + i - ptr ≡ i = omega arith in rw back (ground arith);
  zeros = λ a hit out. ground arith;
  others = λ a out out'. ground arith;
}

pub copied_name-take :
    (name : List ℕ)
    → NonZero name
    → copied_name name ≡ take 64 name ++ replicate (64 - length name) 0
unfolding copied_name
copied_name-take name nz =
    let rest = append-nil (take 64 name ++ replicate (64 - length name) 0) in
    rw (strncpy_lem (replicate 64 0) name [] 64 nz (omega arith), copied_name) rest

module _ (return_handler : Ptr) where
  -- A task that is ready to run the process `p` at `process` from the start of its program, on the
  -- highest address of its stack that is a multiple of 16, with 0x305 as its status (EL1h), and
  -- whose program returns to `return_handler`.
  pub record IsTaskOf (process : Ptr) (p : Process) (t : Task) : Type 0 where
    pub owner : t.process ≡ process
    pub state : t.state ≡ ready
    pub pc : t.registers.pc ≡ p.ptr
    pub elr : t.registers.elr_el1 ≡ p.ptr
    pub sp_aligned : t.registers.sp % 16 ≡ 0
    pub sp_inside : t.registers.sp ≤ (p.stack + 0x20000) % 2 ^ 64
    pub sp_top : (p.stack + 0x20000) % 2 ^ 64 < t.registers.sp + 16
    pub link : t.registers.x 30 ≡ return_handler
    pub spsr : t.registers.spsr_el1 ≡ 0x305

  pub process_task-IsTaskOf :
      (process : Ptr) (p : Process) (t : Task)
      → IsTaskOf process p (process_task return_handler process p t)
  process_task-IsTaskOf process p t = record {
    owner = refl;
    state = refl;
    pc = refl;
    elr = refl;
    sp_aligned = omega arith;
    sp_inside = omega arith;
    sp_top = omega arith;
    link = refl;
    spsr = ground arith;
  }

  abbrev pub HasTask : Ptr → Kernel → Type 0
  HasTask process k =
      let p = k.process process in (p.task ≢ null) × IsTaskOf process p (k.tasks.task p.task)

  -- The process table after process_create, the process that it made, and its task.
  pub record Created (name : List ℕ) (program_data size slot : ℕ) (process : Ptr) (k k' : Kernel)
      : Type 0 where
    pub table : k'.process_table ≡ update k.process_table slot process
    pub current : k'.current_process ≡ k.current_process
    pub process_ne : process ≢ null
    pub id : (k'.process process).id ≡ slot
    pub name_kept : (k'.process process).name ≡ take 64 name ++ replicate (64 - length name) 0
    pub size_kept : (k'.process process).size ≡ size
    pub ptr_ne : (k'.process process).ptr ≢ null
    pub stack_ne : (k'.process process).stack ≢ null
    pub memory :
        IsLoaded program_data size
          (k'.process process).stack
          (k'.process process).ptr
          k.byte
          k'.byte
    pub has_task : HasTask process k'
