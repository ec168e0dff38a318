-- ===== src/Process/Create.antt =====
-- core/process/process.c: creating processes; and the two creators of process_management_init.c.
use synapse_kernel.Prelude.{
  ℕ, ◌+◌, ◌-◌, ◌*◌, ◌/◌, ◌%◌, ◌^◌, Option, none, some, Bool, ◌&&◌, ◌||◌, not, Status, eok, ok, err,
  Result, einvarg, enomem, epmax, einuse, List, [], ◌∷◌, ◌++◌, leb, ltb, ◌==◌, if◌then◌else◌,
  update, replicate, first_from, ℤ, pos, negsuc,
}
use synapse_kernel.Heap.Kheap.{kmalloc, kfree}
use synapse_kernel.CString.{strncpy}
use synapse_kernel.Task.{Ptr, null, Task, task_new, priority_normal, ready}
use synapse_kernel.Process.{
  Process, Kernel, set_heap, set_process, max_processes, max_process_name, process_stack_size,
  process_malloc, process_free,
}

-- `sizeof(struct process)`
abbrev pub process_struct_size : ℕ
process_struct_size = 2168

-- A process whose bytes are all 0.
abbrev pub zero_process : Process
zero_process = record {
  id = 0;
  name = replicate max_process_name 0;
  task = null;
  allocations = λ i. record { ptr = null; size = 0 };
  ptr = null;
  size = 0;
  stack = null;
  argc = 0;
  argv = null;
}

-- `process_table[i] == NULL`
abbrev pub is_empty : (ℕ → Ptr) → ℕ → Bool
is_empty process_table i = process_table i == null

unfoldable pub process_allocate_slot : Kernel → Result ℕ
process_allocate_slot k = elim (first_from max_processes 0 (is_empty k.process_table)) [
  | none ↦ err epmax
  | some i ↦ ok i
]

-- The name's array after strncpy into zeros; the copy stays in bounds, so it is never `none`.
unfoldable pub copied_name : List ℕ → List ℕ
unfolding strncpy
copied_name name = elim (strncpy (replicate max_process_name 0) (name ++ 0 ∷ []) max_process_name) [
  | none ↦ []
  | some buffer ↦ buffer
]

-- A name is `none` for NULL, or its characters without the terminator.
unfoldable pub process_init : Ptr → ℕ → Option (List ℕ) → Kernel → Status × Kernel
unfolding copied_name
process_init process id none k = (err einvarg, k)
process_init process id (some name) k =
    if process == null
    then (err einvarg, k)
    else (eok, set_process k process (record zero_process { id = id; name = copied_name name }))

-- memcpy on the memory, for ranges that do not overlap; its `int len` takes the size modulo 2 ^ 32.
abbrev pub copy_bytes : ℕ → ℕ → ℕ → (ℕ → ℕ) → ℕ → ℕ
copy_bytes dest src size byte a =
    if leb dest a && ltb a (dest + size % 2 ^ 32) then byte (src + (a - dest)) else byte a

-- memset on the memory.
abbrev pub fill_bytes : ℕ → ℕ → ℕ → (ℕ → ℕ) → ℕ → ℕ
fill_bytes ptr c n byte a = if leb ptr a && ltb a (ptr + n) then c else byte a

unfoldable pub process_load_binary : Ptr → Ptr → ℕ → Kernel → Status × Kernel
unfolding process_malloc
process_load_binary process program_data size k =
    if process == null || (program_data == null || size == 0)
    then (err einvarg, k)
    else let (code, k') = process_malloc process size k in
      if code == null then (err enomem, k') else (
        eok,
        set_process (record k' { byte = copy_bytes code program_data size k'.byte }) process
            (record (k'.process process) { ptr = code; size = size }),
      )

unfoldable pub process_allocate_stack : Ptr → Kernel → Status × Kernel
unfolding process_malloc
process_allocate_stack process k =
    let (stack, k') = process_malloc process process_stack_size k in
    if stack == null then (err enomem, k') else (
      eok,
      set_process (record k' { byte = fill_bytes stack 0 process_stack_size k'.byte }) process
          (record (k'.process process) { stack = stack }),
    )

-- `return_handler` is the address of process_return_handler.
module _ (return_handler : Ptr) where
  -- The task that process_create_task has set up.
  abbrev pub process_task : Ptr → Process → Task → Task
  process_task process p t = record t {
    process = process;
    state = ready;
    registers = record t.registers {
      pc = p.ptr;
      elr_el1 = p.ptr;
      sp = (p.stack + process_stack_size) % 2 ^ 64 / 16 * 16;
      x = update t.registers.x 30 return_handler;
      spsr_el1 = if p.id == 0 then 0x305 else 0x305;
    };
  }

  unfoldable pub process_create_task : Ptr → Kernel → Status × Kernel
  process_create_task process k =
      let (task, tasks) = task_new priority_normal k.tasks in
      if task == null
      then (err enomem, record k { tasks = tasks })
      else let p : Process = record (k.process process) { task = task } in
        (
          eok,
          record k {
            process = update k.process process p;
            tasks = record tasks {
              task = update tasks.task task (process_task process p (tasks.task task));
            };
          },
        )

  -- The end of process_create, with the stack and the binary in place.
  unfoldable pub process_create_finish : ℕ → Ptr → Kernel → Result (ℕ × Ptr) × Kernel
  process_create_finish slot process k =
      let (res, k₁) = process_create_task process k in
      elim res [
        | err e ↦
            let k₂ = (process_free process (k₁.process process).stack k₁).1 in
            let k₃ = (process_free process (k₂.process process).ptr k₂).1 in
            (err e, set_heap k₃ (kfree process k₃.tasks.heap))
        | ok _ ↦
            (ok (slot, process), record k₁ { process_table = update k₁.process_table slot process })
      ]

  -- process_create from the call of process_init on.
  unfoldable pub process_create_steps :
      List ℕ → Ptr → ℕ → ℕ → Ptr → Kernel → Result (ℕ × Ptr) × Kernel
  process_create_steps name program_data size slot process k =
      let (res₁, k₁) = process_init process slot (some name) k in
      elim res₁ [
        | err e ↦ (err e, set_heap k₁ (kfree process k₁.tasks.heap))
        | ok _ ↦
            let (res₂, k₂) = process_allocate_stack process k₁ in
            elim res₂ [
              | err e ↦ (err e, set_heap k₂ (kfree process k₂.tasks.heap))
              | ok _ ↦
                  let (res₃, k₃) = process_load_binary process program_data size k₂ in
                  elim res₃ [
                    | err e ↦
                        let k₄ = (process_free process (k₃.process process).stack k₃).1 in
                        (err e, set_heap k₄ (kfree process k₄.tasks.heap))
                    | ok _ ↦ process_create_finish slot process k₃
                  ]
            ]
      ]

  -- The slot and the process, which is what is stored in `*process_out`, or an error.
  unfoldable pub process_create : Option (List ℕ) → Ptr → ℕ → Kernel → Result (ℕ × Ptr) × Kernel
  process_create none program_data size k = (err einvarg, k)
  process_create (some name) program_data size k =
      if program_data == null || size == 0
      then (err einvarg, k)
      else elim (process_allocate_slot k) [
        | err e ↦ (err e, k)
        | ok slot ↦
            let (process, heap) = kmalloc process_struct_size k.tasks.heap in
            if process == null
            then (err enomem, set_heap k heap)
            else process_create_steps name program_data size slot process (set_heap k heap)
      ]

  -- `slot` is an `int`; the result is that of process_create where the slots agree.
  unfoldable pub process_create_for_slot :
      Option (List ℕ) → Ptr → ℕ → ℤ → Kernel → Result ℕ × Kernel
  unfolding process_create
  process_create_for_slot name program_data size (negsuc n) k = (err einvarg, k)
  process_create_for_slot name program_data size (pos slot) k =
      if leb max_processes slot
      then (err einvarg, k)
      else if not (k.process_table slot == null)
      then (err einuse, k)
      else let (res, k') = process_create name program_data size k in
        elim res [
          | err e ↦ (err e, k')
          | ok (n, process) ↦ if n == slot then (ok n, k') else (
            ok 0,
            record k' {
              process =
                  update k'.process process (record (k'.process process) { id = slot % 2 ^ 16 });
              process_table = update (update k'.process_table n null) slot process;
            },
          )
        ]

  -- `dummy_buffer` is the address of the creator's buffer of 8 bytes.
  unfoldable pub create_kernel_process : Ptr → Ptr → Option (List ℕ) → Kernel → Result ℕ × Kernel
  unfolding process_create
  create_kernel_process dummy_buffer entry_point name k =
      let (res, k') = process_create name dummy_buffer 8 k in
      elim res [
        | err e ↦ (err e, k')
        | ok (n, process) ↦
            let task = (k'.process process).task in
            let t = k'.tasks.task task in
            (
              ok (k'.process process).id,
              record k' {
                tasks = record k'.tasks {
                  task = update k'.tasks.task task (record t {
                    registers = record t.registers {
                      pc = entry_point;
                      elr_el1 = entry_point;
                      spsr_el1 = 0x305;
                    };
                    state = ready;
                  });
                };
              },
            )
      ]

  -- The code of create_user_process is that of create_kernel_process, but for its messages.
  unfoldable pub create_user_process : Ptr → Ptr → Option (List ℕ) → Kernel → Result ℕ × Kernel
  unfolding create_kernel_process
  create_user_process dummy_buffer entry_point name k =
      create_kernel_process dummy_buffer entry_point name k
