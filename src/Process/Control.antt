-- ===== src/Process/Control.antt =====
-- core/process/process.c: looking processes up, switching, terminating, and their arguments.
use synapse_kernel.Prelude.{
  ℕ, zero, suc, ◌+◌, ◌*◌, Option, none, some, true, false, ◌||◌, Status, eok, ok, err, Result,
  einvarg, enomem, List, [], ◌∷◌, leb, ◌==◌, if◌then◌else◌, update, ℤ, pos, negsuc, ◌^◌, ◌<◌, ◌≤◌,
  ltb,
}
use synapse_kernel.Hex.{hex_from, uint64_to_hex}
use synapse_kernel.Hex.Reading.{HexPrints, uint64_to_hex-HexPrints}
use synapse_kernel.Heap.{Heap}
use synapse_kernel.Heap.Kheap.{kmalloc, kfree}
use synapse_kernel.CString.{strlen}
use synapse_kernel.Task.{
  Ptr, null, Registers, Outcome, returns, runs, task_free, task_switch, task_current_save_state,
}
use synapse_kernel.Process.{
  Allocation, Process, Kernel, set_heap, set_process, max_processes, max_processes_allocations,
}
use synapse_kernel.Process.Create.{process_create, copy_bytes}

unfoldable pub process_get : ℕ → Kernel → Ptr
process_get id k = if leb max_processes id then null else k.process_table id

unfoldable pub process_current : Kernel → Ptr
process_current k =
    if leb max_processes k.current_process then null else k.process_table k.current_process

-- What process_switch returns where task_switch does.
unfoldable pub switched : Outcome → Outcome
switched (returns res) = returns eok
switched (runs task) = runs task

-- `id` is a `pid_t`; `cpu` is the registers of the processor.
unfoldable pub process_switch : Registers → ℕ → Kernel → Outcome × Kernel
unfolding switched
process_switch cpu id k =
    if leb max_processes id || k.process_table id == null
    then (returns (err einvarg), k)
    else let saved =
        if k.process_table k.current_process == null
        then k.tasks
        else (task_current_save_state cpu k.tasks).1 in
      let (outcome, tasks) = task_switch (k.process (k.process_table id)).task saved in
      (switched outcome, record k { tasks = tasks; current_process = id })

unfoldable pub process_create_switch :
    Ptr → Registers → Option (List ℕ) → Ptr → ℕ → Kernel → Outcome × Kernel
unfolding process_switch
process_create_switch return_handler cpu name program_data size k =
    let (res, k') = process_create return_handler name program_data size k in
    elim res [
      | err e ↦ (returns (err e), k')
      | ok (id, process) ↦ let (outcome, k'') = process_switch cpu id k' in (switched outcome, k'')
    ]

-- The loop of process_terminate over the allocations, with the rounds left.
unfoldable pub free_allocations : ℕ → ℕ → (ℕ → Allocation) → Heap → (ℕ → Allocation) × Heap
free_allocations zero i allocations heap = (allocations, heap)
free_allocations (suc rounds) i allocations heap =
    if (allocations i).ptr == null
    then free_allocations rounds (i + 1) allocations heap
    else free_allocations rounds (i + 1)
        (update allocations i (record { ptr = (allocations i).ptr; size = 0 }))
        (kfree (allocations i).ptr heap)

-- The loop over the `rounds` pointers of an argument vector from `i` on.
unfoldable pub free_words : ℕ → ℕ → Ptr → (ℕ → Ptr) → Heap → Heap
free_words zero i argv word heap = heap
free_words (suc rounds) i argv word heap =
    free_words rounds (i + 1) argv word
      (if word (argv + 8 * i) == null then heap else kfree (word (argv + 8 * i)) heap)

-- The release of the arguments that process_terminate and process_set_arguments share.
unfoldable pub free_arguments : Process → (ℕ → Ptr) → Heap → Heap
unfolding free_words
free_arguments p word heap =
    if p.argv == null then heap else kfree p.argv (free_words p.argc 0 p.argv word heap)

-- process_terminate of the process in a slot.
unfoldable pub terminate_in : ℕ → Ptr → Kernel → Kernel
terminate_in id process k =
    let p = k.process process in
    let (allocations, heap) =
      free_allocations max_processes_allocations 0 p.allocations k.tasks.heap in
    let freed = free_arguments p k.word heap in
    let tasks = (task_free p.task (record k.tasks { heap = freed })).1 in
    record k {
      process = update k.process process (record p { allocations = allocations });
      process_table = update k.process_table id null;
      tasks = record tasks { heap = kfree process tasks.heap };
      current_process = if id == k.current_process then max_processes else k.current_process;
    }

unfoldable pub process_terminate : ℕ → Kernel → Status × Kernel
process_terminate id k =
    if leb max_processes id || k.process_table id == null
    then (err einvarg, k)
    else (eok, terminate_in id (k.process_table id) k)

-- What is stored in `*argc` and `*argv`, or an error.
unfoldable pub process_get_arguments : ℕ → Kernel → Result (ℕ × Ptr)
process_get_arguments id k =
    if leb max_processes id || k.process_table id == null
    then err einvarg
    else let p = k.process (k.process_table id) in ok (p.argc, p.argv)

-- The `n` bytes of the memory from `ptr` on.
unfoldable pub buffer : ℕ → Ptr → (ℕ → ℕ) → List ℕ
buffer zero ptr byte = []
buffer (suc n) ptr byte = byte ptr ∷ buffer n (ptr + 1) byte

-- The failure branch: `kfree(argv[i])`, which is the pointer NULL, once for each earlier argument.
unfoldable pub free_same : ℕ → Ptr → Heap → Heap
free_same zero ptr heap = heap
free_same (suc rounds) ptr heap = free_same rounds ptr (kfree ptr heap)

-- The copying loop of process_set_arguments into the vector at `dest`, with the rounds left. A
-- string is read up to `fuel` bytes; `none` is a longer one.
unfoldable pub copy_arguments : ℕ → ℕ → ℕ → Ptr → Ptr → Ptr → Kernel → Option (Status × Kernel)
unfolding buffer free_same
copy_arguments fuel zero i process dest argv k = some (eok, k)
copy_arguments fuel (suc rounds) i process dest argv k =
    let src = k.word (argv + 8 * i) in
    elim (src == null) [
      | true ↦
          copy_arguments fuel rounds (i + 1) process dest argv
            (record k { word = update k.word (dest + 8 * i) null })
      | false ↦ elim (strlen (buffer fuel src k.byte)) [
        | none ↦ none
        | some n ↦
            let (ptr, heap) = kmalloc (n + 1) k.tasks.heap in
            let k' = record (set_heap k heap) { word = update k.word (dest + 8 * i) ptr } in
            elim (ptr == null) [
              | true ↦ some (
                err enomem,
                set_process (set_heap k' (kfree dest (free_same i ptr k'.tasks.heap))) process
                    (record (k'.process process) { argv = null }),
              )
              | false ↦
                  copy_arguments fuel rounds (i + 1) process dest argv
                    (record k' { byte = copy_bytes ptr src (n + 1) k'.byte })
            ]
      ]
    ]

-- `argc` is an `int`.
unfoldable pub process_set_arguments : ℕ → Ptr → ℤ → Ptr → Kernel → Option (Status × Kernel)
unfolding copy_arguments free_arguments
process_set_arguments fuel process (negsuc n) argv k = some (err einvarg, k)
process_set_arguments fuel process (pos argc) argv k =
    if process == null
    then some (err einvarg, k)
    else let p = k.process process in
      let k₁ = set_heap k (free_arguments p k.word k.tasks.heap) in
      if argc == 0 || argv == null
      then some (eok, set_process k₁ process (record p { argc = 0; argv = null }))
      else let (dest, heap) = kmalloc (8 * argc) k₁.tasks.heap in
        let k₂ = set_process (set_heap k₁ heap) process (record p { argv = dest }) in
        if dest == null
        then some (err enomem, k₂)
        else elim (copy_arguments fuel argc 0 process dest argv k₂) [
          | none ↦ none
          | some (res, k₃) ↦ elim res [
            | err e ↦ some (err e, k₃)
            | ok _ ↦
                some (eok, set_process k₃ process (record (k₃.process process) { argc = argc }))
          ]
        ]

-- uint64_to_str, with the loop of the uint64_to_hex of task.c. What it is used for is printed only.
unfoldable uint64_to_str : ℕ → (ℕ → ℕ) → ℕ → ℕ → ℕ
uint64_to_str value buf buffer_size =
    if ltb buffer_size 3
    then buf
    else let (end, written) =
        hex_from 16 value buffer_size 2 false (update (update buf 0 48) 1 120) in
      update written end 0

-- The string reads as the value.
uint64_to_str-HexPrints :
    (value buffer_size : ℕ) (buf : ℕ → ℕ)
    → value < 2 ^ 64
    → 19 ≤ buffer_size
    → HexPrints value (uint64_to_str value buf buffer_size)
unfolding uint64_to_str uint64_to_hex
uint64_to_str-HexPrints value buffer_size buf h room =
    uint64_to_hex-HexPrints value buffer_size buf h room
