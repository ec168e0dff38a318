-- ===== src/Process.antt =====
-- core/process/process_memory.c: the memory that a process owns.
-- A `struct process*` is an address, 0 for NULL, and the processes are a store by address. The
-- UART messages and the cache maintenance are left out.
pub mod Create
pub mod Control
pub mod Allocations
pub mod Verify
pub mod Cache
pub mod Views
pub mod Made
pub mod Slots
pub mod Switch
pub mod Sample
mod Tests
use synapse_kernel.Prelude.{
  ℕ, zero, suc, ◌+◌, ◌-◌, ◌*◌, ◌%◌, ◌^◌, Option, none, some, Bool, true, false, ◌&&◌, ◌||◌, not,
  Status, eok, ok, err, Result, einvarg, epmax, List, leb, ltb, ◌==◌, if◌then◌else◌, update,
  first_from,
}
use synapse_kernel.Heap.{Heap}
use synapse_kernel.Heap.Kheap.{kmalloc, kfree}
use synapse_kernel.Task.{Ptr, null, Tasks}

-- SYNAPSE_MAX_PROCESSES
abbrev pub max_processes : ℕ
max_processes = 64

-- SYNAPSE_MAX_PROCESSES_ALLOCATIONS
abbrev pub max_processes_allocations : ℕ
max_processes_allocations = 128

-- SYNAPSE_PROCESS_STACK_SIZE
abbrev pub process_stack_size : ℕ
process_stack_size = 128 * 1024

-- SYNAPSE_MAX_PROCESS_NAME
abbrev pub max_process_name : ℕ
max_process_name = 64

pub record Allocation : Type 0 where
  pub ptr : Ptr
  pub size : ℕ

-- `name` is the bytes of the array; `argc` and `argv` are the fields of `arguments`.
pub record Process : Type 0 where
  pub id : ℕ
  pub name : List ℕ
  pub task : Ptr
  pub allocations : ℕ → Allocation
  pub ptr : Ptr
  pub size : ℕ
  pub stack : Ptr
  pub argc : ℕ
  pub argv : Ptr

-- The state of process.c, with the tasks and the kernel heap. The entries of `process_table` from
-- 64 on are what lies behind the table. `byte` is the bytes of the memory by address, and `word`
-- the pointers that stand in argument vectors.
pub record Kernel : Type 0 where
  pub tasks : Tasks
  pub process : Ptr → Process
  pub process_table : ℕ → Ptr
  pub current_process : ℕ
  pub byte : ℕ → ℕ
  pub word : ℕ → Ptr

abbrev pub set_heap : Kernel → Heap → Kernel
set_heap k heap = record k { tasks = record k.tasks { heap = heap } }

abbrev pub set_process : Kernel → Ptr → Process → Kernel
set_process k process p = record k { process = update k.process process p }

-- `process->allocations[i].ptr == NULL`
abbrev pub is_free : (ℕ → Allocation) → ℕ → Bool
is_free allocations i = (allocations i).ptr == null

unfoldable pub process_find_free_allocation_index : Ptr → Kernel → Result ℕ
process_find_free_allocation_index process k =
    if process == null
    then err einvarg
    else elim (first_from max_processes_allocations 0 (is_free (k.process process).allocations)) [
      | none ↦ err epmax
      | some i ↦ ok i
    ]

unfoldable pub process_malloc : Ptr → ℕ → Kernel → Ptr × Kernel
unfolding process_find_free_allocation_index
process_malloc process size k =
    if process == null || size == 0
    then (null, k)
    else elim (process_find_free_allocation_index process k) [
      | err e ↦ (null, k)
      | ok index ↦
          let (ptr, heap) = kmalloc size k.tasks.heap in
          let k' = set_heap k heap in
          if ptr == null
          then (null, k')
          else let p = k.process process in
            (
              ptr,
              set_process k' process (record p {
                allocations = update p.allocations index (record { ptr = ptr; size = size });
              }),
            )
    ]

-- `process->allocations[i].ptr == ptr`
abbrev pub is_allocation : (ℕ → Allocation) → Ptr → ℕ → Bool
is_allocation allocations ptr i = (allocations i).ptr == ptr

unfoldable pub process_free : Ptr → Ptr → Kernel → Status × Kernel
process_free process ptr k =
    if process == null || ptr == null
    then (err einvarg, k)
    else let p = k.process process in
      elim (first_from max_processes_allocations 0 (is_allocation p.allocations ptr)) [
        | none ↦ (err einvarg, k)
        | some i ↦ (
          eok,
          set_process (set_heap k (kfree ptr k.tasks.heap)) process
              (record p { allocations = update p.allocations i (record { ptr = null; size = 0 }) }),
        )
      ]

-- The sum of process_get_memory_usage on `size_t`.
unfoldable pub usage_from : ℕ → ℕ → ℕ → (ℕ → Allocation) → ℕ
usage_from zero i total allocations = total
usage_from (suc rounds) i total allocations =
    usage_from rounds (i + 1)
      (if (allocations i).ptr == null then total else (total + (allocations i).size) % 2 ^ 64)
      allocations

unfoldable pub process_get_memory_usage : Ptr → Kernel → ℕ
unfolding usage_from
process_get_memory_usage process k =
    if process == null
    then 0
    else let p = k.process process in
      (usage_from max_processes_allocations 0 0 p.allocations + p.size) % 2 ^ 64

-- `start + size - 1` on `uint64_t`
abbrev pub end_addr : ℕ → ℕ → ℕ
end_addr start size = (start + size + 2 ^ 64 - 1) % 2 ^ 64

-- One of the three tests of process_memory_verify, for a region that is not NULL.
abbrev pub inside : ℕ → ℕ → Ptr → ℕ → Bool
inside start_addr end region size =
    not (region == null) && (leb region start_addr && leb end (end_addr region size))

abbrev pub is_inside : ℕ → ℕ → (ℕ → Allocation) → ℕ → Bool
is_inside start_addr end allocations i =
    inside start_addr end (allocations i).ptr (allocations i).size

unfoldable pub process_memory_verify : Ptr → ℕ → ℕ → Kernel → Bool
process_memory_verify process addr size k =
    if process == null || (addr == null || size == 0)
    then false
    else let p = k.process process in
      let end = end_addr addr size in
      if inside addr end p.stack process_stack_size
      then true
      else if inside addr end p.ptr p.size
      then true
      else elim (first_from max_processes_allocations 0 (is_inside addr end p.allocations)) [
        | none ↦ false
        | some i ↦ true
      ]
