-- ===== src/Syscall/Tests.antt =====
-- System calls of the current one of two processes, its exit too.
use synapse_kernel.Prelude.{
  ℕ, ◌-◌, ◌≡◌, ◌^◌, refl, arith, none, some, false, List, [], ◌∷◌, ℤ, pos, negsuc, first_from, ok,
}
use synapse_kernel.Heap.{
  heap_malloc, heap_align_value_to_upper, heap_malloc_blocks, heap_get_start_block,
  start_block_loop, heap_block_to_address, heap_mark_blocks_taken, mark_taken_loop,
}
use synapse_kernel.Heap.Kheap.{kmalloc}
use synapse_kernel.Task.{Ptr, null, running, task_new, link_last}
use synapse_kernel.Task.Ring.{IsTaskList}
use synapse_kernel.Process.{process_malloc}
use synapse_kernel.Process.Create.{
  process_create, process_create_steps, process_create_finish, process_create_task, process_init,
  process_allocate_slot, process_allocate_stack, process_load_binary, create_user_process,
}
use synapse_kernel.Task.Context.{Cpu}
use synapse_kernel.Syscall.Trap.{
  Build, stuck, syscall, syscall_exit, syscall_malloc, syscall_free, syscall_get_args,
  syscall_print_char, syscall_print_string,
}
use synapse_kernel.Syscall.Callers.{GoesOn, wrappers-refused, create_user_process-stuck}
use synapse_kernel.Process.Control.{process_get, process_current}
use synapse_kernel.Process.Sample.{frame, sample}
use synapse_kernel.Syscall.Exit.{process_exit-next}
use synapse_kernel.Syscall.{
  Calls, switches, process_exit, syscall_init, svc_c_handler, syscall_process_free,
}
use synapse_kernel.Syscall.Dispatch.{dispatched, svc_c_handler-dispatched}

abbrev calls : Calls
calls = record {
  kernel = sample;
  syscall_table = λ i. none;
  svc_handler_set = false;
  output = [];
  stored = [];
}

svc_c_handler-dispatched_example :
    let s' = (syscall_init calls).1 in
    svc_c_handler 2 (pos 2) frame s' ≡ dispatched 2 frame s' (some syscall_process_free)
svc_c_handler-dispatched_example = svc_c_handler-dispatched 2 (pos 2) frame calls

current : process_current sample ≡ 5000
unfolding process_current
current = refl

abbrev build : Build
build = record { str_el0_svc = 0x9000; link = 0x8100; upper = 0 }

-- A process at EL0 whose stack pointer is 0x8000.
abbrev user : Cpu
user = record { x = λ i. i; sp_el0 = 0x8000; sp_el1 = 0x90000; pc = 0x4000; pstate = 0 }

wrappers-refused_example :
    let s' = (syscall_init calls).1 in
    (syscall_exit 2 build 65 user s' ≡ some stuck)
    × GoesOn 2 build user calls Ptr (2 ^ 64 - 13) (syscall_malloc 2 build 65 user s')
    × GoesOn 2 build user calls ℤ (negsuc 12) (syscall_free 2 build 65 user s')
    × GoesOn 2 build user calls ℤ (negsuc 12) (syscall_get_args 2 build 65 66 user s')
    × GoesOn 2 build user calls ℤ (negsuc 12) (syscall_print_char 2 build 65 user s')
    × GoesOn 2 build user calls ℤ (negsuc 12) (syscall_print_string 2 build 65 user s')
wrappers-refused_example = wrappers-refused 2 build user calls 65 66 refl (omega arith)

abbrev name : List ℕ
name = 104 ∷ 105 ∷ []

created : (process_create 0x5000 (some name) 0x50000 8 sample).0 ≡ ok (2, 0x10000)
unfolding process_create process_create_steps process_create_finish process_create_task process_init
    process_allocate_slot process_allocate_stack process_load_binary process_malloc task_new kmalloc
    heap_malloc heap_align_value_to_upper heap_malloc_blocks heap_get_start_block start_block_loop
    heap_block_to_address heap_mark_blocks_taken mark_taken_loop link_last first_from
created = refl

-- The processor when it runs the task of the process that create_user_process has made.
abbrev resumed : Cpu
resumed =
    let k' = (process_create 0x5000 (some name) 0x50000 8 sample).1 in
    let made = create_user_process 0x5000 0x50000 0x60000 (some name) sample in
    record user { pstate = (made.1.tasks.task (k'.process 0x10000).task).registers.spsr_el1 }

create_user_process-stuck_example :
    let k' = (process_create 0x5000 (some name) 0x50000 8 sample).1 in
    let made = create_user_process 0x5000 0x50000 0x60000 (some name) sample in
    let task = made.1.tasks.task (k'.process 0x10000).task in
    (made.0 ≡ ok (k'.process 0x10000).id)
    × (task.registers.elr_el1 ≡ 0x60000)
    × (syscall 2 build 4 65 0 0 0 resumed calls ≡ some stuck)
create_user_process-stuck_example =
    create_user_process-stuck 0x5000 0x50000 0x60000 (some name) sample 2 0x10000 2 build resumed
      calls 4 65 0 0 0 created refl

process_exit-next_example :
    (s' : Calls) × (process_exit 0 calls ≡ some (switches 200, s'))
    × (process_get 0 s'.kernel ≡ null)
    × (process_current s'.kernel ≡ null)
    × (s'.kernel.tasks.current_task ≡ 200)
    × ((s'.kernel.tasks.task 200).state ≡ running)
    × IsTaskList s'.kernel.tasks.task s'.kernel.tasks.task_list_head (200 ∷ [])
process_exit-next_example =
    process_exit-next 0 calls [] (200 ∷ []) [] 200 (omega arith) (omega arith) refl refl
      (refl, record { links = omega arith; distinct = omega arith; non_null = omega arith }) refl
      (omega arith) (omega arith)
