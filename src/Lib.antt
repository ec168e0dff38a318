-- ===== src/Lib.antt =====
-- The core of SynapseKernel, a kernel in C for AArch64: its block heap, tensor memory, strings,
-- tasks, interrupts, timer, processes, scheduler and system calls, as functions on explicit
-- states, with the theorems that make them correct or say where they are not.
--
-- The parts build on each other as the code does. Heap models core/memory/heap/heap.c, and
-- Heap.Kheap core/memory/heap/kheap.c with kmalloc and kfree. CString models core/string/string.c
-- and core/memory/memory.c. Task models core/task/task.c: the circular task list, whose tasks
-- kmalloc allocates, and the switch; Task.Context models what core/task/context_switch.S does to
-- the registers when an interrupt comes, when its handler returns and when a task is run.
-- Interrupt models core/interrupts/interrupt.c, Timer core/timer/timer.c on top of it. Process
-- models core/process/process_memory.c, Process.Create and Process.Control core/process/process.c
-- over the tasks and the heap, with the two creators of core/process/process_management_init.c.
-- Scheduler models core/scheduler/scheduler.c over the processes and the timer, and Syscall
-- core/interrupts/svc.c and core/interrupts/syscall.c over the processes, with Syscall.Trap for
-- the way of a call from the wrappers in user space through arch/arm64/interrupt/vector.S and
-- core/task/context_switch.S. Pool models the memory pool of core/memory/ai_memory/ai_memory.c
-- over the kernel heap, and Tensor the tensors of that file over the pool. Management models the
-- initialisation and the start of core/process/process_management_init.c, and Management.Delivery
-- puts the interrupts, the timer and the scheduler together for an interrupt of the timer.
-- MemorySystem models the start and the tests of core/memory/memory_system.c over the heap, the
-- pool and the tensors, and MemorySystem.Regions the printing of its regions; Pool.Stats models
-- the numbers that ai_memory_print_stats prints, and Process.Cache the cache maintenance of
-- core/process/process_memory.c as the list of its instructions; KernelMain models the order of
-- core/kernel_main.c, Decimal the printing of numbers that these files share, and Hex that of
-- core/task/task.c and core/process/process.c. Prelude holds the shared numbers, lists, searches,
-- results and the codes of includes/synapse/status.h. The other modules hold proofs, and each
-- Tests module the theorems at concrete states.
--
-- A function of the model has the name of the C function, takes the state that the C code keeps
-- in globals as an argument, and returns the result with the new state. An int that is a value or
-- the negative of an error code is a Result. A pointer is a number, 0 for NULL; tasks and
-- processes are stores by address, and the memory that strings and programs stand in is a
-- function of the address. The heap's table is a memory of entries that goes on behind the table,
-- since the code writes there. Tables of fixed size are functions in the same way, with what lies
-- behind them. Numbers are natural numbers, and the places where the machine's width matters have
-- the remainder written out: size_t and addresses modulo 2 ^ 64, the size of a request modulo 2 ^
-- 32, process ids modulo 2 ^ 16.
--
-- A function that may switch tasks ends in an Outcome: it returns, or the processor runs a task
-- and the caller is never returned to, as after task_restore_context. What the code reads from
-- the processor and the interrupt controller is an argument; what it writes to them is a list in
-- the state, oldest first. An interrupt handler that is called through a pointer is a parameter,
-- which may change the whole system.
--
-- Loops with a bound are recursion on the rounds left, or the search first_from. The searches
-- through the task list run on fuel, and the theorems on them show that as much fuel as there are
-- tasks is enough; the copying of arguments reads strings up to a number of bytes. Both give none
-- when the fuel runs out.
--
-- The pool's small blocks are the bits of a bitmap, and its free list two arrays of addresses and
-- sizes. A tensor has its address and its arrays' addresses beside their elements, and the bytes
-- of its data are a function of the address; the elements of new arrays, before they are written,
-- are an argument.
--
-- The registers of the processor are a record, Cpu, where the assembly decides what they hold: x0
-- to x30, the two stack pointers, and the address and the state that an exception saves. What a
-- vector, the assembler or the compiler decides, such as the address that a branch with link
-- leaves in x30, or the upper half of x0 behind a function that returns an int, is an argument.
-- The word current_task of core/task/context_switch.S is not the variable of core/task/task.c: it
-- is a label of that file, which holds 0.
--
-- The scheduler is also a relation between states, Run, whose steps are an interrupt of the timer
-- and anything that the code between two interrupts does to the processes but those that a
-- theorem names.
--
-- Messages on the UART are left out, since they change no state that is read again; of what is
-- printed only the numbers are modelled. The assembly of the boot, the page tables and the UART
-- is not modelled, nor are the vectors that only hang: they set up the processor before
-- kernel_main, and no modelled function reads what they write. process_return_handler of
-- core/process/process.c, which prints and halts, is an address. The contents of freed memory are
-- not modelled: a process or a task is read by its address as it was last written.
pub mod CString
pub mod Decimal
pub mod Heap
pub mod Hex
pub mod Interrupt
pub mod KernelMain
pub mod Management
pub mod MemorySystem
pub mod Pool
pub mod Prelude
pub mod Process
pub mod Scheduler
pub mod Syscall
pub mod Task
pub mod Tensor
pub mod Timer
