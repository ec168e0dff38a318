-- ===== src/KernelMain/Tests.antt =====
-- The start of the kernel with 1 GB and a kernel that ends at 0x84321.
use synapse_kernel.Prelude.{ℕ, eok, ◌^◌, ◌≡◌, arith, none, [], ◌∷◌, false}
use synapse_kernel.Heap.{Heap}
use synapse_kernel.Heap.Kheap.{kheap_init}
use synapse_kernel.Pool.{Pool}
use synapse_kernel.Pool.Ready.{Ready}
use synapse_kernel.Process.Sample.{sample}
use synapse_kernel.MemorySystem.{memory_run_tests}
use synapse_kernel.MemorySystem.Tensors.{TurnedOver}
use synapse_kernel.KernelMain.{Machine, Platform, kernel_main, start_management, set_kernel}
use synapse_kernel.KernelMain.Memory.{kernel_main-start_management}

abbrev no_heap : Heap
no_heap = record { table = record { entries = λ i. 0; total = 0 }; saddr = 0 }

abbrev no_pool : Pool
no_pool = record {
  heap = no_heap;
  total_size = 0;
  used_size = 0;
  free_blocks = 0;
  free_block = λ i. 0;
  free_block_sizes = 0;
  free_block_size = λ i. 0;
  free_block_count = 0;
  small_block_pool = 0;
  small_block_bitmap = 0;
  bitmap = λ i. 0;
  small_block_count = 0;
  allocations = 0;
  deallocations = 0;
  peak_usage = 0;
}

abbrev machine : Machine
machine = record {
  system = record {
    kernel = sample;
    timer = record {
      interrupts = record { handlers = λ i. 0; initialized = false; writes = [] };
      timer_initialized = false;
      timer_handler = 0;
      timer_ticks = 0;
      timer_interval_ms = 0;
      timer_writes = [];
    };
    scheduler_running = false;
  };
  calls = record {
    kernel = sample;
    syscall_table = λ i. none;
    svc_handler_set = false;
    output = [];
    stored = [];
  };
  pool = no_pool;
}

abbrev platform : Platform
platform = record {
  kernel_end = 0x84321;
  irq = 0x81000;
  self = 0x82000;
  return_handler = 0x83000;
  kernel_entry = 0x83100;
  user_entry = 0x83200;
  kernel_dummy = 0x84000;
  user_dummy = 0x84008;
  kernel_name = 107 ∷ 0 ∷ [];
  user_name = 117 ∷ 0 ∷ [];
  isenabler0 = 0;
  freq = 62500000;
  current = 0;
  frequency = 62500000;
}

kernel_main-start_management_example :
    (pool pool' : Pool) × (byte : ℕ → ℕ) × Ready 0
      (record no_pool { heap = (kheap_init no_heap (λ i. 9) (2 ^ 30) 0x84321).1 })
      pool
    × (memory_run_tests (λ i. 7) pool (λ a. 0) ≡ (eok, pool', byte))
    × TurnedOver pool pool'
    × (kernel_main 10 (2 ^ 30) platform (λ i. 9) (λ i. 7) machine
        ≡ start_management 10 platform
            (set_kernel (record machine { pool = pool' }) (record sample { byte = byte })))
kernel_main-start_management_example =
    kernel_main-start_management 10 (2 ^ 30) platform (λ i. 9) (λ i. 7) machine (omega arith)
      (omega arith)
