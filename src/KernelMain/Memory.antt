-- ===== src/KernelMain/Memory.antt =====
-- kernel_main: that the start of the memory never stops it.
use synapse_kernel.Prelude.{ℕ, ◌<◌, ◌^◌, ◌≡◌, refl, eok, ap}
use synapse_kernel.Heap.{Entries}
use synapse_kernel.Heap.Kheap.{kheap_init}
use synapse_kernel.Pool.{Pool}
use synapse_kernel.Pool.Ready.{Ready}
use synapse_kernel.MemorySystem.{memory_system_init, memory_run_tests}
use synapse_kernel.MemorySystem.Start.{memory_system_init-Ready}
use synapse_kernel.MemorySystem.SelfTest.{memory_run_tests-memory_system_init}
use synapse_kernel.MemorySystem.Tensors.{TurnedOver}
use synapse_kernel.KernelMain.{Machine, Platform, kernel_main, start_management, tested, set_kernel}

kernel_main-ok :
    (fuel ram_size : ℕ) (at : Platform) (memory : Entries) (stale : ℕ → ℕ) (m : Machine)
    → (memory_system_init ram_size at.kernel_end memory m.pool).0 ≡ eok
    → kernel_main fuel ram_size at memory stale m
      ≡ start_management fuel at (
          tested stale
            (record m { pool = (memory_system_init ram_size at.kernel_end memory m.pool).1 }))
unfolding kernel_main
kernel_main-ok fuel ram_size at memory stale m done = rw (done, kernel_main) refl

-- For every size of the RAM and a kernel that ends below 2 ^ 62 and not at 0, kernel_main goes on from
-- the memory's start to the start of the process management, with a pool that is ready and then has
-- served the memory tests, which pass: the heap and the memory in use are those of the ready pool.
pub kernel_main-start_management :
    (fuel ram_size : ℕ) (at : Platform) (memory : Entries) (stale : ℕ → ℕ) (m : Machine)
    → 0 < at.kernel_end
    → at.kernel_end < 2 ^ 62
    → (pool pool' : Pool) × (byte : ℕ → ℕ) × Ready 0
        (record m.pool { heap = (kheap_init m.pool.heap memory ram_size at.kernel_end).1 })
        pool
      × (memory_run_tests stale pool m.system.kernel.byte ≡ (eok, pool', byte))
      × TurnedOver pool pool'
      × (kernel_main fuel ram_size at memory stale m
          ≡ start_management fuel at
              (set_kernel (record m { pool = pool' }) (record m.system.kernel { byte = byte })))
kernel_main-start_management fuel ram_size at memory stale m pos low =
    let (done, ready) = memory_system_init-Ready ram_size at.kernel_end memory m.pool pos low in
    let bytes = m.system.kernel.byte in
    let (_, passed, turned) =
      memory_run_tests-memory_system_init ram_size at.kernel_end memory m.pool stale bytes pos
        low in
    let pool = (memory_system_init ram_size at.kernel_end memory m.pool).1 in
    let after = memory_run_tests stale pool bytes in
    (
      pool,
      after.1,
      after.2,
      ready,
      ap (λ r. (r, after.1, after.2)) passed,
      turned,
      kernel_main-ok fuel ram_size at memory stale m done,
    )
