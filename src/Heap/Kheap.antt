-- ===== src/Heap/Kheap.antt =====
-- The kernel heap of core/memory/heap/kheap.c: its size, its table and its place behind the kernel.
use synapse_kernel.Prelude.{
  ℕ, ◌+◌, ◌-◌, ◌*◌, ◌/◌, ◌%◌, ◌^◌, ◌≤◌, ◌<◌, ◌≡◌, refl, arith, ltb, leb, ◌==◌, ◌&&◌, if◌then◌else◌,
  Status, eok,
}
use synapse_kernel.Heap.{
  Entries, Heap, block_size, heap_create, heap_malloc, heap_free, heap_validate_table,
  heap_validate_alignment,
}
use synapse_kernel.Heap.Free.{Sized}
use synapse_kernel.Heap.Table.{IsTable}

-- `(x + 0xFFF) & ~0xFFF` on `uintptr_t`
abbrev pub page_up : ℕ → ℕ
page_up x = (x + 0xFFF) % 2 ^ 64 / 4096 * 4096

-- `target_heap_size` after its limits and its rounding.
unfoldable pub target_heap_size : ℕ → ℕ
target_heap_size ram_size =
    let low = if ltb (ram_size / 4) (4 * 1024 * 1024) then 4 * 1024 * 1024 else ram_size / 4 in
    let clamped = if ltb (256 * 1024 * 1024) low then 256 * 1024 * 1024 else low in
    clamped / block_size * block_size

-- `total_table_entries`
unfoldable pub total_table_entries : ℕ → ℕ
total_table_entries ram_size = target_heap_size ram_size / block_size

-- `heap_table_addr`; `kernel_end` is the address of the linker's `_end`.
unfoldable pub heap_table_addr : ℕ → ℕ
heap_table_addr kernel_end = page_up kernel_end

unfoldable pub heap_start_addr : ℕ → ℕ → ℕ
heap_start_addr ram_size kernel_end =
    page_up ((heap_table_addr kernel_end + total_table_entries ram_size * 8) % 2 ^ 64)

-- kheap_init; the result is that of heap_create, which the code answers with a message only.
-- `memory` is what the table's place holds before.
unfoldable pub kheap_init : Heap → Entries → ℕ → ℕ → Status × Heap
kheap_init kernel_heap memory ram_size kernel_end =
    let start = heap_start_addr ram_size kernel_end in
    let end = (start + target_heap_size ram_size) % 2 ^ 64 in
    heap_create kernel_heap start end
      (record { entries = memory; total = total_table_entries ram_size })

unfoldable pub kmalloc : ℕ → Heap → ℕ × Heap
unfolding heap_malloc
kmalloc size kernel_heap = heap_malloc kernel_heap size

-- `byte` is the bytes of the memory by address.
unfoldable pub kzalloc : ℕ → Heap → (ℕ → ℕ) → ℕ × Heap × (ℕ → ℕ)
unfolding kmalloc
kzalloc size kernel_heap byte =
    let (ptr, heap) = kmalloc size kernel_heap in
    if ptr == 0
    then (0, heap, byte)
    else (ptr, heap, (λ a. if leb ptr a && ltb a (ptr + size) then 0 else byte a))

unfoldable pub kfree : ℕ → Heap → Heap
unfolding heap_free
kfree ptr kernel_heap = heap_free kernel_heap ptr

-- The table has 1024 to 65536 blocks.
pub total_table_entries_bounds :
    (ram_size : ℕ) → (1024 ≤ total_table_entries ram_size) × (total_table_entries ram_size ≤ 65536)
unfolding total_table_entries target_heap_size
total_table_entries_bounds ram_size = ground arith

target_size : (ram_size : ℕ) → target_heap_size ram_size ≡ total_table_entries ram_size * 4096
unfolding total_table_entries target_heap_size
target_size ram_size = ground arith

place :
    (k n : ℕ)
    → k < 2 ^ 63
    → n ≤ 65536
    → (k ≤ page_up k)
      × (page_up k + n * 8 ≤ page_up ((page_up k + n * 8) % 2 ^ 64))
      × (page_up ((page_up k + n * 8) % 2 ^ 64) % 4096 ≡ 0)
      × (page_up ((page_up k + n * 8) % 2 ^ 64) < 2 ^ 63 + 2 ^ 20)
place k n h b = omega arith

-- The table lies behind the kernel's end and the heap behind the table, the heap starts at a
-- multiple of 4096, and no sum wraps, for a kernel that ends below 2 ^ 63.
pub heap_start_addr_bounds :
    (ram_size kernel_end : ℕ)
    → kernel_end < 2 ^ 63
    → (kernel_end ≤ heap_table_addr kernel_end)
      × (heap_table_addr kernel_end + total_table_entries ram_size * 8
          ≤ heap_start_addr ram_size kernel_end)
      × (heap_start_addr ram_size kernel_end % 4096 ≡ 0)
      × (heap_start_addr ram_size kernel_end < 2 ^ 63 + 2 ^ 20)
unfolding heap_start_addr heap_table_addr
heap_start_addr_bounds ram_size kernel_end h =
    place kernel_end (total_table_entries ram_size) h (total_table_entries_bounds ram_size).1

near :
    (k n : ℕ) → k < 2 ^ 63 → n ≤ 65536 → page_up ((page_up k + n * 8) % 2 ^ 64) ≤ k + n * 8 + 8192
near k n h b = omega arith

-- The heap starts at most two pages behind the kernel's end and the table.
pub heap_start_addr_near :
    (ram_size kernel_end : ℕ)
    → kernel_end < 2 ^ 63
    → heap_start_addr ram_size kernel_end ≤ kernel_end + total_table_entries ram_size * 8 + 8192
unfolding heap_start_addr heap_table_addr
heap_start_addr_near ram_size kernel_end h =
    near kernel_end (total_table_entries ram_size) h (total_table_entries_bounds ram_size).1

abbrev pub cleared : Entries → ℕ → ℕ → Heap
cleared memory total start = record {
  table = record { entries = λ i. if ltb i total then 0 else memory i; total = total };
  saddr = start;
}

created :
    (kernel_heap : Heap) (memory : Entries) (total ptr end : ℕ)
    → ptr % 4096 ≡ 0
    → end ≡ ptr + total * 4096
    → end < 2 ^ 64
    → heap_create kernel_heap ptr end (record { entries = memory; total = total })
      ≡ (eok, cleared memory total ptr)
unfolding heap_create heap_validate_table heap_validate_alignment
created kernel_heap memory total ptr end aligned e bound =
    let at_end : end % 4096 ≡ 0 = omega arith in
    let blocks : (end + 2 ^ 64 - ptr) % 2 ^ 64 / 4096 ≡ total = omega arith in
    rw aligned (rw at_end (rw blocks (ground arith)))

pub initialised :
    (kernel_heap : Heap) (memory : Entries) (ram_size kernel_end : ℕ)
    → kernel_end < 2 ^ 63
    → kheap_init kernel_heap memory ram_size kernel_end
      ≡ (eok, cleared memory (total_table_entries ram_size) (heap_start_addr ram_size kernel_end))
unfolding kheap_init
initialised kernel_heap memory ram_size kernel_end h =
    let b = heap_start_addr_bounds ram_size kernel_end h in
    let t = total_table_entries_bounds ram_size in
    created kernel_heap memory (total_table_entries ram_size) (heap_start_addr ram_size kernel_end)
      ((heap_start_addr ram_size kernel_end + target_heap_size ram_size) % 2 ^ 64) b.2
      (omega (arith, target_size ram_size, b, t)) (omega arith)

-- For a kernel that ends below 2 ^ 63 kheap_init succeeds, whatever the size of the memory: the
-- table has the computed number of blocks, every one of them is free, the table has the shape
-- that allocation keeps, its indices fit `int`, and the blocks lie below 2 ^ 64.
pub kheap_init-ok :
    (kernel_heap : Heap) (memory : Entries) (ram_size kernel_end : ℕ)
    → kernel_end < 2 ^ 63
    → let (status, heap) = kheap_init kernel_heap memory ram_size kernel_end in
      (status ≡ eok)
      × (heap.table.total ≡ total_table_entries ram_size)
      × ((j : ℕ) → j < heap.table.total → heap.table.entries j ≡ 0)
      × Sized heap
      × IsTable heap.table.total heap.table.entries
kheap_init-ok kernel_heap memory ram_size kernel_end h =
    let b = heap_start_addr_bounds ram_size kernel_end h in
    let t = total_table_entries_bounds ram_size in
    rw (initialised kernel_heap memory ram_size kernel_end h) (
      refl,
      refl,
      (λ j lt. ground arith),
      record { few = omega (arith, t); addressable = omega (arith, b, t) },
      record {
        values = λ j lt. ground arith;
        starts = λ p. ground arith;
        linked = λ j lt is. ground arith;
      },
    )
