-- ===== src/Heap.antt =====
-- The block heap of core/memory/heap/heap.c, with the table of heap.h.
-- The entries are a memory: index `i` is `table->entries[i]`, and an index from `total` on is what
-- lies behind the table. An `int` index is its 32-bit pattern.
pub mod Kheap
pub mod Scan
pub mod Mark
pub mod Alloc
pub mod Free
pub mod Table
pub mod Prefix
pub mod Single
pub mod Three
mod Tests
use Prim.Native.Nat.{bit_or}
use synapse_kernel.Prelude.{
  ℕ, zero, suc, ◌+◌, ◌-◌, ◌*◌, ◌/◌, ◌%◌, ◌^◌, Option, none, some, Bool, true, false, ◌||◌, not,
  Status, ok, err, eok, Errno, einvarg, enomem, Result, ltb, ◌==◌, if◌then◌else◌, update, is_err,
}

-- KERNEL_HEAP_BLOCK_SIZE
abbrev pub block_size : ℕ
block_size = 4096

-- HEAP_BLOCK_TABLE_ENTRY_FREE, HEAP_BLOCK_TABLE_ENTRY_TAKEN
abbrev pub entry_free : ℕ
entry_free = 0x00

abbrev pub entry_taken : ℕ
entry_taken = 0x01

-- HEAP_BLOCK_HAS_NEXT, HEAP_BLOCK_IS_FIRST
abbrev pub has_next : ℕ
has_next = 0x80

abbrev pub is_first : ℕ
is_first = 0x40

abbrev pub Entries : Type 0
Entries = ℕ → ℕ

pub record HeapTable : Type 0 where
  pub entries : Entries
  pub total : ℕ

pub record Heap : Type 0 where
  pub table : HeapTable
  pub saddr : ℕ

unfoldable pub heap_validate_table : ℕ → ℕ → HeapTable → Status
heap_validate_table ptr end table =
    let table_size = (end + 2 ^ 64 - ptr) % 2 ^ 64 in
    let total_blocks = table_size / block_size in
    if table.total == total_blocks then eok else err einvarg

unfoldable pub heap_validate_alignment : ℕ → Bool
heap_validate_alignment ptr = ptr % block_size == 0

-- `uint32_t`: the sum wraps.
unfoldable pub heap_align_value_to_upper : ℕ → ℕ
heap_align_value_to_upper val =
    if val % block_size == 0 then val else (val - val % block_size + block_size) % 2 ^ 32

-- `entry & 0x0F`
abbrev pub heap_get_entry_type : ℕ → ℕ
heap_get_entry_type entry = entry % 2 ^ 4

-- `if (bs == -1) bs = i;`
abbrev pub run_start : ℕ → Option ℕ → ℕ
run_start i none = i
run_start i (some s) = s

-- The loop of `heap_get_start_block`, with the rounds left, the index, `bc`, and `bs` (`none` for
-- -1). `break` returns.
unfoldable pub start_block_loop : Entries → ℕ → ℕ → ℕ → ℕ → Option ℕ → Option ℕ
start_block_loop entries total_blocks zero i bc bs = bs
start_block_loop entries total_blocks (suc k) i bc bs =
    let taken = start_block_loop entries total_blocks k (i + 1) 0 none in
    let first = run_start i bs in
    let next = start_block_loop entries total_blocks k (i + 1) (bc + 1) (some first) in
    let here = if bc + 1 == total_blocks then some first else next in
    if heap_get_entry_type (entries i) == entry_free then here else taken

unfoldable pub heap_get_start_block : Heap → ℕ → Result ℕ
heap_get_start_block heap total_blocks =
    elim (start_block_loop heap.table.entries total_blocks heap.table.total 0 0 none) [
      | none ↦ err enomem
      | some bs ↦ ok bs
    ]

unfoldable pub heap_block_to_address : Heap → ℕ → ℕ
heap_block_to_address heap start_block = heap.saddr + start_block * block_size

-- `for (i = start_block; i <= end_block; i++)`, with the rounds left.
unfoldable pub mark_taken_loop : ℕ → ℕ → ℕ → ℕ → Entries → Entries
mark_taken_loop zero i end_block entry entries = entries
mark_taken_loop (suc k) i end_block entry entries =
    mark_taken_loop k (i + 1) end_block
      (if i == end_block then entry_taken else bit_or entry_taken has_next) (update entries i entry)

unfoldable pub heap_mark_blocks_taken : Heap → ℕ → ℕ → Heap
heap_mark_blocks_taken heap start_block total_blocks =
    let end_block = start_block + total_blocks - 1 in
    let first = bit_or entry_taken is_first in
    let entry = if ltb 1 total_blocks then bit_or first has_next else first in
    let entries = mark_taken_loop total_blocks start_block end_block entry heap.table.entries in
    record heap { table = record (heap.table) { entries = entries } }

-- The address, 0 for NULL.
unfoldable pub heap_malloc_blocks : Heap → ℕ → ℕ × Heap
heap_malloc_blocks heap total_blocks = elim (heap_get_start_block heap total_blocks) [
  | err e ↦ (0, heap)
  | ok start_block ↦
      (heap_block_to_address heap start_block, heap_mark_blocks_taken heap start_block total_blocks)
]

-- `size_t` subtraction, and the conversion of the quotient to `int`.
unfoldable pub heap_address_to_block : Heap → ℕ → ℕ
heap_address_to_block heap address = (address + 2 ^ 64 - heap.saddr) % 2 ^ 64 / block_size % 2 ^ 32

-- The rounds that `for (i = start_block; i < (int)total; i++)` makes at most: a pattern from
-- 2 ^ 31 on is a negative index.
unfoldable pub free_rounds : ℕ → ℕ → ℕ
free_rounds start_block total =
    if ltb start_block (2 ^ 31) then total - start_block else total + (2 ^ 32 - start_block)

unfoldable pub mark_free_loop : ℕ → ℕ → Entries → Entries
mark_free_loop zero i entries = entries
mark_free_loop (suc k) i entries =
    let rest = mark_free_loop k ((i + 1) % 2 ^ 32) (update entries i entry_free) in
    if entries i / has_next % 2 == 0 then update entries i entry_free else rest

unfoldable pub heap_mark_blocks_free : Heap → ℕ → Heap
heap_mark_blocks_free heap start_block =
    let entries =
      mark_free_loop (free_rounds start_block heap.table.total) start_block heap.table.entries in
    record heap { table = record (heap.table) { entries = entries } }

-- Returns the status and `*heap`. The table arrives with `total` set.
unfoldable pub heap_create : Heap → ℕ → ℕ → HeapTable → Status × Heap
heap_create heap ptr end table =
    if not (heap_validate_alignment ptr) || not (heap_validate_alignment end)
    then (err einvarg, heap)
    else if is_err (heap_validate_table ptr end table)
    then (heap_validate_table ptr end table, record { table = table; saddr = ptr })
    else (
      eok,
      record {
        table = record table {
          entries = λ i. if ltb i table.total then entry_free else table.entries i;
        };
        saddr = ptr;
      },
    )

-- `size` is `size_t`; `heap_align_value_to_upper` takes its low 32 bits.
unfoldable pub heap_malloc : Heap → ℕ → ℕ × Heap
heap_malloc heap size =
    let aligned_size = heap_align_value_to_upper (size % 2 ^ 32) in
    let total_blocks = aligned_size / block_size in heap_malloc_blocks heap total_blocks

unfoldable pub heap_free : Heap → ℕ → Heap
heap_free heap ptr = heap_mark_blocks_free heap (heap_address_to_block heap ptr)
