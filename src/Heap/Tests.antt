-- ===== src/Heap/Tests.antt =====
-- The heap's theorems at a table of four blocks, and runs of the allocator on it.
use synapse_kernel.Prelude.{
  ℕ, zero, suc, ◌+◌, ◌*◌, ◌%◌, ◌≤◌, ◌<◌, ◌≡◌, refl, inl, inr, arith, ◌==◌, if◌then◌else◌, ok,
  get_or, List, [], ◌∷◌,
}
use synapse_kernel.Heap.{
  Heap, heap_malloc, heap_free, heap_get_start_block, start_block_loop, block_size,
  heap_align_value_to_upper, heap_malloc_blocks, heap_block_to_address,
}
use synapse_kernel.Heap.Scan.{FreeRun}
use synapse_kernel.Heap.Mark.{within, first_entry, later_entry}
use synapse_kernel.Heap.Alloc.{
  blocks_of, heap_malloc-takes, heap_malloc-keeps, heap_malloc-overruns,
}
use synapse_kernel.Heap.Free.{Sized, heap_free-heap_malloc, heap_free-swallows}
use synapse_kernel.Heap.Table.{IsTable, heap_malloc-IsTable}

-- Four blocks at 0x10000; what lies behind the table reads 0.
abbrev heap_of : List ℕ → Heap
heap_of es = record { table = record { entries = λ i. get_or es i 0; total = 4 }; saddr = 0x10000 }

abbrev empty : Heap
empty = heap_of []

-- The first block and the last two are free.
abbrev holed : Heap
holed = heap_of (0 ∷ 0x41 ∷ 0 ∷ 0 ∷ [])

-- The first block is free and the second is in use.
abbrev busy : Heap
busy = heap_of (0 ∷ 0 ∷ 0x41 ∷ 0x41 ∷ [])

one_page : (heap_malloc empty 100).0 ≡ 0x10000
unfolding heap_malloc heap_align_value_to_upper heap_malloc_blocks heap_get_start_block
    start_block_loop heap_block_to_address
one_page = refl

-- A request for 16 KiB in a heap with its last block free only.
tail_only : (heap_malloc (heap_of (0x41 ∷ 0x41 ∷ 0x41 ∷ [])) 0x4000).0 ≡ 0x13000
unfolding heap_malloc heap_align_value_to_upper heap_malloc_blocks heap_get_start_block
    start_block_loop heap_block_to_address
tail_only = refl

two_blocks : blocks_of 5000 ≡ 2
unfolding heap_align_value_to_upper
two_blocks = refl

empty-Sized : Sized empty
empty-Sized = omega arith

busy-Sized : Sized busy
busy-Sized = omega arith

holed_run : FreeRun holed.table.entries 2 4
holed_run zero lo hi = refl
holed_run (suc zero) lo hi = absurd (omega arith)
holed_run (suc (suc zero)) lo hi = refl
holed_run (suc (suc (suc zero))) lo hi = refl
holed_run (suc (suc (suc (suc j)))) lo hi = refl

heap_malloc-takes_example :
    (s : ℕ) × ((heap_malloc holed 5000).0 ≡ 0x10000 + s * block_size)
    × (s ≤ 2)
    × (s + 2 ≤ 4)
    × FreeRun holed.table.entries s (s + 2)
    × ((j : ℕ)
        → (heap_malloc holed 5000).1.table.entries j ≡ (
            if within s 2 j
            then (if j == s then first_entry 2 else later_entry)
            else holed.table.entries j))
heap_malloc-takes_example =
    heap_malloc-takes holed 5000 2 2 two_blocks (omega arith) (omega arith) holed_run

used_ne : 0x41 % 16 ≡ 0 → ⊥
used_ne h = omega arith

heap_malloc-keeps_example : (heap_malloc holed 5000).1.table.entries 1 ≡ 0x41
heap_malloc-keeps_example = heap_malloc-keeps holed 5000 2 two_blocks 1 (omega arith) used_ne

-- Three of four blocks in use: two blocks do not fit, and the last one is free.
abbrev tail : Heap
tail = heap_of (0x41 ∷ 0x41 ∷ 0x41 ∷ 0 ∷ [])

no_pair : (r : ℕ) → r + 2 ≤ 4 → FreeRun tail.table.entries r (r + 2) → ⊥
no_pair zero h f = used_ne (f 0 (omega arith) (omega arith))
no_pair (suc zero) h f = used_ne (f 1 (omega arith) (omega arith))
no_pair (suc (suc zero)) h f = used_ne (f 2 (omega arith) (omega arith))
no_pair (suc (suc (suc r))) h f = absurd (omega arith)

heap_malloc-overruns_example :
    (s : ℕ) × ((heap_malloc tail 5000).0 ≡ 0x10000 + s * block_size)
    × (4 < s + 2)
    × ((j : ℕ) → 4 ≤ j → s ≤ j → j < s + 2 → (heap_malloc tail 5000).1.table.entries j % 16 ≡ 1)
heap_malloc-overruns_example =
    heap_malloc-overruns tail 5000 2 two_blocks (omega arith) 3 refl refl no_pair

empty_start : heap_get_start_block empty 2 ≡ ok 0
unfolding heap_get_start_block start_block_loop
empty_start = refl

busy_start : heap_get_start_block busy 2 ≡ ok 0
unfolding heap_get_start_block start_block_loop
busy_start = refl

empty_zero : (j : ℕ) → 0 ≤ j → j < 0 + 2 → empty.table.entries j ≡ 0
empty_zero j lo hi = refl

heap_free-heap_malloc_example :
    (heap_free (heap_malloc empty 5000).1 (heap_malloc empty 5000).0).table.entries 1 ≡ 0
heap_free-heap_malloc_example =
    heap_free-heap_malloc empty 5000 0 2 empty-Sized two_blocks (omega arith) empty_start
      (omega arith) empty_zero (inr (inr refl)) 1

-- The block behind the two is in use, and is given away.
heap_free-swallows_example :
    (heap_free (heap_malloc busy 5000).1 (heap_malloc busy 5000).0).table.entries 2 ≡ 0
heap_free-swallows_example =
    heap_free-swallows busy 5000 0 2 busy-Sized two_blocks (omega arith) busy_start (omega arith)

empty-IsTable : IsTable 4 empty.table.entries
empty-IsTable = record {
  values = λ j lt. inl refl;
  starts = λ p. omega arith;
  linked = λ j lt is. omega arith;
}

heap_malloc-IsTable_example :
    IsTable (heap_malloc empty 5000).1.table.total (heap_malloc empty 5000).1.table.entries
heap_malloc-IsTable_example =
    heap_malloc-IsTable empty empty-IsTable 5000 (rw two_blocks (omega arith))
