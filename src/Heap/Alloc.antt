-- ===== src/Heap/Alloc.antt =====
-- heap_malloc: how many blocks a size takes, which blocks are handed out, what is marked.
use synapse_kernel.Prelude.{
  ℕ, suc, ◌+◌, ◌-◌, ◌*◌, ◌/◌, ◌%◌, ◌^◌, ◌≤◌, ◌<◌, ◌≡◌, ap, arith, ◌==◌, if◌then◌else◌, ok, err, ◌≢◌,
  inl, inr, Bool-cases, Result-cases, eq_of_==, Errno, refl,
}
use synapse_kernel.Heap.{
  Heap, heap_align_value_to_upper, heap_malloc, heap_malloc_blocks, heap_get_start_block,
  heap_block_to_address, heap_mark_blocks_taken, block_size, mark_taken_loop,
}
use synapse_kernel.Heap.Scan.{
  FreeRun, heap_get_start_block-finds, heap_get_start_block-free, heap_get_start_block-overruns,
}
use synapse_kernel.Heap.Mark.{first_entry, later_entry, within, heap_mark_blocks_taken-entries}

-- `total_blocks` of heap_malloc.
abbrev pub blocks_of : ℕ → ℕ
blocks_of size = heap_align_value_to_upper (size % 2 ^ 32) / block_size

-- For a size of at most 2 ^ 32 - 4096 bytes the blocks that heap_malloc takes hold the size, and
-- one block fewer would not.
pub heap_align_value_to_upper-fits :
    (size : ℕ)
    → size ≤ 2 ^ 32 - 4096
    → (heap_align_value_to_upper size % block_size ≡ 0)
      × (size ≤ heap_align_value_to_upper size)
      × (heap_align_value_to_upper size < size + block_size)
unfolding heap_align_value_to_upper
heap_align_value_to_upper-fits size h = ground arith

-- A size is read modulo 2 ^ 32: a request of 4 GiB more takes the same blocks.
pub heap_malloc-truncates :
    (heap : Heap) (size : ℕ) → heap_malloc heap (size + 2 ^ 32) ≡ heap_malloc heap size
unfolding heap_malloc
heap_malloc-truncates heap size =
    let same : (size + 2 ^ 32) % 2 ^ 32 ≡ size % 2 ^ 32 = omega arith in rw same

pub malloc-ok :
    (heap : Heap) (size s : ℕ)
    → heap_get_start_block heap (blocks_of size) ≡ ok s
    → heap_malloc heap size
      ≡ (heap.saddr + s * block_size, heap_mark_blocks_taken heap s (blocks_of size))
unfolding heap_malloc heap_malloc_blocks heap_block_to_address
malloc-ok heap size s e = rw (e, heap_malloc_blocks)

pub malloc-err :
    (heap : Heap) (size : ℕ) (e : Errno)
    → heap_get_start_block heap (blocks_of size) ≡ err e
    → heap_malloc heap size ≡ (0, heap)
unfolding heap_malloc heap_malloc_blocks
malloc-err heap size e failed = rw (failed, heap_malloc_blocks)

-- When the table holds a run of `n` free blocks, `n` at least 1 the number of blocks that the
-- size takes, heap_malloc returns the address of a run of `n` free blocks inside the table, none
-- of which begins later than any other such run; it marks these blocks as one allocation, and
-- changes no other entry.
pub heap_malloc-takes :
    (heap : Heap) (size n r : ℕ)
    → blocks_of size ≡ n
    → 0 < n
    → r + n ≤ heap.table.total
    → FreeRun heap.table.entries r (r + n)
    → (s : ℕ) × ((heap_malloc heap size).0 ≡ heap.saddr + s * block_size)
      × (s ≤ r)
      × (s + n ≤ heap.table.total)
      × FreeRun heap.table.entries s (s + n)
      × ((j : ℕ)
          → (heap_malloc heap size).1.table.entries j ≡ (
              if within s n j
              then (if j == s then first_entry n else later_entry)
              else heap.table.entries j))
heap_malloc-takes heap size n r same pos hi f =
    let (s, e, low, fits, free) = heap_get_start_block-finds heap n pos r hi f in
    let m = malloc-ok heap size s (rw same e) in
    (
      s,
      ap (λ p. p.0) m,
      low,
      fits,
      free,
      λ j. rw m (rw same (heap_mark_blocks_taken-entries heap s n j pos)),
    )

mark_none :
    (heap : Heap) (s : ℕ) → (heap_mark_blocks_taken heap s 0).table.entries ≡ heap.table.entries
unfolding heap_mark_blocks_taken mark_taken_loop
mark_none heap s = refl

module _ (heap : Heap) (size n : ℕ) (same : blocks_of size ≡ n) where
  -- heap_malloc leaves the entry of a block that is in use as it is, for every size and every
  -- table, also when it fails and also when the size takes no block.
  pub heap_malloc-keeps :
      (j : ℕ)
      → j < heap.table.total
      → heap.table.entries j % 16 ≢ 0
      → (heap_malloc heap size).1.table.entries j ≡ heap.table.entries j
  heap_malloc-keeps j lt used = elim (Result-cases (heap_get_start_block heap n)) [
    | inr (e, failed) ↦ rw (malloc-err heap size e (rw same failed))
    | inl (s, hit) ↦ rw (malloc-ok heap size s (rw same hit)) (
        rw same (elim (Bool-cases (n == 0)) [
          | inl none ↦ rw (eq_of_== n 0 none) (ap (λ f. f j) (mark_none heap s))
          | inr pos ↦
              rw (heap_mark_blocks_taken-entries heap s n j (ground arith))
                (ground (arith, heap_get_start_block-free heap n (ground arith) s hit j))
        ]))
  ]

  -- When the last block is free and no run of `n` free blocks lies inside the table, heap_malloc
  -- still returns the address of a block, and writes a taken entry behind the end of the table.
  pub heap_malloc-overruns :
      0 < n
      → (last : ℕ) → heap.table.total ≡ suc last
      → heap.table.entries last % 16 ≡ 0
      → ((r : ℕ) → r + n ≤ heap.table.total → FreeRun heap.table.entries r (r + n) → ⊥)
      → (s : ℕ) × ((heap_malloc heap size).0 ≡ heap.saddr + s * block_size)
        × (heap.table.total < s + n)
        × ((j : ℕ)
            → heap.table.total ≤ j
            → s ≤ j
            → j < s + n
            → (heap_malloc heap size).1.table.entries j % 16 ≡ 1)
  heap_malloc-overruns pos last sized free none_fits =
      let (s, hit, beyond) = heap_get_start_block-overruns heap n pos last sized free none_fits in
      let m = malloc-ok heap size s (rw same hit) in
      (
        s,
        ap (λ p. p.0) m,
        beyond,
        λ j lo from top.
            rw m (rw same (rw (heap_mark_blocks_taken-entries heap s n j pos) (ground arith))),
      )
