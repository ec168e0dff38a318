-- ===== src/Heap/Free.antt =====
-- heap_free against heap_malloc.
use synapse_kernel.Prelude.{
  ℕ, ◌+◌, ◌*◌, ◌^◌, ◌≤◌, ◌<◌, ◌≡◌, ◌⊎◌, inl, inr, arith, ltb, ◌==◌, if◌then◌else◌, ok, refl, ap,
  Bool-cases,
}
use synapse_kernel.Heap.{
  Heap, heap_malloc, heap_free, heap_get_start_block, heap_address_to_block, heap_block_to_address,
  heap_mark_blocks_taken, heap_mark_blocks_free, block_size,
}
use synapse_kernel.Heap.Mark.{
  first_entry, later_entry, within, HasNext, heap_mark_blocks_taken-entries,
  heap_mark_blocks_free-chain, heap_mark_blocks_free-rest, heap_mark_blocks_free-reaches,
}
use synapse_kernel.Heap.Alloc.{blocks_of, malloc-ok}

-- A heap whose indices fit `int` and whose blocks lie below 2 ^ 64.
pub record Sized (heap : Heap) : Type 0 where
  pub few : heap.table.total < 2 ^ 31
  pub addressable : heap.saddr + heap.table.total * block_size < 2 ^ 64

-- heap_address_to_block takes the address of a block of the table back to its index.
pub heap_address_to_block-heap_block_to_address :
    (heap : Heap) (s : ℕ)
    → Sized heap
    → s ≤ heap.table.total
    → heap_address_to_block heap (heap_block_to_address heap s) ≡ s
unfolding heap_address_to_block heap_block_to_address
heap_address_to_block-heap_block_to_address heap s z h = omega arith

module _ (heap : Heap) (s n : ℕ) (z : Sized heap) (pos : 0 < n)
    (fits : s + n ≤ heap.table.total) where
  abbrev marked : Heap
  marked = heap_mark_blocks_taken heap s n

  abbrev entries : ℕ → ℕ
  entries = heap.table.entries

  marked_entry :
      (j : ℕ)
      → marked.table.entries j
        ≡ (if within s n j then (if j == s then first_entry n else later_entry) else entries j)
  marked_entry j = heap_mark_blocks_taken-entries heap s n j pos

  chained : 1 < n → (i : ℕ) → s ≤ i → i < s + n → HasNext marked.table.entries i
  chained many i lo hi = rw (marked_entry i) (ground arith)

  same_total : marked.table.total ≡ heap.table.total
  unfolding heap_mark_blocks_taken
  same_total = refl

  same_start : marked.saddr ≡ heap.saddr
  unfolding heap_mark_blocks_taken
  same_start = refl

  small : marked.table.total < 2 ^ 31
  small = rw same_total z.few

  abbrev Clear : Type 0
  Clear = (j : ℕ) → s ≤ j → j < s + n → entries j ≡ 0

  restored_one :
      Clear → n ≡ 1 → (j : ℕ) → (heap_mark_blocks_free marked s).table.entries j ≡ entries j
  restored_one clear one j =
      rw
        (heap_mark_blocks_free-chain marked s 0 j small (rw same_total (omega arith))
          (λ i lo hi. absurd (omega arith)) (rw (marked_entry (s + 0)) (ground arith)))
        (ground (arith, marked_entry j, clear j))

  restored_end :
      Clear
      → 1 < n
      → s + n ≡ heap.table.total
      → (j : ℕ) → (heap_mark_blocks_free marked s).table.entries j ≡ entries j
  restored_end clear many end j =
      rw
        (heap_mark_blocks_free-rest marked s j small (rw same_total (omega arith))
          (λ i lo hi. chained many i lo (rw end (rw same_total at hi))))
        (ground (arith, marked_entry j, clear j, same_total))

  restored_gap :
      Clear
      → 1 < n
      → s + n < heap.table.total
      → entries (s + n) ≡ 0
      → (j : ℕ) → (heap_mark_blocks_free marked s).table.entries j ≡ entries j
  restored_gap clear many lt gap j =
      rw
        (heap_mark_blocks_free-chain marked s n j small (rw same_total lt) (chained many)
          (rw (marked_entry (s + n)) (ground arith)))
        (ground (arith, marked_entry j, clear j))

  -- Entries that were 0 before are 0 again after.
  pub restored :
      Clear
      → (n ≡ 1) ⊎ (s + n ≡ heap.table.total) ⊎ (entries (s + n) ≡ 0)
      → (j : ℕ) → (heap_mark_blocks_free marked s).table.entries j ≡ entries j
  restored clear end j = elim (Bool-cases (ltb 1 n)) [
    | inr one ↦ restored_one clear (ground arith) j
    | inl many ↦ elim (Bool-cases (ltb (s + n) heap.table.total)) [
      | inl lt ↦ restored_gap clear (ground arith) (ground arith) (ground arith) j
      | inr at ↦ restored_end clear (ground arith) (ground arith) j
    ]
  ]

  swallowed :
      1 < n → s + n < heap.table.total → (heap_mark_blocks_free marked s).table.entries (s + n) ≡ 0
  swallowed many lt =
      heap_mark_blocks_free-reaches marked s n small (rw same_total lt) (chained many)

pub block_back :
    (h : Heap) (a s : ℕ)
    → h.saddr ≡ a
    → s < 2 ^ 31
    → a + s * block_size < 2 ^ 64
    → heap_address_to_block h (a + s * block_size) ≡ s
unfolding heap_address_to_block
block_back h a s e lt bound = omega arith

module _ (heap : Heap) (size s n : ℕ) where
  freed :
      Sized heap
      → blocks_of size ≡ n
      → 0 < n
      → heap_get_start_block heap n ≡ ok s
      → s + n ≤ heap.table.total
      → heap_free (heap_malloc heap size).1 (heap_malloc heap size).0
        ≡ heap_mark_blocks_free (heap_mark_blocks_taken heap s n) s
  unfolding heap_free
  freed z same pos e fits = rw (malloc-ok heap size s (rw same e)) (
      rw same (
        ap (heap_mark_blocks_free (heap_mark_blocks_taken heap s n)) (
          block_back (heap_mark_blocks_taken heap s n) heap.saddr s (same_start heap s n z pos fits)
            (omega arith) (omega arith))))

  -- Freeing what heap_malloc just returned gives back the old table, on a heap of fewer than 2 ^ 31
  -- blocks that lies below 2 ^ 64: for a run inside the table whose entries were 0, if it is one block, or ends the table, or is followed by an entry 0.
  pub heap_free-heap_malloc :
      Sized heap
      → blocks_of size ≡ n
      → 0 < n
      → heap_get_start_block heap n ≡ ok s
      → s + n ≤ heap.table.total
      → ((j : ℕ) → s ≤ j → j < s + n → heap.table.entries j ≡ 0)
      → (n ≡ 1) ⊎ (s + n ≡ heap.table.total) ⊎ (heap.table.entries (s + n) ≡ 0)
      → (j : ℕ)
      → (heap_free (heap_malloc heap size).1 (heap_malloc heap size).0).table.entries j
        ≡ heap.table.entries j
  heap_free-heap_malloc z same pos e fits clear end j =
      rw (freed z same pos e fits) (restored heap s n z pos fits clear end j)

  -- Freeing an allocation of two or more blocks also clears the entry of the block behind it,
  -- whoever holds that block: the last block of the allocation carries the next-block flag.
  pub heap_free-swallows :
      Sized heap
      → blocks_of size ≡ n
      → 1 < n
      → heap_get_start_block heap n ≡ ok s
      → s + n < heap.table.total
      → (heap_free (heap_malloc heap size).1 (heap_malloc heap size).0).table.entries (s + n) ≡ 0
  heap_free-swallows z same many e lt =
      rw (freed z same (omega arith) e (omega arith))
        (swallowed heap s n z (omega arith) (omega arith) many lt)
