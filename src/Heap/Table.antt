-- ===== src/Heap/Table.antt =====
-- The shape of a block table that allocation and release keep.
use synapse_kernel.Prelude.{
  ℕ, zero, suc, ◌+◌, ◌-◌, ◌*◌, ◌/◌, ◌%◌, ◌^◌, ◌≤◌, ◌<◌, ◌≡◌, ◌≢◌, ◌⊎◌, inl, inr, arith, ◌==◌, true,
  if◌then◌else◌, Bool-cases, Result-cases, eq_of_==,
}
use synapse_kernel.Heap.{
  Entries, Heap, heap_malloc, heap_free, heap_get_start_block, heap_address_to_block,
  heap_mark_blocks_taken, heap_mark_blocks_free, block_size,
}
use synapse_kernel.Heap.Scan.{heap_get_start_block-free}
use synapse_kernel.Heap.Mark.{
  first_entry, later_entry, within, HasNext, heap_mark_blocks_taken-entries,
  heap_mark_blocks_free-chain, heap_mark_blocks_free-rest,
}
use synapse_kernel.Heap.Alloc.{blocks_of, malloc-ok, malloc-err}
use synapse_kernel.Heap.Free.{Sized}

-- Free, the only block of an allocation, the first of several, or a later one.
abbrev pub IsEntry : ℕ → Type 0
IsEntry v = (v ≡ 0) ⊎ (v ≡ 0x41) ⊎ (v ≡ 0xC1) ⊎ (v ≡ later_entry)

-- Each entry is one of these, and a later block stands behind a flagged one.
pub record IsTable (total : ℕ) (e : Entries) : Type 0 where
  pub values : (j : ℕ) → j < total → IsEntry (e j)
  pub starts : 0 < total → e 0 ≢ later_entry
  pub linked : (j : ℕ) → suc j < total → e (suc j) ≡ later_entry → HasNext e j

module _ (total : ℕ) (e f : Entries) (v : IsTable total e) where
  -- Marking a run of free blocks.
  taken-IsTable :
      (s n : ℕ)
      → 0 < n
      → ((j : ℕ) → s ≤ j → j < s + n → j < total → e j % 16 ≡ 0)
      → ((j : ℕ)
          → f j ≡ (if within s n j then (if j == s then first_entry n else later_entry) else e j))
      → IsTable total f
  taken-IsTable s n pos free f= = record {
    values = λ j lt. ground (arith, f= j, v.values j lt);
    starts = λ p. ground (arith, f= 0, v.starts p);
    linked = λ j lt is. ground (arith, f= j, f= (suc j), v.linked j lt, v.values j, free j);
  }

  -- Clearing a chain of blocks with the block that ends it.
  cleared-IsTable :
      (p m : ℕ)
      → e (p + m) / 128 % 2 ≡ 0
      → ((j : ℕ) → f j ≡ (if within p (m + 1) j then 0 else e j))
      → IsTable total f
  cleared-IsTable p m last f= = record {
    values = λ j lt. ground (arith, f= j, v.values j lt);
    starts = λ h. ground (arith, f= 0, v.starts h);
    linked = λ j lt is. ground (arith, f= j, f= (suc j), v.linked j lt, last);
  }

  rest-IsTable :
      (p : ℕ)
      → p ≤ total
      → ((j : ℕ) → f j ≡ (if within p (total - p) j then 0 else e j))
      → IsTable total f
  rest-IsTable p le f= = record {
    values = λ j lt. ground (arith, f= j, v.values j lt);
    starts = λ h. ground (arith, f= 0, v.starts h);
    linked = λ j lt is. ground (arith, f= j, f= (suc j), v.linked j lt);
  }

-- From `p` on the flagged entries end at an entry with no flag, or run through all `k`.
chain_cases :
    (e : Entries) (k p : ℕ)
    → ((m : ℕ) × (m < k) × ((i : ℕ) → p ≤ i → i < p + m → HasNext e i) × (e (p + m) / 128 % 2 ≡ 0))
      ⊎ ((i : ℕ) → p ≤ i → i < p + k → HasNext e i)
chain_cases e zero p = inr (λ i lo hi. absurd (omega arith))
chain_cases e (suc k) p = elim (Bool-cases (e p / 128 % 2 == 0)) [
  | inl stop ↦ inl (0, omega arith, (λ i lo hi. absurd (omega arith)), at_start stop)
  | inr more ↦ elim (chain_cases e k (p + 1)) [
    | inl (m, lt, chain, last) ↦ inl (
      m + 1,
      omega arith,
      (λ i lo hi. ground (arith, chain i)),
      let at : p + (m + 1) ≡ p + 1 + m = omega arith in rw at last,
    )
    | inr chain ↦ inr (λ i lo hi. ground (arith, chain i))
  ]
]
  where
    at_start : (e p / 128 % 2 == 0) ≡ true → e (p + 0) / 128 % 2 ≡ 0
    at_start h = let at : p + 0 ≡ p = omega arith in rw at (eq_of_== _ _ h)

offset_block :
    (heap : Heap) (offset : ℕ)
    → Sized heap
    → offset < heap.table.total * block_size
    → heap_address_to_block heap (heap.saddr + offset) ≡ offset / 4096
unfolding heap_address_to_block
offset_block heap offset z lt = omega arith

module _ (heap : Heap) (v : IsTable heap.table.total heap.table.entries) where
  -- heap_malloc of at least one block keeps the shape of the table, whether it succeeds, fails or
  -- overruns the table.
  pub heap_malloc-IsTable :
      (size : ℕ)
      → 0 < blocks_of size
      → IsTable (heap_malloc heap size).1.table.total (heap_malloc heap size).1.table.entries
  unfolding heap_mark_blocks_taken
  heap_malloc-IsTable size pos = elim (Result-cases (heap_get_start_block heap (blocks_of size))) [
    | inr (e, failed) ↦ rw (malloc-err heap size e failed) v
    | inl (s, hit) ↦ rw (malloc-ok heap size s hit) (
        taken-IsTable heap.table.total heap.table.entries
          (heap_mark_blocks_taken heap s (blocks_of size)).table.entries v s (blocks_of size) pos
          (heap_get_start_block-free heap (blocks_of size) pos s hit)
          (λ j. heap_mark_blocks_taken-entries heap s (blocks_of size) j pos))
  ]

  cleared :
      (p : ℕ)
      → heap.table.total < 2 ^ 31
      → p < heap.table.total
      → IsTable heap.table.total (heap_mark_blocks_free heap p).table.entries
  cleared p small lt = elim (chain_cases heap.table.entries (heap.table.total - p) p) [
    | inl (m, below, chain, last) ↦
        cleared-IsTable heap.table.total heap.table.entries
          (heap_mark_blocks_free heap p).table.entries v p m last
          (λ j. heap_mark_blocks_free-chain heap p m j small (omega arith) chain last)
    | inr chain ↦
        rest-IsTable heap.table.total heap.table.entries
          (heap_mark_blocks_free heap p).table.entries v p (omega arith)
          (λ j.
            heap_mark_blocks_free-rest heap p j small (omega arith)
              (λ i lo hi. chain i lo (omega arith)))
  ]

  -- heap_free of any address inside the heap keeps the shape of the table, also when the address
  -- is not the start of an allocation.
  pub heap_free-IsTable :
      Sized heap
      → (offset : ℕ) → offset < heap.table.total * block_size
      → IsTable heap.table.total (heap_free heap (heap.saddr + offset)).table.entries
  unfolding heap_free
  heap_free-IsTable z offset lt =
      let block : heap_address_to_block heap (heap.saddr + offset) ≡ offset / 4096 =
        offset_block heap offset z lt in
      rw block (cleared (offset / 4096) z.few (omega arith))
