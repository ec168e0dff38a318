-- ===== src/Heap/Mark.antt =====
-- What heap_mark_blocks_taken and heap_mark_blocks_free write, entry by entry.
use synapse_kernel.Prelude.{
  ℕ, zero, suc, ◌+◌, ◌-◌, ◌/◌, ◌%◌, ◌^◌, ◌≤◌, ◌<◌, ◌≡◌, arith, Bool, ltb, ◌==◌, Bool-cases, inl,
  inr, eq_of_==, if◌then◌else◌, update, ◌&&◌, not,
}
use native.Mathlib.Nat.{mod-eq_of_lt}
use synapse_kernel.Heap.{
  Entries, Heap, mark_taken_loop, heap_mark_blocks_taken, mark_free_loop, heap_mark_blocks_free,
  free_rounds,
}

-- The entry of a later block of an allocation: taken, with the next-block flag.
abbrev pub later_entry : ℕ
later_entry = 0x81

-- The entry of the first block of an allocation of `n` blocks.
abbrev pub first_entry : ℕ → ℕ
first_entry n = if ltb 1 n then 0xC1 else 0x41

-- `s ≤ j < s + n`
abbrev pub within : ℕ → ℕ → ℕ → Bool
within s n j = not (ltb j s) && ltb j (s + n)

taken_loop :
    (k i end entry : ℕ) (e : Entries) (j : ℕ)
    → i + k ≡ end + 1
    → mark_taken_loop k i end entry e j
      ≡ (if within i k j then (if j == i then entry else later_entry) else e j)
unfolding mark_taken_loop
taken_loop zero i end entry e j h = ground arith
taken_loop (suc k) i end entry e j h =
    ground
      (arith, taken_loop k (i + 1) end (if i == end then 1 else later_entry) (update e i entry) j)

-- heap_mark_blocks_taken of at least one block.
pub heap_mark_blocks_taken-entries :
    (heap : Heap) (s n j : ℕ)
    → 0 < n
    → (heap_mark_blocks_taken heap s n).table.entries j ≡ (
        if within s n j
        then (if j == s then first_entry n else later_entry)
        else heap.table.entries j)
unfolding heap_mark_blocks_taken
heap_mark_blocks_taken-entries heap s n j pos =
    ground (arith, taken_loop n s (s + n - 1) (first_entry n) heap.table.entries j)

abbrev pub HasNext : Entries → ℕ → Type 0
HasNext e i = e i / 128 % 2 ≡ 1

free_stop : (k p : ℕ) (e : Entries) → e p / 128 % 2 ≡ 0 → mark_free_loop (suc k) p e ≡ update e p 0
unfolding mark_free_loop
free_stop k p e h = rw h

free_next :
    (k p : ℕ) (e : Entries)
    → p + 1 < 2 ^ 32
    → HasNext e p
    → mark_free_loop (suc k) p e ≡ mark_free_loop k (p + 1) (update e p 0)
unfolding mark_free_loop
free_next k p e b h = rw h (rw (mod-eq_of_lt b))

-- A chain of flagged entries that ends at an entry with no flag.
free_chain :
    (m k p : ℕ) (e : Entries) (j : ℕ)
    → p + k < 2 ^ 32
    → m < k
    → ((i : ℕ) → p ≤ i → i < p + m → HasNext e i)
    → e (p + m) / 128 % 2 ≡ 0
    → mark_free_loop k p e j ≡ (if within p (m + 1) j then 0 else e j)
free_chain m zero p e j bound lt chain last = absurd (omega arith)
free_chain zero (suc k) p e j bound lt chain last =
    rw (free_stop k p e (let at : p + 0 ≡ p = omega arith in rw at at last)) (ground arith)
free_chain (suc m) (suc k) p e j bound lt chain last =
    rw (free_next k p e (omega arith) (chain p (omega arith) (omega arith))) (
      ground
        (arith, free_chain m k (p + 1) (update e p 0) j (omega arith) (omega arith) chain' last'))
  where
    chain' : (i : ℕ) → p + 1 ≤ i → i < p + 1 + m → HasNext (update e p 0) i
    chain' i lo hi = ground (arith, chain i)

    last' : update e p 0 (p + 1 + m) / 128 % 2 ≡ 0
    last' = let at : p + suc m ≡ p + 1 + m = omega arith in ground (arith, rw at at last)

-- A chain that runs to the end of the table.
free_rest :
    (k p : ℕ) (e : Entries) (j : ℕ)
    → p + k < 2 ^ 32
    → ((i : ℕ) → p ≤ i → i < p + k → HasNext e i)
    → mark_free_loop k p e j ≡ (if within p k j then 0 else e j)
unfolding mark_free_loop
free_rest zero p e j bound chain = ground arith
free_rest (suc k) p e j bound chain =
    rw (free_next k p e (omega arith) (chain p (omega arith) (omega arith)))
      (ground (arith, free_rest k (p + 1) (update e p 0) j (omega arith) chain'))
  where
    chain' : (i : ℕ) → p + 1 ≤ i → i < p + 1 + k → HasNext (update e p 0) i
    chain' i lo hi = ground (arith, chain i)

-- heap_mark_blocks_free at a non-negative index.
pub heap_mark_blocks_free-chain :
    (heap : Heap) (p m j : ℕ)
    → heap.table.total < 2 ^ 31
    → p + m < heap.table.total
    → ((i : ℕ) → p ≤ i → i < p + m → HasNext heap.table.entries i)
    → heap.table.entries (p + m) / 128 % 2 ≡ 0
    → (heap_mark_blocks_free heap p).table.entries j
      ≡ (if within p (m + 1) j then 0 else heap.table.entries j)
unfolding heap_mark_blocks_free free_rounds
heap_mark_blocks_free-chain heap p m j small lt chain last =
    let rounds : (if ltb p (2 ^ 31) then heap.table.total - p else heap.table.total + (2 ^ 32 - p))
        ≡ heap.table.total - p =
      ground arith in
    rw rounds (
      free_chain m (heap.table.total - p) p heap.table.entries j (omega arith) (omega arith) chain
        last)

pub heap_mark_blocks_free-rest :
    (heap : Heap) (p j : ℕ)
    → heap.table.total < 2 ^ 31
    → p ≤ heap.table.total
    → ((i : ℕ) → p ≤ i → i < heap.table.total → HasNext heap.table.entries i)
    → (heap_mark_blocks_free heap p).table.entries j
      ≡ (if within p (heap.table.total - p) j then 0 else heap.table.entries j)
unfolding heap_mark_blocks_free free_rounds
heap_mark_blocks_free-rest heap p j small lt chain =
    let rounds : (if ltb p (2 ^ 31) then heap.table.total - p else heap.table.total + (2 ^ 32 - p))
        ≡ heap.table.total - p =
      ground arith in
    rw rounds (
      free_rest (heap.table.total - p) p heap.table.entries j (omega arith)
        (λ i lo hi. chain i lo (omega arith)))

-- The loop only clears entries.
free_keeps_zero : (k p : ℕ) (e : Entries) (j : ℕ) → e j ≡ 0 → mark_free_loop k p e j ≡ 0
unfolding mark_free_loop
free_keeps_zero zero p e j z = z
free_keeps_zero (suc k) p e j z =
    ground (arith, free_keeps_zero k ((p + 1) % 2 ^ 32) (update e p 0) j)

free_reaches :
    (m k p : ℕ) (e : Entries)
    → p + k < 2 ^ 32
    → m < k
    → ((i : ℕ) → p ≤ i → i < p + m → HasNext e i)
    → mark_free_loop k p e (p + m) ≡ 0
free_reaches m zero p e bound lt chain = absurd (omega arith)
free_reaches zero (suc k) p e bound lt chain = elim (Bool-cases (e p / 128 % 2 == 0)) [
  | inl stop ↦ rw (free_stop k p e (eq_of_== _ _ stop)) (ground arith)
  | inr more ↦
      rw (free_next k p e (omega arith) (ground arith))
        (free_keeps_zero k (p + 1) (update e p 0) (p + 0) (ground arith))
]
free_reaches (suc m) (suc k) p e bound lt chain =
    rw (free_next k p e (omega arith) (chain p (omega arith) (omega arith))) (
      let at : p + suc m ≡ p + 1 + m = omega arith in
      rw at (
        free_reaches m k (p + 1) (update e p 0) (omega arith) (omega arith)
          (λ i lo hi. ground (arith, chain i))))

pub heap_mark_blocks_free-reaches :
    (heap : Heap) (p m : ℕ)
    → heap.table.total < 2 ^ 31
    → p + m < heap.table.total
    → ((i : ℕ) → p ≤ i → i < p + m → HasNext heap.table.entries i)
    → (heap_mark_blocks_free heap p).table.entries (p + m) ≡ 0
unfolding heap_mark_blocks_free free_rounds
heap_mark_blocks_free-reaches heap p m small lt chain =
    let rounds : (if ltb p (2 ^ 31) then heap.table.total - p else heap.table.total + (2 ^ 32 - p))
        ≡ heap.table.total - p =
      ground arith in
    rw rounds
      (free_reaches m (heap.table.total - p) p heap.table.entries (omega arith) (omega arith) chain)
