-- ===== src/Heap/Prefix.antt =====
-- Allocations from a heap whose blocks in use stand at its start.
use synapse_kernel.Prelude.{
  ℕ, ◌+◌, ◌*◌, ◌%◌, ◌≤◌, ◌<◌, ◌≡◌, ◌≢◌, ap, ◌∙◌, arith, Bool-cases, inl, inr, eq_of_==, ◌==◌, ltb,
  ok, lt_of_ltb,
}
use synapse_kernel.Heap.{Heap, block_size, heap_get_start_block, heap_mark_blocks_taken}
use synapse_kernel.Heap.Kheap.{kmalloc}
use synapse_kernel.Heap.Alloc.{blocks_of, malloc-ok}
use synapse_kernel.Heap.Scan.{FreeRun, heap_get_start_block-finds}
use synapse_kernel.Heap.Mark.{heap_mark_blocks_taken-entries}

-- The first `k` blocks are in use, and the entries of the others are 0.
pub record Prefix (heap : Heap) (k : ℕ) : Type 0 where
  pub in_use : (j : ℕ) → j < k → heap.table.entries j % 16 ≢ 0
  pub unused : (j : ℕ) → k ≤ j → j < heap.table.total → heap.table.entries j ≡ 0

pub mark_taken-Prefix :
    (heap : Heap) (k n : ℕ)
    → 0 < n
    → Prefix heap k
    → Prefix (heap_mark_blocks_taken heap k n) (k + n)
unfolding heap_mark_blocks_taken
mark_taken-Prefix heap k n pos prefix = record {
  in_use = λ j lt e. elim (Bool-cases (ltb j k)) [
    | inl below ↦
        prefix.in_use j (lt_of_ltb j k below)
          (ground (arith, heap_mark_blocks_taken-entries heap k n j pos, e))
    | inr above ↦ ground (arith, heap_mark_blocks_taken-entries heap k n j pos, e)
  ];
  unused = λ j lo hi.
      ground
        (arith, heap_mark_blocks_taken-entries heap k n j pos, prefix.unused j (omega arith) hi);
}

-- The blocks of the next `n` are handed out.
pub record Next (heap : Heap) (k n : ℕ) (size : ℕ) : Type 0 where
  pub address : (kmalloc size heap).0 ≡ heap.saddr + k * block_size
  pub prefix : Prefix (kmalloc size heap).1 (k + n)
  pub same_total : (kmalloc size heap).1.table.total ≡ heap.table.total
  pub same_saddr : (kmalloc size heap).1.saddr ≡ heap.saddr

pub kmalloc-next :
    (heap : Heap) (k n size : ℕ)
    → Prefix heap k
    → blocks_of size ≡ n
    → 0 < n
    → k + n ≤ heap.table.total
    → kmalloc size heap ≡ (heap.saddr + k * block_size, heap_mark_blocks_taken heap k n)
unfolding kmalloc
kmalloc-next heap k n size prefix same pos hi =
    let run : FreeRun heap.table.entries k (k + n) =
      λ j lo lt. ground (arith, prefix.unused j lo (omega arith)) in
    let (s, e, low, fits, free) = heap_get_start_block-finds heap n pos k hi run in
    let first : s ≡ k = elim (Bool-cases (s == k)) [
      | inl at ↦ eq_of_== s k at
      | inr off ↦ absurd (prefix.in_use s (ground arith) (free s (omega arith) (omega arith)))
    ] in
    let at : heap_get_start_block heap (blocks_of size) ≡ ok k = rw same (e ∙ ap ok first) in
    malloc-ok heap size k at
    ∙ ap (λ m. (heap.saddr + k * block_size, heap_mark_blocks_taken heap k m)) same

pub kmalloc-Next :
    (heap : Heap) (k n size : ℕ)
    → Prefix heap k
    → blocks_of size ≡ n
    → 0 < n
    → k + n ≤ heap.table.total
    → Next heap k n size
unfolding heap_mark_blocks_taken
kmalloc-Next heap k n size prefix same pos hi =
    let m = kmalloc-next heap k n size prefix same pos hi in
    record {
      address = ap (λ q. q.0) m;
      prefix = rw m (mark_taken-Prefix heap k n pos prefix);
      same_total = ap (λ q. q.1.table.total) m;
      same_saddr = ap (λ q. q.1.saddr) m;
    }
