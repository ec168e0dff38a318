-- ===== src/Heap/Single.antt =====
-- Allocations of one block each, as changes of one entry, and what is left when all are freed.
use synapse_kernel.Prelude.{
  Bool-cases, ℕ, ◌+◌, ◌*◌, ◌%◌, ◌/◌, ◌≤◌, ◌<◌, ◌≡◌, refl, ap, ◌∙◌, arith, fun_ext, inl, inr, ◌⊎◌,
  update, ltb,
}
use synapse_kernel.Heap.{
  Heap, Entries, block_size, mark_taken_loop, heap_free, heap_mark_blocks_taken,
  heap_mark_blocks_free,
}
use synapse_kernel.Heap.Kheap.{kmalloc, kfree}
use synapse_kernel.Heap.Alloc.{blocks_of}
use synapse_kernel.Heap.Free.{Sized, block_back, restored}
use synapse_kernel.Heap.Mark.{heap_mark_blocks_free-chain}
use synapse_kernel.Heap.Prefix.{Prefix, kmalloc-next}

-- The heap with other entries.
abbrev pub with_entries : Heap → Entries → Heap
with_entries heap entries = record heap { table = record (heap.table) { entries = entries } }

-- The heap with one entry changed.
abbrev pub with_entry : Heap → ℕ → ℕ → Heap
with_entry heap p v = with_entries heap (update heap.table.entries p v)

abbrev pub address_of : Heap → ℕ → ℕ
address_of heap k = heap.saddr + k * block_size

marked_one : (heap : Heap) (k : ℕ) → heap_mark_blocks_taken heap k 1 ≡ with_entry heap k 0x41
unfolding heap_mark_blocks_taken mark_taken_loop
marked_one heap k = refl

-- An allocation of one block behind the first `k`.
pub kmalloc-single :
    (heap : Heap) (k size : ℕ)
    → Prefix heap k
    → blocks_of size ≡ 1
    → k < heap.table.total
    → kmalloc size heap ≡ (address_of heap k, with_entry heap k 0x41)
kmalloc-single heap k size prefix same lt =
    kmalloc-next heap k 1 size prefix same (omega arith) (omega arith)
    ∙ ap (λ h. (address_of heap k, h)) (marked_one heap k)

pub with_entry-Prefix :
    (heap : Heap) (k : ℕ) → Prefix heap k → Prefix (with_entry heap k 0x41) (k + 1)
with_entry-Prefix heap k prefix = record {
  in_use = λ j lt. ground (arith, prefix.in_use j);
  unused = λ j lo hi. ground (arith, prefix.unused j);
}

-- The release of a block whose entry has no next-block flag.
pub kfree-single :
    (heap : Heap) (p : ℕ)
    → Sized heap
    → p < heap.table.total
    → heap.table.entries p / 128 % 2 ≡ 0
    → kfree (address_of heap p) heap ≡ with_entry heap p 0
unfolding kfree heap_free heap_mark_blocks_free
kfree-single heap p z lt last =
    let few = z.few in
    let space = z.addressable in
    let at = block_back heap heap.saddr p refl (omega arith) (omega arith) in
    let same : p + 0 ≡ p = omega arith in
    let entries : (heap_mark_blocks_free heap p).table.entries ≡ update heap.table.entries p 0 =
      fun_ext (λ j.
        heap_mark_blocks_free-chain heap p 0 j few (omega arith) (λ i lo hi. absurd (omega arith))
          (rw same last)
        ∙ ground arith) in
    rw at (ap (with_entries heap) entries)

-- A heap whose blocks in use stand at its start is the same after an allocation and its release.
pub kfree-kmalloc :
    (heap : Heap) (k n size : ℕ)
    → Sized heap
    → Prefix heap k
    → blocks_of size ≡ n
    → 0 < n
    → k + n ≤ heap.table.total
    → kfree (kmalloc size heap).0 (kmalloc size heap).1 ≡ heap
unfolding kfree heap_free heap_mark_blocks_free heap_mark_blocks_taken
kfree-kmalloc heap k n size z prefix same pos fits =
    let few = z.few in
    let space = z.addressable in
    let end : (n ≡ 1) ⊎ (k + n ≡ heap.table.total) ⊎ (heap.table.entries (k + n) ≡ 0) =
      elim (Bool-cases (ltb (k + n) heap.table.total)) [
        | inl lt ↦ inr (inr (prefix.unused (k + n) (omega arith) (ground arith)))
        | inr at ↦ inr (inl (ground arith))
      ] in
    let at =
      block_back (heap_mark_blocks_taken heap k n) heap.saddr k refl (omega arith) (omega arith) in
    rw (kmalloc-next heap k n size prefix same pos fits) (
      rw at (
        ap (with_entries heap) (
          fun_ext
            (restored heap k n z pos fits (λ j lo hi. prefix.unused j lo (omega arith)) end))))
