-- ===== src/Pool/Init.antt =====
-- ai_memory_init on a heap that has nothing in use behind its first blocks.
use synapse_kernel.Prelude.{
  ℕ, zero, suc, ◌+◌, ◌-◌, ◌*◌, ◌≤◌, ◌<◌, ◌≡◌, ◌≢◌, refl, sym, ap, ap₂, ◌∙◌, arith, false, ◌==◌,
  Bool-cases, inl, inr, update, update_self, update_ne,
}
use synapse_kernel.Heap.{Heap, block_size, heap_align_value_to_upper}
use synapse_kernel.Heap.Alloc.{blocks_of}
use synapse_kernel.Heap.Kheap.{kmalloc}
use synapse_kernel.Heap.Prefix.{Prefix, kmalloc-Next}
use synapse_kernel.Task.{Ptr, null}
use synapse_kernel.Pool.{Pool, fill_from}

-- The pool `s` with other larger blocks and another heap.
abbrev pub refilled : Pool → Heap → (ℕ → Ptr) → (ℕ → ℕ) → ℕ → Pool
refilled s heap blocks sizes count = record s {
  heap = heap;
  free_block = blocks;
  free_block_size = sizes;
  free_block_count = count;
}

-- `rounds` blocks of 64 KiB, 16 blocks of the heap each, from its block `k` on, at the end of the list.
pub record Filled (s : Pool) (k rounds : ℕ) : Type 0 where
  pub heap : Heap
  pub blocks : ℕ → Ptr
  pub sizes : ℕ → ℕ
  pub made :
      (a : ℕ)
      → fill_from rounds a s
        ≡ (a + rounds, refilled s heap blocks sizes (s.free_block_count + rounds))
  pub prefix : Prefix heap (k + 16 * rounds)
  pub same_total : heap.table.total ≡ s.heap.table.total
  pub same_saddr : heap.saddr ≡ s.heap.saddr
  pub old : (i : ℕ) → i < s.free_block_count → blocks i ≡ s.free_block i
  pub old_size : (i : ℕ) → i < s.free_block_count → sizes i ≡ s.free_block_size i
  pub new :
      (j : ℕ)
      → j < rounds
      → blocks (s.free_block_count + j) ≡ s.heap.saddr + (k + 16 * j) * block_size
  pub new_size : (j : ℕ) → j < rounds → sizes (s.free_block_count + j) ≡ 64 * 1024

large_blocks : blocks_of (64 * 1024) ≡ 16
unfolding heap_align_value_to_upper
large_blocks = refl

-- The pool after one round.
abbrev one_more : Pool → Pool
one_more s =
    let (block, heap) = kmalloc (64 * 1024) s.heap in
    refilled s heap (update s.free_block s.free_block_count block)
      (update s.free_block_size s.free_block_count (64 * 1024)) (s.free_block_count + 1)

fill_round :
    (rounds a : ℕ) (s : Pool)
    → (kmalloc (64 * 1024) s.heap).0 ≢ null
    → fill_from (suc rounds) a s ≡ fill_from rounds (a + 1) (one_more s)
unfolding fill_from
fill_round rounds a s ne =
    let given : ((kmalloc (64 * 1024) s.heap).0 == null) ≡ false = ground (arith, ne) in
    rw (given, fill_from) refl

fill_none : (a : ℕ) (s : Pool) → fill_from zero a s ≡ (a, s)
unfolding fill_from
fill_none a s = refl

pub fill_from-Filled :
    (rounds k : ℕ) (s : Pool)
    → Prefix s.heap k
    → k + 16 * rounds ≤ s.heap.table.total
    → 0 < s.heap.saddr
    → Filled s k rounds
fill_from-Filled zero k s prefix hi pos = record {
  heap = s.heap;
  blocks = s.free_block;
  sizes = s.free_block_size;
  made = λ a.
      fill_none a s
      ∙ ap₂ (λ b c. (b, record s { free_block_count = c })) (omega arith) (omega arith);
  prefix = rw (ends k) prefix;
  same_total = refl;
  same_saddr = refl;
  old = λ i lt. refl;
  old_size = λ i lt. refl;
  new = λ j lt. absurd (omega arith);
  new_size = λ j lt. absurd (omega arith);
}
  where
    ends : (k : ℕ) → k + 16 * 0 ≡ k
    ends k = omega arith
fill_from-Filled (suc rounds) k s prefix hi pos =
    let next =
      kmalloc-Next s.heap k 16 (64 * 1024) prefix large_blocks (omega arith) (omega arith) in
    let total = next.same_total in
    let saddr = next.same_saddr in
    let at = next.address in
    let rest =
      fill_from-Filled rounds (k + 16) (one_more s) next.prefix (omega arith) (omega arith) in
    let moved : k + 16 + 16 * rounds ≡ k + 16 * suc rounds = omega arith in
    let c = s.free_block_count in
    record {
      heap = rest.heap;
      blocks = rest.blocks;
      sizes = rest.sizes;
      made = λ a.
          fill_round rounds a s (λ z. omega arith)
          ∙ rest.made (a + 1)
          ∙ ap₂ (λ b n. (b, refilled s rest.heap rest.blocks rest.sizes n)) (omega arith)
              (omega arith);
      prefix = rw (sym moved) rest.prefix;
      same_total = rest.same_total ∙ total;
      same_saddr = rest.same_saddr ∙ saddr;
      old = λ i lt. rest.old i (omega arith) ∙ update_ne s.free_block c i _ (λ e. omega arith);
      old_size = λ i lt.
          rest.old_size i (omega arith) ∙ update_ne s.free_block_size c i _ (λ e. omega arith);
      new = λ j lt. elim (Bool-cases (j == 0)) [
        | inl z ↦
            let first : c + j ≡ c = ground arith in
            let index : k + 16 * j ≡ k = ground arith in
            rw (first, index) (rest.old c (omega arith) ∙ update_self s.free_block c _ ∙ at)
        | inr z ↦
            let later : c + j ≡ c + 1 + (j - 1) = ground arith in
            let index : k + 16 + 16 * (j - 1) ≡ k + 16 * j = ground arith in
            ap rest.blocks later
            ∙ rest.new (j - 1) (ground arith)
            ∙ ap₂ (λ a m. a + m * block_size) saddr index
      ];
      new_size = λ j lt. elim (Bool-cases (j == 0)) [
        | inl z ↦
            let first : c + j ≡ c = ground arith in
            rw first (rest.old_size c (omega arith) ∙ update_self s.free_block_size c _)
        | inr z ↦
            let later : c + j ≡ c + 1 + (j - 1) = ground arith in
            ap rest.sizes later ∙ rest.new_size (j - 1) (ground arith)
      ];
    }
