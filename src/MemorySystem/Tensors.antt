-- ===== src/MemorySystem/Tensors.antt =====
-- memory_test_ai_memory: a tensor of four elements, made and destroyed.
use synapse_kernel.Prelude.{
  ℕ, ◌+◌, ◌*◌, ◌%◌, ◌^◌, ◌≤◌, ◌<◌, ◌≡◌, ◌≢◌, ◌-◌, refl, ap, ◌∙◌, arith, eok, ◌==◌, Bool, true,
  false, not, ◌||◌, ◌&&◌, FirstIndex, some, bit, Bool-cases, inl, inr, eq_of_==, ==_ne, ==_self,
  ==_ne, ==_self, ==_ne, ==_self,
}
use synapse_kernel.Heap.{heap_align_value_to_upper}
use synapse_kernel.Heap.Kheap.{kmalloc}
use synapse_kernel.Heap.Alloc.{blocks_of}
use synapse_kernel.Heap.Free.{Sized}
use synapse_kernel.Heap.Prefix.{Prefix}
use synapse_kernel.Heap.Single.{address_of}
use synapse_kernel.Heap.Three.{taken₁, taken₂, taken₃, malloc₁, malloc₂, malloc₃, first_last}
use synapse_kernel.Task.{null}
use synapse_kernel.Pool.{Pool, is_used, is_unused, ai_memory_alloc, ai_memory_free}
use synapse_kernel.Pool.Small.{
  Placed, taken, given_back, block_address, alloc_small_block-first, free_small_block-used,
  is_used-taken, is_used-given_back,
}
use synapse_kernel.Tensor.{
  Tensor, tensor_size, tensor_type_float32, alignment_of, ai_tensor_get_elem_size, total_elems,
  elems_from, ai_tensor_destroy, ai_tensor_create, zeroed,
}
use synapse_kernel.Tensor.Making.{
  heap₁, heap₂, asked, data_size, Valid, Granted, stepped, ai_tensor_create-made,
}
use synapse_kernel.MemorySystem.{memory_test_ai_memory}

one_block : (blocks_of tensor_size ≡ 1) × (blocks_of (1 * 8 % 2 ^ 64) ≡ 1)
unfolding heap_align_value_to_upper
one_block = (refl, refl)

abbrev dim : ℕ → ℕ
dim i = 4

bytes : data_size dim 1 tensor_type_float32 ≡ 16
unfolding total_elems elems_from ai_tensor_get_elem_size
bytes = refl

-- The pool has the same memory in use and the same memory free, and one more call of each kind.
pub record TurnedOver (s s' : Pool) : Type 0 where
  pub heap : s'.heap ≡ s.heap
  pub used : (j : ℕ) → is_used s' j ≡ is_used s j
  pub used_size : s'.used_size ≡ s.used_size
  pub blocks : s'.free_block ≡ s.free_block
  pub sizes : s'.free_block_size ≡ s.free_block_size
  pub count : s'.free_block_count ≡ s.free_block_count
  pub allocations : s'.allocations ≡ (s.allocations + 1) % 2 ^ 64
  pub deallocations : s'.deallocations ≡ (s.deallocations + 1) % 2 ^ 64

module _ (stale : ℕ → ℕ) (s : Pool) (byte : ℕ → ℕ) (k i : ℕ) (z : Sized s.heap)
    (prefix : Prefix s.heap k) (fits : k + 3 ≤ s.heap.table.total) (pos : 0 < s.heap.saddr)
    (placed : Placed s) (f : FirstIndex s.small_block_count 0 (is_unused s) i) where
  first : kmalloc tensor_size s.heap ≡ (address_of s.heap k, taken₁ s.heap k)
  first = malloc₁ s.heap k tensor_size 8 8 z prefix fits one_block.0 one_block.1 one_block.1

  second : kmalloc 8 (taken₁ s.heap k) ≡ (address_of s.heap (k + 1), taken₂ s.heap k)
  second = malloc₂ s.heap k tensor_size 8 8 z prefix fits one_block.0 one_block.1 one_block.1

  third : kmalloc 8 (taken₂ s.heap k) ≡ (address_of s.heap (k + 2), taken₃ s.heap k)
  third = malloc₃ s.heap k tensor_size 8 8 z prefix fits one_block.0 one_block.1 one_block.1

  first_heap : heap₁ s ≡ taken₁ s.heap k
  first_heap = ap (λ r. r.1) first

  second_heap : heap₂ 1 s ≡ taken₂ s.heap k
  second_heap = ap (λ h. (kmalloc 8 h).1) first_heap ∙ ap (λ r. r.1) second

  -- The pool when the data are asked for.
  abbrev t : Pool
  t = record s { heap = taken₃ s.heap k }

  asked-t : asked 1 s ≡ t
  asked-t =
      ap (λ h. record s { heap = h }) (ap (λ h. (kmalloc 8 h).1) second_heap ∙ ap (λ r. r.1) third)

  t-Placed : Placed t
  t-Placed = record { base_ne = placed.base_ne; space = placed.space }

  data_given : ai_memory_alloc 16 8 t ≡ (block_address s i, taken i t)
  unfolding ai_memory_alloc
  data_given = alloc_small_block-first t t-Placed i f

  address_ne : block_address s i ≢ null
  address_ne e = placed.base_ne (omega arith)

  shape_at : (kmalloc (1 * 8 % 2 ^ 64) (heap₁ s)).0 ≡ address_of s.heap (k + 1)
  shape_at = ap (λ h. (kmalloc 8 h).0) first_heap ∙ ap (λ r. r.0) second

  strides_at : (kmalloc (1 * 8 % 2 ^ 64) (heap₂ 1 s)).0 ≡ address_of s.heap (k + 2)
  strides_at = ap (λ h. (kmalloc 8 h).0) second_heap ∙ ap (λ r. r.0) third

  data_at :
      ai_memory_alloc
        (data_size dim 1 tensor_type_float32)
        (alignment_of tensor_type_float32 1)
        (asked 1 s)
      ≡ (block_address s i, taken i t)
  unfolding bit
  data_at = rw (bytes, asked-t) data_given

  granted : Granted 1 (data_size dim 1 tensor_type_float32) (alignment_of tensor_type_float32 1) s
  granted = record {
    descriptor = rw first (λ e. omega arith);
    shape = rw shape_at (λ e. omega arith);
    strides = rw strides_at (λ e. omega arith);
    bytes = rw data_at address_ne;
  }

  valid : Valid dim 1 tensor_type_float32
  valid = record {
    some_dim = omega arith;
    few = omega arith;
    words = λ j lt. omega arith;
    typed = omega arith;
  }

  -- The release of the block.
  data_back : ai_memory_free (block_address s i) (taken i t) ≡ (eok, given_back i (taken i t))
  unfolding ai_memory_free
  data_back =
      let below = f.below in
      let placed' : Placed (taken i t) = record {
        base_ne = placed.base_ne;
        space = placed.space;
      } in
      let used : is_used (taken i t) i ≡ true = rw (is_used-taken i i t, ==_self i) refl in
      let freed =
        free_small_block-used (taken i t) placed' (block_address s i) i (omega arith) (omega arith)
          (omega arith) in
      rw (==_ne (block_address s i) null address_ne, freed, used) (rw (freed, used) refl)

  abbrev made : Tensor
  made = record (stepped dim 1 tensor_type_float32 0 1 stale s byte valid granted) {
    data_ptr = block_address s i;
  }

  destroyed :
      ai_tensor_destroy (some made) (taken i t)
      ≡ (eok, record (given_back i (taken i t)) { heap = s.heap })
  unfolding ai_tensor_destroy
  destroyed =
      let a : (address_of s.heap (k + 1) == null) ≡ false = ground arith in
      let b : (address_of s.heap (k + 2) == null) ≡ false = ground arith in
      rw (==_ne (block_address s i) null address_ne, data_back, shape_at, strides_at, a, b, first)
        (ap (λ h. (eok, record (given_back i (taken i t)) { heap = h }))
          (first_last s.heap k tensor_size 8 8 z prefix fits one_block.0 one_block.1 one_block.1))

  created :
      ai_tensor_create (some dim) 1 tensor_type_float32 0 1 stale s byte
      ≡ (some made, taken i t, zeroed (block_address s i) 16 byte)
  unfolding bit
  created =
      ai_tensor_create-made dim 1 tensor_type_float32 0 1 stale s byte valid granted
      ∙ ap
          (λ q. (
            some (record (stepped dim 1 tensor_type_float32 0 1 stale s byte valid granted) {
              data_ptr = q.0;
            }),
            q.1,
            zeroed q.0 (data_size dim 1 tensor_type_float32) byte,
          ))
          data_at
      ∙ ap (λ n. (some made, taken i t, zeroed (block_address s i) n byte)) bytes

  same_used : (j : ℕ) → is_used (given_back i (taken i t)) j ≡ is_used s j
  same_used j =
      rw (is_used-given_back i j (taken i t), is_used-taken i j t)
        (elim (Bool-cases (i == j)) [
          | inl e ↦
              rw e (cleared (is_used s i) (is_used s j) f.passes (ap (is_used s) (eq_of_== i j e)))
          | inr e ↦ rw e (kept (is_used s j))
        ])
    where
      kept : (u : Bool) → ((false || u) && not false) ≡ u
      kept u = ground arith

      cleared : (u v : Bool) → not u ≡ true → u ≡ v → ((true || v) && not true) ≡ v
      cleared u v h e = ground arith

  -- The test of the pool passes.
  pub memory_test_ai_memory-passes :
      s.used_size < 2 ^ 64 - 64
      → let (res, s', _) = memory_test_ai_memory stale s byte in (res ≡ eok) × TurnedOver s s'
  unfolding memory_test_ai_memory
  memory_test_ai_memory-passes small =
      rw (created, memory_test_ai_memory)
        (rw (created, destroyed)
          (
            refl,
            record {
              heap = refl;
              used = same_used;
              used_size = omega arith;
              blocks = refl;
              sizes = refl;
              count = refl;
              allocations = refl;
              deallocations = refl;
            },
          ))
