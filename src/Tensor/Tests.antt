-- ===== src/Tensor/Tests.antt =====
-- The tensors' theorems at a tensor of 2 by 3 elements of 32 bits, and runs on it.
use synapse_kernel.Prelude.{
  ℕ, zero, suc, ◌+◌, ◌-◌, ◌%◌, ◌^◌, ◌≤◌, ◌<◌, ◌≡◌, ◌≢◌, refl, ◌⊎◌, arith, eok, err, einvarg, some,
  Status, get_or, List, [], ◌∷◌, sym, ap, ◌∙◌, ok, true, bit, with_bit, first_from,
}
use synapse_kernel.Heap.{
  Heap, heap_malloc, heap_malloc_blocks, heap_get_start_block, start_block_loop,
  heap_align_value_to_upper, heap_block_to_address, heap_mark_blocks_taken, mark_taken_loop,
}
use synapse_kernel.Heap.Kheap.{kmalloc}
use synapse_kernel.Pool.{Pool, ai_memory_alloc, alloc_small_block}
use synapse_kernel.Tensor.{
  Tensor, total_elems, elems_from, filled_strides, stride_loop, calculate_strides, offset_from,
  ai_tensor_get_element, ai_tensor_get_size, ai_tensor_reshape, ai_tensor_view,
  ai_tensor_get_elem_size, in_bounds_from,
}
use synapse_kernel.Tensor.Strides.{Formed, IsRowMajor, volume, calculate_strides-IsRowMajor}
use synapse_kernel.Tensor.Rank.{InShape}
use synapse_kernel.Tensor.Element.{Sound, ai_tensor_get_element-disjoint}
use synapse_kernel.Tensor.View.{
  HasRoom, IsView, InBounds, ai_tensor_view-IsView, ai_tensor_view-inside,
}
use synapse_kernel.Tensor.Reshape.{
  Matching, RoomForTwo, Reshaped, ai_tensor_reshape-Reshaped, ai_tensor_reshape-keeps,
}
use synapse_kernel.Tensor.Making.{Valid, Granted}
use synapse_kernel.Tensor.Create.{IsMade, ai_tensor_create-Created}

abbrev array : List ℕ → ℕ → ℕ
array xs i = get_or xs i 0

abbrev stale : ℕ → ℕ
stale i = 7

abbrev roomy : Heap
roomy = record { table = record { entries = λ i. 0; total = 8 }; saddr = 0x100000 }

abbrev sample : Tensor
sample = record {
  address = 0x200000;
  data_ptr = 0x400000;
  shape = 0x201000;
  dim = array (2 ∷ 3 ∷ []);
  strides = 0x202000;
  stride = array (3 ∷ 1 ∷ []);
  ndim = 2;
  elem_size = 4;
  dtype = 2;
  layout = 0;
  flags = 0;
}

sample_words : (i : ℕ) → i < 2 → sample.dim i < 2 ^ 64
sample_words zero lt = omega arith
sample_words (suc zero) lt = omega arith
sample_words (suc (suc i)) lt = absurd (omega arith)

sample-Formed : Formed sample
sample-Formed = record {
  shape_ne = λ e. omega arith;
  strides_ne = λ e. omega arith;
  some_dim = omega arith;
  few = omega arith;
  words = sample_words;
}

calculate_strides-IsRowMajor_example :
    let stride = filled_strides 2 (array (2 ∷ 3 ∷ [])) (array (3 ∷ 1 ∷ [])) in
    (calculate_strides sample stale roomy ≡ (record sample { stride = stride }, roomy))
    × IsRowMajor 2 (array (2 ∷ 3 ∷ [])) stride
calculate_strides-IsRowMajor_example = calculate_strides-IsRowMajor sample stale roomy sample-Formed

-- The strides of a tensor of 2 by 3 by 5 by 7 elements.
four_dims : filled_strides 4 (array (2 ∷ 3 ∷ 5 ∷ 7 ∷ [])) stale 0 ≡ 105
unfolding filled_strides stride_loop
four_dims = refl

sample_steps : (i : ℕ) → i < 2 → sample.stride i ≡ volume sample.dim (i + 1) (2 - 1 - i) % 2 ^ 64
sample_steps zero lt = refl
sample_steps (suc zero) lt = refl
sample_steps (suc (suc i)) lt = absurd (omega arith)

sample-Sound : Sound sample
sample-Sound = record {
  rows = record { steps = sample_steps };
  some_bytes = omega arith;
  space = omega arith;
}

in_shape : (indices : ℕ → ℕ) → indices 0 < 2 → indices 1 < 3 → InShape sample.dim indices 0 2
in_shape indices h h' = record { bounded = go }
  where
    go : (j : ℕ) → 0 ≤ j → j < 0 + 2 → indices j < sample.dim j
    go zero lo hi = h
    go (suc zero) lo hi = h'
    go (suc (suc j)) lo hi = absurd (omega arith)

last_element : ai_tensor_get_element (some sample) (some (array (1 ∷ 2 ∷ []))) ≡ 0x400014
unfolding ai_tensor_get_element offset_from
last_element = refl

ai_tensor_get_element-disjoint_example :
    let p = ai_tensor_get_element (some sample) (some (array (1 ∷ 2 ∷ []))) in
    let q = ai_tensor_get_element (some sample) (some (array (1 ∷ 1 ∷ []))) in
    (p + 4 ≤ q) ⊎ (q + 4 ≤ p)
ai_tensor_get_element-disjoint_example =
    ai_tensor_get_element-disjoint sample sample-Sound (array (1 ∷ 2 ∷ [])) (array (1 ∷ 1 ∷ [])) 1
      (in_shape (array (1 ∷ 2 ∷ [])) (omega arith) (omega arith))
      (in_shape (array (1 ∷ 1 ∷ [])) (omega arith) (omega arith)) (omega arith) (λ e. omega arith)

inside_bounds : InBounds sample (array (1 ∷ 1 ∷ [])) (array (1 ∷ 2 ∷ []))
inside_bounds zero lt = omega arith
inside_bounds (suc zero) lt = omega arith
inside_bounds (suc (suc i)) lt = absurd (omega arith)

roomy-HasRoom : HasRoom 2 roomy
unfolding kmalloc heap_malloc heap_malloc_blocks heap_get_start_block start_block_loop
    heap_align_value_to_upper heap_block_to_address heap_mark_blocks_taken mark_taken_loop
roomy-HasRoom = record {
  descriptor = λ e. omega (arith, e);
  shape = λ e. omega (arith, e);
  strides = λ e. omega (arith, e);
}

ai_tensor_view-IsView_example :
    (view : Tensor) × ((ai_tensor_view
        (some sample)
        (some (array (1 ∷ 1 ∷ [])))
        (some (array (1 ∷ 2 ∷ [])))
        stale
        roomy).0
      ≡ some view)
    × IsView sample (array (1 ∷ 1 ∷ [])) (array (1 ∷ 2 ∷ [])) view
ai_tensor_view-IsView_example =
    ai_tensor_view-IsView sample (array (1 ∷ 1 ∷ [])) (array (1 ∷ 2 ∷ [])) stale roomy inside_bounds
      roomy-HasRoom

small_sums : (i : ℕ) → i < 2 → array (1 ∷ 1 ∷ []) i + array (1 ∷ 2 ∷ []) i < 2 ^ 64
small_sums zero lt = omega arith
small_sums (suc zero) lt = omega arith
small_sums (suc (suc i)) lt = absurd (omega arith)

within_view : InShape (array (1 ∷ 2 ∷ [])) (array (0 ∷ 1 ∷ [])) 0 2
within_view = record { bounded = go }
  where
    go : (j : ℕ) → 0 ≤ j → j < 0 + 2 → array (0 ∷ 1 ∷ []) j < array (1 ∷ 2 ∷ []) j
    go zero lo hi = omega arith
    go (suc zero) lo hi = omega arith
    go (suc (suc j)) lo hi = absurd (omega arith)

ai_tensor_view-inside_example :
    (view : Tensor) × ((ai_tensor_view
        (some sample)
        (some (array (1 ∷ 1 ∷ [])))
        (some (array (1 ∷ 2 ∷ [])))
        stale
        roomy).0
      ≡ some view)
    × (0x400000 ≤ ai_tensor_get_element (some view) (some (array (0 ∷ 1 ∷ []))))
    × (ai_tensor_get_element (some view) (some (array (0 ∷ 1 ∷ []))) + view.elem_size
        ≤ 0x400000 + ai_tensor_get_size (some sample))
ai_tensor_view-inside_example =
    ai_tensor_view-inside sample (array (1 ∷ 1 ∷ [])) (array (1 ∷ 2 ∷ [])) stale
      (array (0 ∷ 1 ∷ [])) roomy sample-Sound inside_bounds roomy-HasRoom small_sums within_view

-- A shape of 2 ^ 64 - 1 rows from the row 2 on passes the check, since the sum wraps to 1.
wrapped_view :
    in_bounds_from 2 0 (array (2 ∷ 0 ∷ [])) (array ((2 ^ 64 - 1) ∷ 1 ∷ [])) sample.dim ≡ true
unfolding in_bounds_from
wrapped_view = refl

flat : Matching sample (array (6 ∷ [])) 1
unfolding total_elems elems_from
flat = record { some_dim = omega arith; few = omega arith; words = word; count = refl }
  where
    word : (i : ℕ) → i < 1 → array (6 ∷ []) i < 2 ^ 64
    word zero lt = omega arith
    word (suc i) lt = absurd (omega arith)

roomy-RoomForTwo : RoomForTwo 1 roomy
unfolding kmalloc heap_malloc heap_malloc_blocks heap_get_start_block start_block_loop
    heap_align_value_to_upper heap_block_to_address heap_mark_blocks_taken mark_taken_loop
roomy-RoomForTwo = record { shape = λ e. omega (arith, e); strides = λ e. omega (arith, e) }

ai_tensor_reshape-Reshaped_example :
    (tensor' : Tensor) × (heap' : Heap) × (ai_tensor_reshape
        (some sample)
        (some (array (6 ∷ [])))
        1
        stale
        roomy
      ≡ (eok, some tensor', heap'))
    × Reshaped sample (array (6 ∷ [])) 1 tensor'
ai_tensor_reshape-Reshaped_example =
    ai_tensor_reshape-Reshaped sample (array (6 ∷ [])) 1 stale roomy (λ e. omega arith)
      (λ e. omega arith) flat roomy-RoomForTwo

not_eok : (e : Status) → e ≡ err einvarg → e ≢ eok
not_eok e h k =
    absurd (omega (arith, ap {B = ℕ} (λ r. elim r [ ok _ ↦ 0 | err _ ↦ 1 ]) (sym h ∙ k)))

-- Five elements do not make six.
refused : (ai_tensor_reshape (some sample) (some (array (5 ∷ []))) 1 stale roomy).0 ≡ err einvarg
unfolding ai_tensor_reshape total_elems elems_from
refused = refl

ai_tensor_reshape-keeps_example :
    (ai_tensor_reshape (some sample) (some (array (5 ∷ []))) 1 stale roomy).1 ≡ some sample
ai_tensor_reshape-keeps_example =
    ai_tensor_reshape-keeps sample (some (array (5 ∷ []))) 1 stale roomy
      (not_eok (ai_tensor_reshape (some sample) (some (array (5 ∷ []))) 1 stale roomy).0 refused)

-- A pool with 16 small blocks at 0x40000 and no larger block.
abbrev pool : Pool
pool = record {
  heap = roomy;
  total_size = 1024;
  used_size = 0;
  free_blocks = 0x30000;
  free_block = λ i. 0;
  free_block_sizes = 0x38000;
  free_block_size = λ i. 0;
  free_block_count = 0;
  small_block_pool = 0x40000;
  small_block_bitmap = 0x3F000;
  bitmap = λ i. 0;
  small_block_count = 16;
  allocations = 0;
  deallocations = 0;
  peak_usage = 0;
}

sample-Valid : Valid (array (2 ∷ 3 ∷ [])) 2 2
sample-Valid = record {
  some_dim = omega arith;
  few = omega arith;
  words = sample_words;
  typed = omega arith;
}

pool-Granted : Granted 2 24 8 pool
unfolding kmalloc heap_malloc heap_malloc_blocks heap_get_start_block start_block_loop
    heap_align_value_to_upper heap_block_to_address heap_mark_blocks_taken mark_taken_loop
    total_elems elems_from ai_memory_alloc alloc_small_block first_from bit with_bit
    ai_tensor_get_elem_size
pool-Granted = record {
  descriptor = λ e. omega (arith, e);
  shape = λ e. omega (arith, e);
  strides = λ e. omega (arith, e);
  bytes = λ e. omega (arith, e);
}

ai_tensor_create-Created_example : IsMade (array (2 ∷ 3 ∷ [])) 2 2 0 1 stale pool (λ a. 9) 24 8
ai_tensor_create-Created_example =
    ai_tensor_create-Created (array (2 ∷ 3 ∷ [])) 2 2 0 1 stale pool (λ a. 9) sample-Valid
      pool-Granted
