-- ===== src/Tensor/Making.antt =====
-- ai_tensor_create on valid arguments and with enough room, step by step.
use synapse_kernel.Prelude.{
  ℕ, zero, suc, ◌+◌, ◌*◌, ◌%◌, ◌^◌, ◌≤◌, ◌<◌, ◌≡◌, ◌≢◌, refl, ap, ◌∙◌, arith, false, ◌||◌, some,
  ◌==◌, leb, if◌then◌else◌,
}
use synapse_kernel.Heap.{Heap}
use synapse_kernel.Heap.Kheap.{kmalloc}
use synapse_kernel.Task.{Ptr, null}
use synapse_kernel.Pool.{Pool, ai_memory_alloc}
use synapse_kernel.Tensor.{
  Tensor, tensor_size, tensor_type_count, total_elems, elems_from, copied, zeroed, is_zeroed,
  alignment_of, ai_tensor_get_elem_size, ai_tensor_create, create_valid, create_data,
  ai_tensor_get_size, filled_strides,
}
use synapse_kernel.Tensor.Strides.{Formed, calculate_strides-IsRowMajor}

-- The heap after the calls for the descriptor, the shape and the strides, in this order.
abbrev pub heap₁ : Pool → Heap
heap₁ s = (kmalloc tensor_size s.heap).1

abbrev pub heap₂ : ℕ → Pool → Heap
heap₂ ndim s = (kmalloc (ndim * 8 % 2 ^ 64) (heap₁ s)).1

abbrev pub heap₃ : ℕ → Pool → Heap
heap₃ ndim s = (kmalloc (ndim * 8 % 2 ^ 64) (heap₂ ndim s)).1

-- The pool when the data are asked for.
abbrev pub asked : ℕ → Pool → Pool
asked ndim s = record s { heap = heap₃ ndim s }

-- The bytes of the data.
abbrev pub data_size : (ℕ → ℕ) → ℕ → ℕ → ℕ
data_size dim ndim dtype = total_elems ndim dim * ai_tensor_get_elem_size dtype % 2 ^ 64

-- The arguments are valid.
pub record Valid (dim : ℕ → ℕ) (ndim dtype : ℕ) : Type 0 where
  pub some_dim : 0 < ndim
  pub few : ndim ≤ 2 ^ 31
  pub words : (i : ℕ) → i < ndim → dim i < 2 ^ 64
  pub typed : dtype < tensor_type_count

-- The heap and the pool have room for everything, with `size` bytes of data at `alignment`.
pub record Granted (ndim size alignment : ℕ) (s : Pool) : Type 0 where
  pub descriptor : (kmalloc tensor_size s.heap).0 ≢ null
  pub shape : (kmalloc (ndim * 8 % 2 ^ 64) (heap₁ s)).0 ≢ null
  pub strides : (kmalloc (ndim * 8 % 2 ^ 64) (heap₂ ndim s)).0 ≢ null
  pub bytes : (ai_memory_alloc size alignment (asked ndim s)).0 ≢ null

pub copied_below : (n i : ℕ) (from to : ℕ → ℕ) → i < n → copied n from to i ≡ from i
copied_below n i from to lt = ground arith

elems_from-copied :
    (k i n : ℕ) (from to : ℕ → ℕ) (total : ℕ)
    → i + k ≤ n
    → elems_from k i (copied n from to) total ≡ elems_from k i from total
unfolding elems_from
elems_from-copied zero i n from to total h = refl
elems_from-copied (suc k) i n from to total h =
    let here : copied n from to i ≡ from i = copied_below n i from to (omega arith) in
    ap (λ d. elems_from k (i + 1) (copied n from to) (total * d % 2 ^ 64)) here
    ∙ elems_from-copied k (i + 1) n from to (total * from i % 2 ^ 64) (omega arith)

-- The tensor that asks for its data.
abbrev pub blank : (ℕ → ℕ) → ℕ → ℕ → ℕ → ℕ → (ℕ → ℕ) → Pool → Tensor
blank dim ndim dtype layout flags stale s = record {
  address = (kmalloc tensor_size s.heap).0;
  data_ptr = null;
  shape = (kmalloc (ndim * 8 % 2 ^ 64) (heap₁ s)).0;
  dim = copied ndim dim stale;
  strides = (kmalloc (ndim * 8 % 2 ^ 64) (heap₂ ndim s)).0;
  stride = stale;
  ndim = ndim;
  elem_size = ai_tensor_get_elem_size dtype;
  dtype = dtype;
  layout = layout;
  flags = flags;
}

module _ (dim : ℕ → ℕ) (ndim dtype layout flags : ℕ) (stale : ℕ → ℕ) (s : Pool) (byte : ℕ → ℕ)
    (valid : Valid dim ndim dtype)
    (granted : Granted ndim (data_size dim ndim dtype) (alignment_of dtype flags) s) where
  abbrev pub start : Tensor
  start = blank dim ndim dtype layout flags stale s

  abbrev pub p : Ptr
  p = (ai_memory_alloc (data_size dim ndim dtype) (alignment_of dtype flags) (asked ndim s)).0

  -- The strides are in place.
  abbrev pub stepped : Tensor
  stepped = record start { stride = filled_strides ndim (copied ndim dim stale) stale }

  pub start-Formed : Formed start
  start-Formed = record {
    shape_ne = granted.shape;
    strides_ne = granted.strides;
    some_dim = valid.some_dim;
    few = valid.few;
    words = λ i lt. rw (copied_below ndim i dim stale lt) (valid.words i lt);
  }

  create_data-made :
      create_data stepped (data_size dim ndim dtype) (alignment_of dtype flags) (asked ndim s) byte
      ≡ (
        some (record stepped { data_ptr = p }),
        (ai_memory_alloc (data_size dim ndim dtype) (alignment_of dtype flags) (asked ndim s)).1,
        if is_zeroed flags then zeroed p (data_size dim ndim dtype) byte else byte,
      )
  unfolding create_data
  create_data-made =
      let has_bytes : (p == null) ≡ false = ground (arith, granted.bytes) in rw has_bytes refl

  create_valid-made :
      create_valid dim ndim dtype layout flags stale s byte
      ≡ create_data stepped
          (data_size dim ndim dtype)
          (alignment_of dtype flags)
          (asked ndim s)
          byte
  unfolding create_valid
  create_valid-made =
      let first : ((kmalloc tensor_size s.heap).0 == null) ≡ false =
        ground (arith, granted.descriptor) in
      let second : ((kmalloc (ndim * 8 % 2 ^ 64) (heap₁ s)).0 == null) ≡ false =
        ground (arith, granted.shape) in
      let third : ((kmalloc (ndim * 8 % 2 ^ 64) (heap₂ ndim s)).0 == null) ≡ false =
        ground (arith, granted.strides) in
      let (e, _) = calculate_strides-IsRowMajor start stale (heap₃ ndim s) start-Formed in
      rw (first, second, third, e) refl

  pub start-size :
      ai_tensor_get_size (some (record stepped { data_ptr = p })) ≡ data_size dim ndim dtype
  unfolding ai_tensor_get_size total_elems
  start-size =
      ap (λ n. n * ai_tensor_get_elem_size dtype % 2 ^ 64)
        (elems_from-copied ndim 0 ndim dim stale 1 (omega arith))

  -- The tensor, the pool and the bytes.
  pub ai_tensor_create-made : ai_tensor_create (some dim) ndim dtype layout flags stale s byte ≡ (
    some (record stepped { data_ptr = p }),
    (ai_memory_alloc (data_size dim ndim dtype) (alignment_of dtype flags) (asked ndim s)).1,
    if is_zeroed flags then zeroed p (data_size dim ndim dtype) byte else byte,
  )
  unfolding ai_tensor_create
  ai_tensor_create-made =
      let some_dim = valid.some_dim in
      let typed = valid.typed in
      let checked : (ndim == 0 || leb tensor_type_count dtype) ≡ false = ground arith in
      rw (checked, create_valid-made) create_data-made
