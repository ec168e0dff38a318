-- ===== src/Tensor/Create.antt =====
-- ai_tensor_create: the tensor that it returns, and its data.
use synapse_kernel.Prelude.{
  ℕ, zero, suc, ◌+◌, ◌*◌, ◌%◌, ◌/◌, bit, subst, ◌^◌, ◌≤◌, ◌<◌, ◌≡◌, refl, ap, ◌∙◌, arith, true,
  ◌||◌, Option, none, some, inl, inr, ◌⊎◌, ◌==◌, leb, if◌then◌else◌,
}
use synapse_kernel.Heap.Kheap.{kmalloc}
use synapse_kernel.Pool.{Pool, ai_memory_alloc}
use synapse_kernel.Tensor.{
  Tensor, tensor_size, tensor_type_count, total_elems, zeroed, is_zeroed, alignment_of,
  ai_tensor_get_elem_size, ai_memory_get_optimal_alignment, ai_tensor_create, ai_tensor_get_size,
  ai_tensor_get_alignment,
}
use synapse_kernel.Tensor.Strides.{
  Formed, IsRowMajor, calculate_strides-IsRowMajor, volume, mod-mul-mod,
}
use synapse_kernel.Tensor.Rank.{elems_from-volume}
use synapse_kernel.Tensor.Making.{
  heap₃, asked, data_size, Valid, Granted, start, stepped, p, start-Formed, start-size,
  ai_tensor_create-made, copied_below,
}

-- The size and the best alignment of the five types: int8, int16, int32, float16, float32.
abbrev pub element_bytes : ℕ → ℕ
element_bytes zero = 1
element_bytes (suc zero) = 2
element_bytes (suc (suc zero)) = 4
element_bytes (suc (suc (suc zero))) = 2
element_bytes _ = 4

abbrev pub best_alignment : ℕ → ℕ
best_alignment zero = 16
best_alignment (suc zero) = 16
best_alignment (suc (suc zero)) = 32
best_alignment (suc (suc (suc zero))) = 16
best_alignment _ = 32

-- The bytes of the data, and their alignment: bit 1 of the flags is TENSOR_MEM_ALIGNED.
abbrev pub wanted_size : (ℕ → ℕ) → ℕ → ℕ → ℕ
wanted_size dim ndim dtype = volume dim 0 ndim * element_bytes dtype % 2 ^ 64

abbrev pub wanted_alignment : ℕ → ℕ → ℕ
wanted_alignment dtype flags = if flags / 2 % 2 == 1 then best_alignment dtype else 8

ai_tensor_get_elem_size-element_bytes :
    (dtype : ℕ) → dtype < tensor_type_count → ai_tensor_get_elem_size dtype ≡ element_bytes dtype
unfolding ai_tensor_get_elem_size
ai_tensor_get_elem_size-element_bytes zero h = refl
ai_tensor_get_elem_size-element_bytes (suc zero) h = refl
ai_tensor_get_elem_size-element_bytes (suc (suc zero)) h = refl
ai_tensor_get_elem_size-element_bytes (suc (suc (suc zero))) h = refl
ai_tensor_get_elem_size-element_bytes (suc (suc (suc (suc zero)))) h = refl
ai_tensor_get_elem_size-element_bytes (suc (suc (suc (suc (suc n))))) h = absurd (omega arith)

ai_memory_get_optimal_alignment-best_alignment :
    (dtype : ℕ)
    → dtype < tensor_type_count
    → ai_memory_get_optimal_alignment dtype ≡ best_alignment dtype
unfolding ai_memory_get_optimal_alignment
ai_memory_get_optimal_alignment-best_alignment zero h = refl
ai_memory_get_optimal_alignment-best_alignment (suc zero) h = refl
ai_memory_get_optimal_alignment-best_alignment (suc (suc zero)) h = refl
ai_memory_get_optimal_alignment-best_alignment (suc (suc (suc zero))) h = refl
ai_memory_get_optimal_alignment-best_alignment (suc (suc (suc (suc zero)))) h = refl
ai_memory_get_optimal_alignment-best_alignment (suc (suc (suc (suc (suc n))))) h =
    absurd (omega arith)

alignment_of-wanted :
    (dtype flags : ℕ)
    → dtype < tensor_type_count
    → alignment_of dtype flags ≡ wanted_alignment dtype flags
unfolding bit
alignment_of-wanted dtype flags h = rw (ai_memory_get_optimal_alignment-best_alignment dtype h) refl

data_size-wanted :
    (dim : ℕ → ℕ) (ndim dtype : ℕ)
    → dtype < tensor_type_count
    → data_size dim ndim dtype ≡ wanted_size dim ndim dtype
unfolding total_elems
data_size-wanted dim ndim dtype h = rw (ai_tensor_get_elem_size-element_bytes dtype h) (
    ap (λ n. n * element_bytes dtype % 2 ^ 64)
      (elems_from-volume ndim 0 dim 1 (omega arith) ∙ omega arith)
    ∙ mod-mul-mod (volume dim 0 ndim) (element_bytes dtype) (2 ^ 64))

-- The `n` bytes of the data at `p` are zero if bit 0 of the flags, TENSOR_MEM_ZEROED, is set, and no
-- other byte changes.
pub record IsCleared (flags p n : ℕ) (byte byte' : ℕ → ℕ) : Type 0 where
  pub cleared : (a : ℕ) → flags % 2 ≡ 1 → p ≤ a → a < p + n → byte' a ≡ 0
  pub others : (a : ℕ) → (a < p) ⊎ (p + n ≤ a) → byte' a ≡ byte a
  pub kept : (a : ℕ) → flags % 2 ≡ 0 → byte' a ≡ byte a

zeroed-IsCleared :
    (flags p n : ℕ) (byte : ℕ → ℕ)
    → IsCleared flags p n byte (if is_zeroed flags then zeroed p n byte else byte)
unfolding bit
zeroed-IsCleared flags p n byte = record {
  cleared = λ a odd lo hi. ground arith;
  others = λ a out. ground arith;
  kept = λ a even. ground arith;
}

-- What is known of a new tensor, whose data are `size` bytes at `alignment`.
pub record Created (dim : ℕ → ℕ) (ndim dtype layout flags size alignment : ℕ) (s : Pool)
    (tensor : Tensor) : Type 0 where
  pub formed : Formed tensor
  pub address : tensor.address ≡ (kmalloc tensor_size s.heap).0
  pub same_ndim : tensor.ndim ≡ ndim
  pub dims : (i : ℕ) → i < ndim → tensor.dim i ≡ dim i
  pub rows : IsRowMajor tensor.ndim tensor.dim tensor.stride
  pub given : tensor.data_ptr ≡ (ai_memory_alloc size alignment (asked ndim s)).0
  pub size_told : ai_tensor_get_size (some tensor) ≡ size
  pub alignment_told : ai_tensor_get_alignment (some tensor) ≡ alignment
  pub elem : tensor.elem_size ≡ element_bytes dtype
  pub same_dtype : tensor.dtype ≡ dtype
  pub same_layout : tensor.layout ≡ layout
  pub same_flags : tensor.flags ≡ flags

module _ (dim : ℕ → ℕ) (ndim dtype layout flags : ℕ) (stale : ℕ → ℕ) (s : Pool) (byte : ℕ → ℕ) where
  -- ai_tensor_create has made a tensor with `size` bytes of data at `alignment`.
  abbrev pub IsMade : ℕ → ℕ → Type 0
  IsMade size alignment =
      let (made, s', byte') = ai_tensor_create (some dim) ndim dtype layout flags stale s byte in
      (tensor : Tensor) × (made ≡ some tensor)
      × Created dim ndim dtype layout flags size alignment s tensor
      × (s' ≡ (ai_memory_alloc size alignment (asked ndim s)).1)
      × IsCleared flags tensor.data_ptr size byte byte'

  ai_tensor_create-IsMade :
      Valid dim ndim dtype
      → Granted ndim (data_size dim ndim dtype) (alignment_of dtype flags) s
      → IsMade (data_size dim ndim dtype) (alignment_of dtype flags)
  unfolding ai_tensor_get_alignment
  ai_tensor_create-IsMade valid granted =
      let formed = start-Formed dim ndim dtype layout flags stale s byte valid granted in
      let (_, rows) =
        calculate_strides-IsRowMajor (start dim ndim dtype layout flags stale s byte valid granted)
          stale (heap₃ ndim s) formed in
      let block =
        (ai_memory_alloc (data_size dim ndim dtype) (alignment_of dtype flags) (asked ndim s)).0 in
      rw (ai_tensor_create-made dim ndim dtype layout flags stale s byte valid granted) (
        record (stepped dim ndim dtype layout flags stale s byte valid granted) {
          data_ptr = block;
        },
        refl,
        record {
          formed = record {
            shape_ne = granted.shape;
            strides_ne = granted.strides;
            some_dim = valid.some_dim;
            few = valid.few;
            words = formed.words;
          };
          address = refl;
          same_ndim = refl;
          dims = λ i lt. copied_below ndim i dim stale lt;
          rows = rows;
          given = refl;
          size_told = start-size dim ndim dtype layout flags stale s byte valid granted;
          alignment_told = refl;
          elem = ai_tensor_get_elem_size-element_bytes dtype valid.typed;
          same_dtype = refl;
          same_layout = refl;
          same_flags = refl;
        },
        refl,
        zeroed-IsCleared flags block (data_size dim ndim dtype) byte,
      )

  -- When the arguments are valid and the heap and the pool have room, ai_tensor_create returns a
  -- tensor of the given shape, type, layout and flags whose strides are row-major. Its data are what
  -- ai_memory_alloc gives for the product of all dimensions times the bytes of an element (1, 2, 4, 2
  -- and 4 for the five types), modulo 2 ^ 64. They are asked for at the alignment of the type (16, 16,
  -- 32, 16 and 32) if the flags have TENSOR_MEM_ALIGNED, and at 8 otherwise. ai_tensor_get_size and
  -- ai_tensor_get_alignment return these two numbers, the pool is as ai_memory_alloc left it, and the
  -- bytes of the data are 0 if the flags have TENSOR_MEM_ZEROED, with no other byte changed.
  pub ai_tensor_create-Created :
      Valid dim ndim dtype
      → Granted ndim (wanted_size dim ndim dtype) (wanted_alignment dtype flags) s
      → IsMade (wanted_size dim ndim dtype) (wanted_alignment dtype flags)
  ai_tensor_create-Created valid granted =
      let size = wanted_size dim ndim dtype in
      let computed = data_size dim ndim dtype in
      subst
        (λ n.
          Granted ndim n (wanted_alignment dtype flags) s → IsMade n (wanted_alignment dtype flags))
        (data_size-wanted dim ndim dtype valid.typed)
        (subst (λ a. Granted ndim computed a s → IsMade computed a)
          (alignment_of-wanted dtype flags valid.typed) (ai_tensor_create-IsMade valid))
        granted

-- ai_tensor_create without a shape, without a dimension or with a type that is none of the five
-- returns NULL and changes neither the heap nor the pool.
pub ai_tensor_create-refuses :
    (shape : Option (ℕ → ℕ)) (ndim dtype layout flags : ℕ) (stale : ℕ → ℕ) (s : Pool) (byte : ℕ → ℕ)
    → (shape ≡ none) ⊎ ((ndim ≡ 0) ⊎ (tensor_type_count ≤ dtype))
    → ai_tensor_create shape ndim dtype layout flags stale s byte ≡ (none, s, byte)
unfolding ai_tensor_create
ai_tensor_create-refuses none ndim dtype layout flags stale s byte h = refl
ai_tensor_create-refuses (some dim) ndim dtype layout flags stale s byte (inl e) =
    absurd (omega (arith, ap {B = ℕ} (λ o. elim o [ none ↦ 0 | some _ ↦ 1 ]) e))
ai_tensor_create-refuses (some dim) ndim dtype layout flags stale s byte (inr h) =
    let checked : (ndim == 0 || leb tensor_type_count dtype) ≡ true = test h in rw checked refl
  where
    test :
        (ndim ≡ 0) ⊎ (tensor_type_count ≤ dtype) → (ndim == 0 || leb tensor_type_count dtype) ≡ true
    test (inl z) = rw z refl
    test (inr t) = ground arith
