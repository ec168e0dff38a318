-- ===== src/Tensor/Element.antt =====
-- ai_tensor_get_element: where the elements of a tensor lie.
use synapse_kernel.Prelude.{
  ℕ, ◌+◌, ◌*◌, ◌^◌, ◌≤◌, ◌<◌, ◌≡◌, ◌≢◌, ◌∙◌, arith, some, inl, inr, ◌⊎◌, ltb, Bool-cases,
}
use native.Mathlib.Nat.{mul-one, mul-le-mul_right, mul-le-mul_left, add-mul}
use synapse_kernel.Tensor.{
  Tensor, offset_from, ai_tensor_get_element, ai_tensor_get_size, total_elems,
}
use synapse_kernel.Tensor.Strides.{volume, IsRowMajor}
use synapse_kernel.Tensor.Rank.{
  rank, InShape, rank-lt-volume, rank-injective, elems_from-volume, offset_from-rank,
}

-- The number of the tensor's elements.
abbrev pub element_count : Tensor → ℕ
element_count tensor = volume tensor.dim 0 tensor.ndim

-- The place of the indices among the tensor's elements.
abbrev pub place : Tensor → (ℕ → ℕ) → ℕ
place tensor indices = rank tensor.dim indices 0 tensor.ndim

-- The strides are those of the row-major layout, and the data lie in the address space.
pub record Sound (tensor : Tensor) : Type 0 where
  pub rows : IsRowMajor tensor.ndim tensor.dim tensor.stride
  pub some_bytes : 0 < tensor.elem_size
  pub space : tensor.data_ptr + element_count tensor * tensor.elem_size < 2 ^ 64

module _ (tensor : Tensor) (sound : Sound tensor) where
  few_elements : element_count tensor < 2 ^ 64
  few_elements = omega (
    arith,
    sound.space,
    mul-one (element_count tensor),
    mul-le-mul_left (element_count tensor) sound.some_bytes,
  )

  -- The size is that of all elements.
  pub ai_tensor_get_size-Sound :
      ai_tensor_get_size (some tensor) ≡ element_count tensor * tensor.elem_size
  unfolding ai_tensor_get_size total_elems
  ai_tensor_get_size-Sound =
      let few = few_elements in
      let space = sound.space in
      let count : total_elems tensor.ndim tensor.dim ≡ element_count tensor =
        elems_from-volume tensor.ndim 0 tensor.dim 1 (omega arith) ∙ omega arith in
      rw count (omega arith)

  module _ (indices : ℕ → ℕ) (inside : InShape tensor.dim indices 0 tensor.ndim) where
    -- The element behind all elements that come before it.
    row_end :
        (place tensor indices + 1) * tensor.elem_size ≤ element_count tensor * tensor.elem_size
    row_end =
        mul-le-mul_right tensor.elem_size
          (omega (arith, rank-lt-volume tensor.dim indices 0 tensor.ndim inside))

    pub ai_tensor_get_element-place :
        ai_tensor_get_element (some tensor) (some indices)
        ≡ tensor.data_ptr + place tensor indices * tensor.elem_size
    unfolding ai_tensor_get_element
    ai_tensor_get_element-place =
        let few = few_elements in
        let below = rank-lt-volume tensor.dim indices 0 tensor.ndim inside in
        let space = sound.space in
        let ends = row_end in
        let step = add-mul (place tensor indices) 1 tensor.elem_size in
        let offset : offset_from tensor.ndim 0 indices tensor.stride 0 ≡ place tensor indices =
          offset_from-rank tensor.ndim 0 tensor.ndim tensor.dim indices tensor.stride 0
            (omega arith) sound.rows (omega arith)
          ∙ omega arith in
        rw offset (omega arith)

    -- For a tensor whose strides are row-major and whose data lie in the address space, and indices
    -- inside its shape, the bytes of the element that ai_tensor_get_element returns lie in the
    -- `ai_tensor_get_size` bytes of the data.
    pub ai_tensor_get_element-ai_tensor_get_size :
        let p = ai_tensor_get_element (some tensor) (some indices) in
        (tensor.data_ptr ≤ p)
        × (p + tensor.elem_size ≤ tensor.data_ptr + ai_tensor_get_size (some tensor))
    ai_tensor_get_element-ai_tensor_get_size =
        let ends = row_end in
        let step = add-mul (place tensor indices) 1 tensor.elem_size in
        rw (ai_tensor_get_element-place, ai_tensor_get_size-Sound) (omega arith, omega arith)

  -- One place before the other.
  apart : (a b : ℕ) → a < b → a * tensor.elem_size + tensor.elem_size ≤ b * tensor.elem_size
  apart a b lt = omega (
    arith,
    add-mul a 1 tensor.elem_size,
    mul-le-mul_right {m = a + 1} {n = b} tensor.elem_size (omega arith),
  )

  -- For a tensor whose strides are row-major and whose data lie in the address space, two index
  -- lists inside its shape that differ in some dimension have elements whose bytes are disjoint.
  pub ai_tensor_get_element-disjoint :
      (indices indices' : ℕ → ℕ) (i : ℕ)
      → InShape tensor.dim indices 0 tensor.ndim
      → InShape tensor.dim indices' 0 tensor.ndim
      → i < tensor.ndim
      → indices i ≢ indices' i
      → let p = ai_tensor_get_element (some tensor) (some indices) in
        let q = ai_tensor_get_element (some tensor) (some indices') in
        (p + tensor.elem_size ≤ q) ⊎ (q + tensor.elem_size ≤ p)
  ai_tensor_get_element-disjoint indices indices' i inside inside' lt ne =
      let differ : place tensor indices ≢ place tensor indices' = λ e. ne (
        rank-injective tensor.dim indices indices' 0 tensor.ndim inside inside' e i (omega arith)
          (omega arith)) in
      rw (ai_tensor_get_element-place indices inside, ai_tensor_get_element-place indices' inside')
        (elim (Bool-cases (ltb (place tensor indices) (place tensor indices'))) [
          | inl e ↦
              inl
                (omega (arith, apart (place tensor indices) (place tensor indices') (ground arith)))
          | inr e ↦ inr (
              omega (
                arith,
                apart (place tensor indices') (place tensor indices) (ground (arith, differ)),
              ))
        ])
