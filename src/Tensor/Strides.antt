-- ===== src/Tensor/Strides.antt =====
-- calculate_strides: the strides of the row-major layout.
use synapse_kernel.Prelude.{
  ℕ, zero, suc, ◌+◌, ◌-◌, ◌*◌, ◌/◌, ◌%◌, ◌^◌, ◌≤◌, ◌<◌, ◌≡◌, ◌≢◌, refl, sym, ap, ◌∙◌, arith, false,
  ◌==◌, Bool-cases, eq_of_==, inl, inr, update, update_self,
}
use native.Mathlib.Nat.{mod-add-div', mul_comm, mul_assoc, add-mul, mul-one, add-mul-mod_self_right}
use synapse_kernel.Heap.{Heap}
use synapse_kernel.Task.{null}
use synapse_kernel.Tensor.{Tensor, stride_loop, stride_rounds, filled_strides, calculate_strides}

-- The number of elements of the `k` dimensions from `i` on.
abbrev pub volume : (ℕ → ℕ) → ℕ → ℕ → ℕ
volume dim i zero = 1
volume dim i (suc k) = dim i * volume dim (i + 1) k

-- A step along a dimension passes over all elements of the dimensions behind it, modulo 2 ^ 64.
pub record IsRowMajor (ndim : ℕ) (dim stride : ℕ → ℕ) : Type 0 where
  pub steps : (i : ℕ) → i < ndim → stride i ≡ volume dim (i + 1) (ndim - 1 - i) % 2 ^ 64

-- A factor read modulo `m`.
pub mod-mul-mod : (x y m : ℕ) → (x % m * y) % m ≡ (x * y) % m
mod-mul-mod x y m = sym (
    ap (λ z. z * y % m) (sym (mod-add-div' x m))
    ∙ ap (λ z. z % m)
        (add-mul (x % m) (x / m * m) y
          ∙ ap (λ z. x % m * y + z)
              (mul_assoc (x / m) m y
                ∙ ap (λ z. x / m * z) (mul_comm m y)
                ∙ sym (mul_assoc (x / m) y m)))
    ∙ add-mul-mod_self_right (x % m * y) (x / m * y) m)

stride_loop-steps :
    (r ndim : ℕ) (dim stride : ℕ → ℕ)
    → r < ndim
    → ((i : ℕ) → r ≤ i → i < ndim → stride i ≡ volume dim (i + 1) (ndim - 1 - i) % 2 ^ 64)
    → (i : ℕ) → i < ndim
    → stride_loop r dim stride i ≡ volume dim (i + 1) (ndim - 1 - i) % 2 ^ 64
unfolding stride_loop
stride_loop-steps zero ndim dim stride lt done i h = done i (omega arith) h
stride_loop-steps (suc r) ndim dim stride lt done i h =
    stride_loop-steps r ndim dim (update stride r (stride (r + 1) * dim (r + 1) % 2 ^ 64))
      (omega arith)
      (λ j lo hi. elim (Bool-cases (r == j)) [
        | inl e ↦ rw (e, sym (eq_of_== r j e)) here
        | inr e ↦ rw e (done j (ground arith) hi)
      ])
      i h
  where
    split :
        volume dim (r + 1) (ndim - 1 - r)
        ≡ dim (r + 1) * volume dim (r + 1 + 1) (ndim - 1 - (r + 1))
    split =
        let one_less : ndim - 1 - r ≡ suc (ndim - 1 - (r + 1)) = omega arith in
        ap (volume dim (r + 1)) one_less

    here : stride (r + 1) * dim (r + 1) % 2 ^ 64 ≡ volume dim (r + 1) (ndim - 1 - r) % 2 ^ 64
    here =
        rw (done (r + 1) (omega arith) (omega arith), split)
          (mod-mul-mod (volume dim (r + 1 + 1) (ndim - 1 - (r + 1))) (dim (r + 1)) (2 ^ 64)
            ∙ ap (λ z. z % 2 ^ 64)
                (mul_comm (volume dim (r + 1 + 1) (ndim - 1 - (r + 1))) (dim (r + 1))))

filled_strides-IsRowMajor :
    (ndim : ℕ) (dim stride : ℕ → ℕ)
    → 0 < ndim
    → ndim ≤ 2 ^ 31
    → ((i : ℕ) → i < ndim → dim i < 2 ^ 64)
    → IsRowMajor ndim dim (filled_strides ndim dim stride)
unfolding filled_strides
filled_strides-IsRowMajor ndim dim stride some_dim few words = elim (Bool-cases (ndim == 1)) [
  | inl e ↦
      rw (e, eq_of_== ndim 1 e)
        (record { steps = λ i lt. let first : i ≡ 0 = omega arith in rw first refl })
  | inr e ↦ elim (Bool-cases (ndim == 2)) [
    | inl e' ↦
        let two = eq_of_== ndim 2 e' in
        let word : dim 1 < 2 ^ 64 = words 1 (omega arith) in
        rw (e', two)
          (record {
            steps = λ i lt. elim (Bool-cases (i == 0)) [
              | inl f ↦ rw (eq_of_== i 0 f) (omega (arith, mul-one (dim 1)))
              | inr f ↦ let second : i ≡ 1 = ground arith in rw second refl
            ];
          })
    | inr e' ↦
        let rounds : stride_rounds ndim ≡ ndim - 1 = ground arith in
        rw (e, e', rounds)
          (record {
            steps =
                stride_loop-steps (ndim - 1) ndim dim (update stride (ndim - 1) 1) (omega arith)
                  (λ i lo hi.
                    let last : i ≡ ndim - 1 = omega arith in
                    let none_left : ndim - 1 - (ndim - 1) ≡ 0 = omega arith in
                    rw (last, none_left) (update_self stride (ndim - 1) 1));
          })
  ]
]

-- The tensor has its arrays, which hold `size_t` values, and at most 2 ^ 31 dimensions.
pub record Formed (tensor : Tensor) : Type 0 where
  pub shape_ne : tensor.shape ≢ null
  pub strides_ne : tensor.strides ≢ null
  pub some_dim : 0 < tensor.ndim
  pub few : tensor.ndim ≤ 2 ^ 31
  pub words : (i : ℕ) → i < tensor.ndim → tensor.dim i < 2 ^ 64

-- For a tensor that has its arrays and 1 to 2 ^ 31 dimensions, calculate_strides calls no allocator
-- and changes the strides only, and afterwards the stride of each dimension is the product of all
-- dimensions behind it, modulo 2 ^ 64.
pub calculate_strides-IsRowMajor :
    (tensor : Tensor) (stale : ℕ → ℕ) (heap : Heap)
    → Formed tensor
    → let stride = filled_strides tensor.ndim tensor.dim tensor.stride in
      (calculate_strides tensor stale heap ≡ (record tensor { stride = stride }, heap))
      × IsRowMajor tensor.ndim tensor.dim stride
unfolding calculate_strides
calculate_strides-IsRowMajor tensor stale heap formed =
    let some_dim = formed.some_dim in
    let has_shape : (tensor.shape == null) ≡ false = ground (arith, formed.shape_ne) in
    let has_strides : (tensor.strides == null) ≡ false = ground (arith, formed.strides_ne) in
    let has_dims : (tensor.ndim == 0) ≡ false = ground arith in
    rw (has_shape, has_strides, has_dims)
      (
        refl,
        filled_strides-IsRowMajor tensor.ndim tensor.dim tensor.stride some_dim formed.few
            formed.words,
      )
