-- ===== src/Tensor/Layout.antt =====
-- ai_tensor_set_layout: which element the indices name before and after.
use synapse_kernel.Prelude.{
  ℕ, zero, suc, ◌+◌, ◌*◌, ◌%◌, ◌^◌, ◌≤◌, ◌<◌, ◌≡◌, refl, sym, ap, ◌∙◌, arith, some, inl, inr, ◌==◌,
  Bool-cases, eok,
}
use synapse_kernel.Heap.{Heap}
use synapse_kernel.Tensor.{
  Tensor, ai_tensor_set_layout, ai_tensor_get_element, offset_from, filled_strides,
}
use synapse_kernel.Tensor.Strides.{Formed, IsRowMajor, calculate_strides-IsRowMajor}

-- Strides are read in the tensor's dimensions only.
offset_from-ext :
    (k i : ℕ) (indices stride stride' : ℕ → ℕ) (offset : ℕ)
    → ((j : ℕ) → i ≤ j → j < i + k → stride j ≡ stride' j)
    → offset_from k i indices stride offset ≡ offset_from k i indices stride' offset
unfolding offset_from
offset_from-ext zero i indices stride stride' offset same = refl
offset_from-ext (suc k) i indices stride stride' offset same =
    rw (same i (omega arith) (omega arith)) (
      offset_from-ext k (i + 1) indices stride stride' ((offset + indices i * stride' i) % 2 ^ 64)
        (λ j lo hi. same j (omega arith) (omega arith)))

-- ai_tensor_set_layout succeeds on a tensor that has its arrays, 1 to 2 ^ 31 dimensions and
-- row-major strides, and sets the layout; but whatever the layout is, the strides stay row-major: every
-- index list names the same address before and after.
pub ai_tensor_set_layout-ai_tensor_get_element :
    (tensor : Tensor) (new_layout : ℕ) (stale : ℕ → ℕ) (heap : Heap)
    → Formed tensor
    → IsRowMajor tensor.ndim tensor.dim tensor.stride
    → (tensor' : Tensor) × (ai_tensor_set_layout (some tensor) new_layout stale heap
        ≡ (eok, some tensor', heap))
      × (tensor'.layout ≡ new_layout)
      × ((indices : ℕ → ℕ)
          → ai_tensor_get_element (some tensor') (some indices)
            ≡ ai_tensor_get_element (some tensor) (some indices))
unfolding ai_tensor_set_layout ai_tensor_get_element
ai_tensor_set_layout-ai_tensor_get_element tensor new_layout stale heap formed rows =
    elim (Bool-cases (tensor.layout == new_layout)) [
      | inl e ↦ rw e (tensor, refl, ground (arith, e), λ indices. refl)
      | inr e ↦
          let t : Tensor = record tensor { layout = new_layout } in
          let (made, rows') = calculate_strides-IsRowMajor t stale heap (record {
            shape_ne = formed.shape_ne;
            strides_ne = formed.strides_ne;
            some_dim = formed.some_dim;
            few = formed.few;
            words = formed.words;
          }) in
          let filled : ℕ → ℕ = filled_strides tensor.ndim tensor.dim tensor.stride in
          rw (e, made)
            (
              record t { stride = filled },
              refl,
              refl,
              λ indices.
                  ap (λ o. (tensor.data_ptr + o * tensor.elem_size) % 2 ^ 64)
                    (offset_from-ext tensor.ndim 0 indices filled tensor.stride 0
                      (λ j lo hi. rows'.steps j (omega arith) ∙ sym (rows.steps j (omega arith)))),
            )
    ]
