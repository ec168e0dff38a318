-- ===== src/Tensor/Reshape.antt =====
-- ai_tensor_reshape and ai_tensor_set_layout.
use synapse_kernel.Prelude.{
  ℕ, zero, suc, ◌+◌, ◌-◌, ◌*◌, ◌%◌, ◌^◌, ◌≤◌, ◌<◌, ◌≡◌, ◌≢◌, refl, sym, ap, subst, ◌∙◌, arith, true,
  false, not, ◌||◌, Option, none, some, inl, inr, ◌==◌, Bool-cases, eq_of_==, eok,
}
use synapse_kernel.Heap.{Heap}
use synapse_kernel.Heap.Kheap.{kmalloc, kfree}
use synapse_kernel.Task.{null}
use synapse_kernel.Tensor.{
  Tensor, copied, elems_from, total_elems, filled_strides, reshape_filled, reshape_moved,
  ai_tensor_reshape, ai_tensor_get_size,
}
use synapse_kernel.Tensor.Strides.{IsRowMajor, calculate_strides-IsRowMajor, volume}

-- What a successful reshape leaves.
pub record Reshaped (tensor : Tensor) (new_dim : ℕ → ℕ) (new_ndim : ℕ) (tensor' : Tensor)
    : Type 0 where
  pub same_data : tensor'.data_ptr ≡ tensor.data_ptr
  pub new_dims : tensor'.ndim ≡ new_ndim
  pub dims : (i : ℕ) → i < new_ndim → tensor'.dim i ≡ new_dim i
  pub rows : IsRowMajor new_ndim new_dim tensor'.stride
  pub same_size : ai_tensor_get_size (some tensor') ≡ ai_tensor_get_size (some tensor)

-- A shape is read in its dimensions only.
elems_from-ext :
    (k i : ℕ) (dim dim' : ℕ → ℕ) (total : ℕ)
    → ((j : ℕ) → i ≤ j → j < i + k → dim j ≡ dim' j)
    → elems_from k i dim total ≡ elems_from k i dim' total
unfolding elems_from
elems_from-ext zero i dim dim' total same = refl
elems_from-ext (suc k) i dim dim' total same = rw (same i (omega arith) (omega arith)) (
    elems_from-ext k (i + 1) dim dim' (total * dim' i % 2 ^ 64)
      (λ j lo hi. same j (omega arith) (omega arith)))

IsRowMajor-ext :
    (ndim : ℕ) (dim dim' stride : ℕ → ℕ)
    → ((j : ℕ) → j < ndim → dim j ≡ dim' j)
    → IsRowMajor ndim dim stride
    → IsRowMajor ndim dim' stride
IsRowMajor-ext ndim dim dim' stride same rows = record {
  steps = λ i lt. rows.steps i lt ∙ ap (λ v. v % 2 ^ 64) (go (ndim - 1 - i) (i + 1) (omega arith));
}
  where
    go : (k i : ℕ) → i + k ≤ ndim → volume dim i k ≡ volume dim' i k
    go zero i h = refl
    go (suc k) i h = rw (same i (omega arith), go k (i + 1) (omega arith)) refl

copied_below : (n i : ℕ) (from to : ℕ → ℕ) → i < n → copied n from to i ≡ from i
copied_below n i from to lt = ground arith

-- A shape that the caller may pass: as many elements as the tensor has, in 1 to 2 ^ 31 dimensions.
pub record Matching (tensor : Tensor) (new_dim : ℕ → ℕ) (new_ndim : ℕ) : Type 0 where
  pub some_dim : 0 < new_ndim
  pub few : new_ndim ≤ 2 ^ 31
  pub words : (i : ℕ) → i < new_ndim → new_dim i < 2 ^ 64
  pub count : total_elems new_ndim new_dim ≡ total_elems tensor.ndim tensor.dim

module _ (tensor : Tensor) (new_dim : ℕ → ℕ) (new_ndim : ℕ)
    (match : Matching tensor new_dim new_ndim) where
  reshape_filled-Reshaped :
      (t : Tensor) (stale : ℕ → ℕ) (heap : Heap)
      → t.shape ≢ null
      → t.strides ≢ null
      → t.data_ptr ≡ tensor.data_ptr
      → t.elem_size ≡ tensor.elem_size
      → t.ndim ≡ new_ndim
      → (tensor' : Tensor) × (reshape_filled t new_dim new_ndim stale heap
          ≡ (eok, some tensor', heap))
        × Reshaped tensor new_dim new_ndim tensor'
  unfolding reshape_filled ai_tensor_get_size total_elems
  reshape_filled-Reshaped t stale heap shape strides same_data same_elem dims =
      let t' : Tensor = record t { dim = copied new_ndim new_dim t.dim } in
      let read : (i : ℕ) → i < new_ndim → t'.dim i ≡ new_dim i =
        λ i lt. copied_below new_ndim i new_dim t.dim lt in
      let some_dim = match.some_dim in
      let few = match.few in
      let (e, rows) = calculate_strides-IsRowMajor t' stale heap (record {
        shape_ne = shape;
        strides_ne = strides;
        some_dim = omega arith;
        few = omega arith;
        words = λ i lt. rw (read i (omega arith)) (match.words i (omega arith));
      }) in
      rw e (
        _,
        refl,
        record {
          same_data = same_data;
          new_dims = dims;
          dims = read;
          rows =
              IsRowMajor-ext new_ndim t'.dim new_dim _ read (
                subst (λ n. IsRowMajor n t'.dim (filled_strides t.ndim t'.dim t.stride)) dims rows);
          same_size =
              rw
                (
                  dims,
                  same_elem,
                  elems_from-ext new_ndim 0 t'.dim new_dim 1 (λ j lo hi. read j (omega arith)),
                  match.count,
                )
                refl;
        },
      )

-- The heap has room for two arrays of `ndim` elements.
pub record RoomForTwo (ndim : ℕ) (heap : Heap) : Type 0 where
  pub shape : (kmalloc (ndim * 8 % 2 ^ 64) heap).0 ≢ null
  pub strides : (kmalloc (ndim * 8 % 2 ^ 64) (kmalloc (ndim * 8 % 2 ^ 64) heap).1).0 ≢ null

reshape_moved-Reshaped :
    (tensor : Tensor) (new_dim : ℕ → ℕ) (new_ndim : ℕ) (stale : ℕ → ℕ) (heap : Heap)
    → Matching tensor new_dim new_ndim
    → RoomForTwo new_ndim heap
    → (tensor' : Tensor) × (heap' : Heap) × (reshape_moved tensor new_dim new_ndim stale heap
        ≡ (eok, some tensor', heap'))
      × Reshaped tensor new_dim new_ndim tensor'
unfolding reshape_moved
reshape_moved-Reshaped tensor new_dim new_ndim stale heap match room =
    let first : ((kmalloc (new_ndim * 8 % 2 ^ 64) heap).0 == null) ≡ false =
      ground (arith, room.shape) in
    let second : ((kmalloc (new_ndim * 8 % 2 ^ 64) (kmalloc (new_ndim * 8 % 2 ^ 64) heap).1).0
          == null)
        ≡ false =
      ground (arith, room.strides) in
    let h : Heap = kfree tensor.strides (
      kfree tensor.shape
        (kmalloc (new_ndim * 8 % 2 ^ 64) (kmalloc (new_ndim * 8 % 2 ^ 64) heap).1).1) in
    let (tensor', e, reshaped) =
      reshape_filled-Reshaped tensor new_dim new_ndim match
        (record tensor {
          shape = (kmalloc (new_ndim * 8 % 2 ^ 64) heap).0;
          dim = stale;
          strides = (kmalloc (new_ndim * 8 % 2 ^ 64) (kmalloc (new_ndim * 8 % 2 ^ 64) heap).1).0;
          stride = stale;
          ndim = new_ndim;
        })
        stale h room.shape room.strides refl refl refl in
    (tensor', h, rw (first, second) e, reshaped)

-- When the tensor has its two arrays, the new shape has 1 to 2 ^ 31 dimensions and as many elements as the tensor, modulo 2 ^ 64,
-- and the heap has room for two arrays of its size, ai_tensor_reshape succeeds: the data stay where
-- they are, the size in bytes stays, the shape is the new one, and the strides are row-major for it.
pub ai_tensor_reshape-Reshaped :
    (tensor : Tensor) (new_dim : ℕ → ℕ) (new_ndim : ℕ) (stale : ℕ → ℕ) (heap : Heap)
    → tensor.shape ≢ null
    → tensor.strides ≢ null
    → Matching tensor new_dim new_ndim
    → RoomForTwo new_ndim heap
    → (tensor' : Tensor) × (heap' : Heap) × (ai_tensor_reshape
          (some tensor)
          (some new_dim)
          new_ndim
          stale
          heap
        ≡ (eok, some tensor', heap'))
      × Reshaped tensor new_dim new_ndim tensor'
unfolding ai_tensor_reshape
ai_tensor_reshape-Reshaped tensor new_dim new_ndim stale heap shape strides match room =
    let some_dim = match.some_dim in
    let has_dims : (new_ndim == 0) ≡ false = ground arith in
    let count : (total_elems new_ndim new_dim == total_elems tensor.ndim tensor.dim) ≡ true =
      ground (arith, match.count) in
    elim (Bool-cases (new_ndim == tensor.ndim)) [
      | inl e ↦
          let (tensor', made, reshaped) =
            reshape_filled-Reshaped tensor new_dim new_ndim match tensor stale heap shape strides
              refl refl (sym (eq_of_== new_ndim tensor.ndim e)) in
          (tensor', heap, rw (has_dims, count, e) made, reshaped)
      | inr e ↦
          let (tensor', heap', made, reshaped) =
            reshape_moved-Reshaped tensor new_dim new_ndim stale heap match room in
          (tensor', heap', rw (has_dims, count, e) made, reshaped)
    ]

reshape_filled-eok :
    (t : Tensor) (d : ℕ → ℕ) (n : ℕ) (stale : ℕ → ℕ) (heap : Heap)
    → (reshape_filled t d n stale heap).0 ≡ eok
unfolding reshape_filled
reshape_filled-eok t d n stale heap = refl

reshape_moved-keeps :
    (t : Tensor) (d : ℕ → ℕ) (n : ℕ) (stale : ℕ → ℕ) (heap : Heap)
    → (reshape_moved t d n stale heap).0 ≢ eok
    → (reshape_moved t d n stale heap).1 ≡ some t
unfolding reshape_moved
reshape_moved-keeps t d n stale heap ne =
    elim (Bool-cases ((kmalloc (n * 8 % 2 ^ 64) heap).0 == null)) [
      | inl e ↦ rw e refl
      | inr e ↦
          elim (Bool-cases
            ((kmalloc (n * 8 % 2 ^ 64) (kmalloc (n * 8 % 2 ^ 64) heap).1).0 == null)) [
              | inl e' ↦ rw (e, e') refl
              | inr e' ↦ absurd ((rw (e, e') at ne) (reshape_filled-eok _ d n stale _))
            ]
    ]

-- A call of ai_tensor_reshape that does not succeed leaves the tensor as it is.
pub ai_tensor_reshape-keeps :
    (tensor : Tensor) (new_shape : Option (ℕ → ℕ)) (new_ndim : ℕ) (stale : ℕ → ℕ) (heap : Heap)
    → (ai_tensor_reshape (some tensor) new_shape new_ndim stale heap).0 ≢ eok
    → (ai_tensor_reshape (some tensor) new_shape new_ndim stale heap).1 ≡ some tensor
unfolding ai_tensor_reshape
ai_tensor_reshape-keeps tensor none new_ndim stale heap h = refl
ai_tensor_reshape-keeps tensor (some new_dim) new_ndim stale heap h =
    elim (Bool-cases
      (new_ndim == 0 || not (total_elems new_ndim new_dim == total_elems tensor.ndim tensor.dim))) [
        | inl e ↦ rw e refl
        | inr e ↦ elim (Bool-cases (new_ndim == tensor.ndim)) [
          | inl e' ↦
              rw (e, e')
                (absurd ((rw (e, e') at h) (reshape_filled-eok tensor new_dim new_ndim stale heap)))
          | inr e' ↦
              rw (e, e') (reshape_moved-keeps tensor new_dim new_ndim stale heap (rw (e, e') at h))
        ]
      ]
