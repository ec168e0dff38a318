-- ===== src/Tensor/View.antt =====
-- ai_tensor_view: the elements of a view are elements of the tensor.
use synapse_kernel.Prelude.{
  ℕ, zero, suc, ◌+◌, ◌*◌, ◌%◌, ◌^◌, ◌≤◌, ◌<◌, ◌≡◌, ◌≢◌, refl, arith, true, false, some, ltb, ◌==◌,
}
use native.Mathlib.Nat.{add-mul}
use synapse_kernel.Heap.{Heap}
use synapse_kernel.Heap.Kheap.{kmalloc}
use synapse_kernel.Task.{null}
use synapse_kernel.Tensor.{
  Tensor, tensor_size, copied, offset_from, element_at, in_bounds_from, view_within, ai_tensor_view,
  ai_tensor_get_element, ai_tensor_get_size,
}
use synapse_kernel.Tensor.Strides.{mod-mul-mod}
use synapse_kernel.Tensor.Rank.{InShape}
use synapse_kernel.Tensor.Element.{Sound, ai_tensor_get_element-ai_tensor_get_size}

-- The indices of the tensor for the indices of the view.
abbrev pub moved : (ℕ → ℕ) → (ℕ → ℕ) → ℕ → ℕ
moved start indices i = (start i + indices i) % 2 ^ 64

module _ (start indices stride stride' : ℕ → ℕ) where
  offset_from-moved :
      (k i a b : ℕ)
      → a < 2 ^ 64
      → b < 2 ^ 64
      → ((j : ℕ) → i ≤ j → j < i + k → stride' j ≡ stride j)
      → offset_from k i (moved start indices) stride ((a + b) % 2 ^ 64)
        ≡ (offset_from k i start stride a + offset_from k i indices stride' b) % 2 ^ 64
  unfolding offset_from
  offset_from-moved zero i a b la lb same = refl
  offset_from-moved (suc k) i a b la lb same =
      let at = same i (omega arith) (omega arith) in
      let factor = mod-mul-mod (start i + indices i) (stride i) (2 ^ 64) in
      let sum = add-mul (start i) (indices i) (stride i) in
      let step : ((a + b) % 2 ^ 64 + moved start indices i * stride i) % 2 ^ 64
          ≡ ((a + start i * stride i) % 2 ^ 64 + (b + indices i * stride i) % 2 ^ 64) % 2 ^ 64 =
        omega arith in
      rw (step, at)
        (offset_from-moved k (i + 1) ((a + start i * stride i) % 2 ^ 64)
          ((b + indices i * stride i) % 2 ^ 64) (omega arith) (omega arith)
          (λ j lo hi. same j (omega arith) (omega arith)))

-- The bounds hold in every dimension.
abbrev pub InBounds : Tensor → (ℕ → ℕ) → (ℕ → ℕ) → Type 0
InBounds tensor start shape =
    (i : ℕ) → i < tensor.ndim → (start i + shape i) % 2 ^ 64 ≤ tensor.dim i

in_bounds_from-true :
    (k i : ℕ) (start shape dim : ℕ → ℕ)
    → ((j : ℕ) → i ≤ j → j < i + k → (start j + shape j) % 2 ^ 64 ≤ dim j)
    → in_bounds_from k i start shape dim ≡ true
unfolding in_bounds_from
in_bounds_from-true zero i start shape dim h = refl
in_bounds_from-true (suc k) i start shape dim h =
    let here = h i (omega arith) (omega arith) in
    let inside : ltb (dim i) ((start i + shape i) % 2 ^ 64) ≡ false = ground arith in
    rw inside
      (in_bounds_from-true k (i + 1) start shape dim (λ j lo hi. h j (omega arith) (omega arith)))

-- The heap has room for the view's descriptor and its two arrays of `ndim` elements.
pub record HasRoom (ndim : ℕ) (heap : Heap) : Type 0 where
  pub descriptor : (kmalloc tensor_size heap).0 ≢ null
  pub shape : (kmalloc (ndim * 8 % 2 ^ 64) (kmalloc tensor_size heap).1).0 ≢ null
  pub strides :
      (kmalloc (ndim * 8 % 2 ^ 64) (kmalloc (ndim * 8 % 2 ^ 64) (kmalloc tensor_size heap).1).1).0
      ≢ null

-- What is known of a view.
pub record IsView (tensor : Tensor) (start shape : ℕ → ℕ) (view : Tensor) : Type 0 where
  pub same_ndim : view.ndim ≡ tensor.ndim
  pub same_elem_size : view.elem_size ≡ tensor.elem_size
  pub dims : (i : ℕ) → i < tensor.ndim → view.dim i ≡ shape i
  pub elements :
      (indices : ℕ → ℕ)
      → ai_tensor_get_element (some view) (some indices)
        ≡ ai_tensor_get_element (some tensor) (some (moved start indices))

view_elements :
    (tensor view : Tensor) (start indices : ℕ → ℕ)
    → view.ndim ≡ tensor.ndim
    → view.elem_size ≡ tensor.elem_size
    → view.data_ptr ≡ element_at tensor start
    → ((j : ℕ) → j < tensor.ndim → view.stride j ≡ tensor.stride j)
    → ai_tensor_get_element (some view) (some indices)
      ≡ ai_tensor_get_element (some tensor) (some (moved start indices))
unfolding ai_tensor_get_element
view_elements tensor view start indices ndim elem_size at strides =
    let off = offset_from tensor.ndim 0 start tensor.stride 0 in
    let off' = offset_from tensor.ndim 0 indices view.stride 0 in
    let all =
      offset_from-moved start indices tensor.stride view.stride tensor.ndim 0 0 0 (omega arith)
        (omega arith) (λ j lo hi. strides j (omega arith)) in
    let sum = add-mul off off' tensor.elem_size in
    let factor = mod-mul-mod (off + off') tensor.elem_size (2 ^ 64) in
    rw (ndim, elem_size, at, all) (omega arith)

-- When the start plus the shape is, modulo 2 ^ 64, at most the tensor's dimension everywhere, and the
-- heap has room for the descriptor and the two arrays, ai_tensor_view returns a view with the given
-- shape, and the element of the view at any indices is the tensor's element at the start plus the
-- indices, modulo 2 ^ 64.
pub ai_tensor_view-IsView :
    (tensor : Tensor) (start shape stale : ℕ → ℕ) (heap : Heap)
    → InBounds tensor start shape
    → HasRoom tensor.ndim heap
    → (view : Tensor) × ((ai_tensor_view (some tensor) (some start) (some shape) stale heap).0
        ≡ some view)
      × IsView tensor start shape view
unfolding ai_tensor_view view_within
ai_tensor_view-IsView tensor start shape stale heap inside room =
    let bounds =
      in_bounds_from-true tensor.ndim 0 start shape tensor.dim
        (λ j lo hi. inside j (omega arith)) in
    let first : ((kmalloc tensor_size heap).0 == null) ≡ false = ground (arith, room.descriptor) in
    let second : ((kmalloc (tensor.ndim * 8 % 2 ^ 64) (kmalloc tensor_size heap).1).0 == null)
        ≡ false =
      ground (arith, room.shape) in
    let third : ((kmalloc (tensor.ndim * 8 % 2 ^ 64)
            (kmalloc (tensor.ndim * 8 % 2 ^ 64) (kmalloc tensor_size heap).1).1).0
          == null)
        ≡ false =
      ground (arith, room.strides) in
    rw (bounds, first, second, third)
      (
        _,
        refl,
        record {
          same_ndim = refl;
          same_elem_size = refl;
          dims = λ i lt. copied_below tensor.ndim i shape stale lt;
          elements = λ indices.
              view_elements tensor _ start indices refl refl refl
                (λ j lt. copied_below tensor.ndim j tensor.stride stale lt);
        },
      )
  where
    copied_below : (n i : ℕ) (from to : ℕ → ℕ) → i < n → copied n from to i ≡ from i
    copied_below n i from to lt = ground arith

-- When in addition no sum of a start and a shape wraps, the tensor's strides are row-major and its
-- data lie in the address space, ai_tensor_view returns a view whose element at indices inside the
-- given shape has all its bytes in the tensor's data.
pub ai_tensor_view-inside :
    (tensor : Tensor) (start shape stale indices : ℕ → ℕ) (heap : Heap)
    → Sound tensor
    → InBounds tensor start shape
    → HasRoom tensor.ndim heap
    → ((i : ℕ) → i < tensor.ndim → start i + shape i < 2 ^ 64)
    → InShape shape indices 0 tensor.ndim
    → (view : Tensor) × ((ai_tensor_view (some tensor) (some start) (some shape) stale heap).0
        ≡ some view)
      × (tensor.data_ptr ≤ ai_tensor_get_element (some view) (some indices))
      × (ai_tensor_get_element (some view) (some indices) + view.elem_size
          ≤ tensor.data_ptr + ai_tensor_get_size (some tensor))
ai_tensor_view-inside tensor start shape stale indices heap sound inside room sums within =
    let (view, made, is_view) = ai_tensor_view-IsView tensor start shape stale heap inside room in
    let shifted : InShape tensor.dim (moved start indices) 0 tensor.ndim = record {
      bounded = λ j lo hi.
          let lt : j < tensor.ndim = omega arith in
          omega (arith, within.bounded j lo hi, inside j lt, sums j lt);
    } in
    let (low, high) =
      ai_tensor_get_element-ai_tensor_get_size tensor sound (moved start indices) shifted in
    (
      view,
      made,
      rw (is_view.elements indices) low,
      rw (is_view.elements indices, is_view.same_elem_size) high,
    )
