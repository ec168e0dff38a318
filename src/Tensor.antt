-- ===== src/Tensor.antt =====
-- core/memory/ai_memory/ai_memory.c, includes/synapse/memory/ai_memory/ai_memory.h: the tensors.
-- A `size_t` array is the function of its elements, and a caller's array that may be NULL is an
-- option of one; a tensor's own arrays have their addresses beside them. A `tensor_t*` is an option
-- of the tensor. `byte` is the bytes of the tensors' data by address. The messages are left out.
pub mod Strides
pub mod Rank
pub mod Element
pub mod View
pub mod Reshape
pub mod Layout
pub mod Making
pub mod Create
mod Tests
use synapse_kernel.Prelude.{
  ℕ, zero, suc, ◌+◌, ◌-◌, ◌*◌, ◌/◌, ◌%◌, ◌^◌, Option, none, some, Bool, true, false, ◌&&◌, ◌||◌,
  not, Status, eok, err, einvarg, enomem, leb, ltb, ◌==◌, if◌then◌else◌, update, bit,
}
use synapse_kernel.Heap.{Heap}
use synapse_kernel.Heap.Kheap.{kmalloc, kfree}
use synapse_kernel.Task.{Ptr, null}
use synapse_kernel.Pool.{Pool, ai_memory_alloc, ai_memory_free}

-- The values of `tensor_dtype_t`, up to TENSOR_TYPE_COUNT.
abbrev pub tensor_type_int8 : ℕ
tensor_type_int8 = 0

abbrev pub tensor_type_int16 : ℕ
tensor_type_int16 = 1

abbrev pub tensor_type_int32 : ℕ
tensor_type_int32 = 2

abbrev pub tensor_type_float16 : ℕ
tensor_type_float16 = 3

abbrev pub tensor_type_float32 : ℕ
tensor_type_float32 = 4

abbrev pub tensor_type_count : ℕ
tensor_type_count = 5

-- `tensor_t` with its address. `dim` and `stride` are the elements of the arrays at `shape` and
-- `strides`; `layout` is the value of a `tensor_layout_t`.
pub record Tensor : Type 0 where
  pub address : Ptr
  pub data_ptr : Ptr
  pub shape : Ptr
  pub dim : ℕ → ℕ
  pub strides : Ptr
  pub stride : ℕ → ℕ
  pub ndim : ℕ
  pub elem_size : ℕ
  pub dtype : ℕ
  pub layout : ℕ
  pub flags : ℕ

-- `sizeof(tensor_t)`
abbrev pub tensor_size : ℕ
tensor_size = 56

-- `flags & TENSOR_MEM_ZEROED`, `flags & TENSOR_MEM_ALIGNED`
abbrev pub is_zeroed : ℕ → Bool
is_zeroed flags = bit flags 0

abbrev pub is_aligned : ℕ → Bool
is_aligned flags = bit flags 1

unfoldable pub ai_memory_get_optimal_alignment : ℕ → ℕ
ai_memory_get_optimal_alignment dtype =
    if dtype == tensor_type_int8
    then 16
    else if dtype == tensor_type_int16 || dtype == tensor_type_float16
    then 16
    else if dtype == tensor_type_int32 || dtype == tensor_type_float32
    then 32
    else 8

unfoldable pub ai_tensor_get_elem_size : ℕ → ℕ
ai_tensor_get_elem_size dtype =
    if dtype == tensor_type_int8
    then 1
    else if dtype == tensor_type_int16 || dtype == tensor_type_float16
    then 2
    else if dtype == tensor_type_int32 || dtype == tensor_type_float32
    then 4
    else 0

-- The rounds of `for (int i = ndim - 2; i >= 0; i--)`: none from a negative `int` on.
abbrev pub stride_rounds : ℕ → ℕ
stride_rounds ndim = let i = (ndim - 2) % 2 ^ 32 in if ltb i (2 ^ 31) then i + 1 else 0

-- That loop, with the rounds left, one more than `i`.
unfoldable pub stride_loop : ℕ → (ℕ → ℕ) → (ℕ → ℕ) → ℕ → ℕ
stride_loop zero dim stride = stride
stride_loop (suc i) dim stride =
    stride_loop i dim (update stride i (stride (i + 1) * dim (i + 1) % 2 ^ 64))

-- The elements of the strides array as calculate_strides leaves them.
unfoldable pub filled_strides : ℕ → (ℕ → ℕ) → (ℕ → ℕ) → ℕ → ℕ
unfolding stride_loop
filled_strides ndim dim stride =
    if ndim == 1
    then update stride 0 1
    else if ndim == 2
    then update (update stride 1 1) 0 (dim 1)
    else stride_loop (stride_rounds ndim) dim (update stride (ndim - 1) 1)

-- For a tensor that is not NULL. `stale` is what new memory holds.
unfoldable pub calculate_strides : Tensor → (ℕ → ℕ) → Heap → Tensor × Heap
calculate_strides tensor stale heap =
    if tensor.shape == null || tensor.ndim == 0
    then (tensor, heap)
    else if not (tensor.strides == null)
    then (record tensor { stride = filled_strides tensor.ndim tensor.dim tensor.stride }, heap)
    else let (p, heap') = kmalloc (tensor.ndim * 8 % 2 ^ 64) heap in
      if p == null then (record tensor { strides = null }, heap') else (
        record tensor { strides = p; stride = filled_strides tensor.ndim tensor.dim stale },
        heap',
      )

-- The loops over the shape that multiply, with the rounds left, `i` and the product.
unfoldable pub elems_from : ℕ → ℕ → (ℕ → ℕ) → ℕ → ℕ
elems_from zero i dim total = total
elems_from (suc rounds) i dim total = elems_from rounds (i + 1) dim (total * dim i % 2 ^ 64)

unfoldable pub total_elems : ℕ → (ℕ → ℕ) → ℕ
unfolding elems_from
total_elems ndim dim = elems_from ndim 0 dim 1

-- `for (i = 0; i < ndim; i++) to[i] = from[i];`
abbrev pub copied : ℕ → (ℕ → ℕ) → (ℕ → ℕ) → ℕ → ℕ
copied ndim from to i = if ltb i ndim then from i else to i

-- `memset(p, 0, n)` on the data.
abbrev pub zeroed : Ptr → ℕ → (ℕ → ℕ) → ℕ → ℕ
zeroed p n byte a = if leb p a && ltb a (p + n) then 0 else byte a

-- `alignment` of ai_tensor_create and ai_tensor_get_alignment
abbrev pub alignment_of : ℕ → ℕ → ℕ
alignment_of dtype flags = if is_aligned flags then ai_memory_get_optimal_alignment dtype else 8

-- What ai_tensor_create does from the call for the data on, with the descriptor in place.
unfoldable pub create_data : Tensor → ℕ → ℕ → Pool → (ℕ → ℕ) → Option Tensor × Pool × (ℕ → ℕ)
create_data tensor memory_size alignment s byte =
    let (p, s') = ai_memory_alloc memory_size alignment s in
    if p == null
    then (
      none,
      record s' { heap = kfree tensor.address (kfree tensor.shape (kfree tensor.strides s'.heap)) },
      byte,
    )
    else (
      some (record tensor { data_ptr = p }),
      s',
      if is_zeroed tensor.flags then zeroed p memory_size byte else byte,
    )

-- ai_tensor_create once its arguments are valid.
unfoldable pub create_valid :
    (ℕ → ℕ) → ℕ → ℕ → ℕ → ℕ → (ℕ → ℕ) → Pool → (ℕ → ℕ) → Option Tensor × Pool × (ℕ → ℕ)
create_valid dim ndim dtype layout flags stale s byte =
    let elem_size = ai_tensor_get_elem_size dtype in
    let memory_size = total_elems ndim dim * elem_size % 2 ^ 64 in
    let (p, h) = kmalloc tensor_size s.heap in
    if p == null
    then (none, record s { heap = h }, byte)
    else let (shape, h') = kmalloc (ndim * 8 % 2 ^ 64) h in
      if shape == null
      then (none, record s { heap = kfree p h' }, byte)
      else let (strides, h'') = kmalloc (ndim * 8 % 2 ^ 64) h' in
        if strides == null
        then (none, record s { heap = kfree p (kfree shape h'') }, byte)
        else let (tensor, heap) =
            calculate_strides
              (record {
                address = p;
                data_ptr = null;
                shape = shape;
                dim = copied ndim dim stale;
                strides = strides;
                stride = stale;
                ndim = ndim;
                elem_size = elem_size;
                dtype = dtype;
                layout = layout;
                flags = flags;
              })
              stale h'' in
          create_data tensor memory_size (alignment_of dtype flags) (record s { heap = heap }) byte

unfoldable pub ai_tensor_create :
    Option (ℕ → ℕ) → ℕ → ℕ → ℕ → ℕ → (ℕ → ℕ) → Pool → (ℕ → ℕ) → Option Tensor × Pool × (ℕ → ℕ)
ai_tensor_create none ndim dtype layout flags stale s byte = (none, s, byte)
ai_tensor_create (some dim) ndim dtype layout flags stale s byte =
    if ndim == 0 || leb tensor_type_count dtype
    then (none, s, byte)
    else create_valid dim ndim dtype layout flags stale s byte

-- `if (p) kfree(p);`
abbrev pub kfree_given : Ptr → Heap → Heap
kfree_given p heap = if p == null then heap else kfree p heap

unfoldable pub ai_tensor_destroy : Option Tensor → Pool → Status × Pool
ai_tensor_destroy none s = (err einvarg, s)
ai_tensor_destroy (some tensor) s =
    let s' = if tensor.data_ptr == null then s else (ai_memory_free tensor.data_ptr s).1 in
    (
      eok,
      record s' {
        heap = kfree tensor.address (kfree_given tensor.strides (kfree_given tensor.shape s'.heap));
      },
    )

-- ai_tensor_reshape from the copy of the shape on.
unfoldable pub reshape_filled :
    Tensor → (ℕ → ℕ) → ℕ → (ℕ → ℕ) → Heap → Status × Option Tensor × Heap
reshape_filled tensor new_dim new_ndim stale heap =
    let (tensor', heap') =
      calculate_strides (record tensor { dim = copied new_ndim new_dim tensor.dim }) stale heap in
    (eok, some tensor', heap')

-- The branch of ai_tensor_reshape that makes new arrays.
unfoldable pub reshape_moved : Tensor → (ℕ → ℕ) → ℕ → (ℕ → ℕ) → Heap → Status × Option Tensor × Heap
reshape_moved tensor new_dim new_ndim stale heap =
    let (shape, h) = kmalloc (new_ndim * 8 % 2 ^ 64) heap in
    if shape == null
    then (err enomem, some tensor, h)
    else let (strides, h') = kmalloc (new_ndim * 8 % 2 ^ 64) h in
      if strides == null
      then (err enomem, some tensor, kfree shape h')
      else reshape_filled
          (record tensor {
            shape = shape;
            dim = stale;
            strides = strides;
            stride = stale;
            ndim = new_ndim;
          })
          new_dim new_ndim stale (kfree tensor.strides (kfree tensor.shape h'))

-- Returns the status, the tensor after the call and the heap.
unfoldable pub ai_tensor_reshape :
    Option Tensor → Option (ℕ → ℕ) → ℕ → (ℕ → ℕ) → Heap → Status × Option Tensor × Heap
ai_tensor_reshape none new_shape new_ndim stale heap = (err einvarg, none, heap)
ai_tensor_reshape (some tensor) none new_ndim stale heap = (err einvarg, some tensor, heap)
ai_tensor_reshape (some tensor) (some new_dim) new_ndim stale heap =
    if new_ndim == 0 || not (total_elems new_ndim new_dim == total_elems tensor.ndim tensor.dim)
    then (err einvarg, some tensor, heap)
    else if new_ndim == tensor.ndim
    then reshape_filled tensor new_dim new_ndim stale heap
    else reshape_moved tensor new_dim new_ndim stale heap

unfoldable pub ai_tensor_set_layout :
    Option Tensor → ℕ → (ℕ → ℕ) → Heap → Status × Option Tensor × Heap
ai_tensor_set_layout none new_layout stale heap = (err einvarg, none, heap)
ai_tensor_set_layout (some tensor) new_layout stale heap =
    if tensor.layout == new_layout
    then (eok, some tensor, heap)
    else let (tensor', heap') =
        calculate_strides (record tensor { layout = new_layout }) stale heap in
      (eok, some tensor', heap')

unfoldable pub ai_tensor_get_alignment : Option Tensor → ℕ
ai_tensor_get_alignment none = 0
ai_tensor_get_alignment (some tensor) = alignment_of tensor.dtype tensor.flags

unfoldable pub ai_tensor_get_size : Option Tensor → ℕ
ai_tensor_get_size none = 0
ai_tensor_get_size (some tensor) = total_elems tensor.ndim tensor.dim * tensor.elem_size % 2 ^ 64

-- The loops that add up an offset, with the rounds left, `i` and the sum.
unfoldable pub offset_from : ℕ → ℕ → (ℕ → ℕ) → (ℕ → ℕ) → ℕ → ℕ
offset_from zero i indices stride offset = offset
offset_from (suc rounds) i indices stride offset =
    offset_from rounds (i + 1) indices stride ((offset + indices i * stride i) % 2 ^ 64)

-- `data + offset * elem_size`, with the offset of the indices
abbrev pub element_at : Tensor → (ℕ → ℕ) → Ptr
element_at tensor indices =
    (tensor.data_ptr + offset_from tensor.ndim 0 indices tensor.stride 0 * tensor.elem_size)
    % 2 ^ 64

unfoldable pub ai_tensor_get_element : Option Tensor → Option (ℕ → ℕ) → Ptr
ai_tensor_get_element none indices = null
ai_tensor_get_element (some tensor) none = null
ai_tensor_get_element (some tensor) (some indices) = element_at tensor indices

-- The caller's bytes lie apart from the tensor's data.
unfoldable pub ai_tensor_copy_data : Option Tensor → Option (ℕ → ℕ) → ℕ → (ℕ → ℕ) → Status × (ℕ → ℕ)
unfolding ai_tensor_get_size
ai_tensor_copy_data none from size byte = (err einvarg, byte)
ai_tensor_copy_data (some tensor) none size byte = (err einvarg, byte)
ai_tensor_copy_data (some tensor) (some from) size byte =
    let whole = ai_tensor_get_size (some tensor) in
    let count = if ltb whole size then whole else size in
    (
      eok,
      λ a.
          if leb tensor.data_ptr a && ltb a (tensor.data_ptr + count)
          then from (a - tensor.data_ptr)
          else byte a,
    )

-- The loop of ai_tensor_view that checks the bounds, with the rounds left: whether it ends.
unfoldable pub in_bounds_from : ℕ → ℕ → (ℕ → ℕ) → (ℕ → ℕ) → (ℕ → ℕ) → Bool
in_bounds_from zero i start_indices shape dim = true
in_bounds_from (suc rounds) i start_indices shape dim =
    let rest = in_bounds_from rounds (i + 1) start_indices shape dim in
    if ltb (dim i) ((start_indices i + shape i) % 2 ^ 64) then false else rest

-- ai_tensor_view once the view lies within the bounds.
unfoldable pub view_within : Tensor → (ℕ → ℕ) → (ℕ → ℕ) → (ℕ → ℕ) → Heap → Option Tensor × Heap
view_within tensor start_indices shape stale heap =
    let (p, h) = kmalloc tensor_size heap in
    if p == null
    then (none, h)
    else let (shape_p, h') = kmalloc (tensor.ndim * 8 % 2 ^ 64) h in
      if shape_p == null
      then (none, kfree p h')
      else let (strides_p, h'') = kmalloc (tensor.ndim * 8 % 2 ^ 64) h' in
        if strides_p == null then (none, kfree p (kfree shape_p h'')) else (
          some (record tensor {
            address = p;
            data_ptr = element_at tensor start_indices;
            shape = shape_p;
            dim = copied tensor.ndim shape stale;
            strides = strides_p;
            stride = copied tensor.ndim tensor.stride stale;
          }),
          h'',
        )

unfoldable pub ai_tensor_view :
    Option Tensor → Option (ℕ → ℕ) → Option (ℕ → ℕ) → (ℕ → ℕ) → Heap → Option Tensor × Heap
unfolding in_bounds_from
ai_tensor_view none start_indices shape stale heap = (none, heap)
ai_tensor_view (some tensor) none shape stale heap = (none, heap)
ai_tensor_view (some tensor) (some start_indices) none stale heap = (none, heap)
ai_tensor_view (some tensor) (some start_indices) (some shape) stale heap =
    if in_bounds_from tensor.ndim 0 start_indices shape tensor.dim
    then view_within tensor start_indices shape stale heap
    else (none, heap)
