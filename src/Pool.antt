-- ===== src/Pool.antt =====
-- core/memory/ai_memory/ai_memory.c: the memory pool, with its small blocks and its free list.
-- The contents of the pool's arrays are functions of the index, which go on behind the arrays. The
-- messages are left out.
pub mod Small
pub mod Refined
pub mod Counted
pub mod Fit
pub mod Apart
pub mod Carve
pub mod Bounded
pub mod Freed
pub mod Init
pub mod Ready
pub mod Stats
mod Tests
use synapse_kernel.Prelude.{
  ℕ, zero, suc, ◌+◌, ◌-◌, ◌*◌, ◌/◌, ◌%◌, ◌^◌, Option, none, some, Bool, true, false, ◌&&◌, ◌||◌,
  not, Status, eok, ok, err, einvarg, enomem, leb, ltb, ◌==◌, if◌then◌else◌, update, first_from,
  bit, with_bit, without_bit,
}
use synapse_kernel.Heap.{Heap}
use synapse_kernel.Heap.Kheap.{kmalloc, kfree}
use synapse_kernel.Task.{Ptr, null}

-- AI_MEMORY_MIN_BLOCK_SIZE
abbrev pub min_block_size : ℕ
min_block_size = 64

-- AI_MEMORY_MAX_BLOCKS
abbrev pub max_blocks : ℕ
max_blocks = 4096

-- PAGE_SIZE
abbrev pub page_size : ℕ
page_size = 4096

-- `ai_mem_pool`, with the kernel heap. `free_blocks`, `free_block_sizes` and `small_block_bitmap`
-- are the addresses of the arrays, and `free_block`, `free_block_size` and `bitmap` what stands there.
pub record Pool : Type 0 where
  pub heap : Heap
  pub total_size : ℕ
  pub used_size : ℕ
  pub free_blocks : Ptr
  pub free_block : ℕ → Ptr
  pub free_block_sizes : Ptr
  pub free_block_size : ℕ → ℕ
  pub free_block_count : ℕ
  pub small_block_pool : Ptr
  pub small_block_bitmap : Ptr
  pub bitmap : ℕ → ℕ
  pub small_block_count : ℕ
  pub allocations : ℕ
  pub deallocations : ℕ
  pub peak_usage : ℕ

-- `small_block_bitmap[i / 64] & (1ULL << (i % 64))`
abbrev pub is_used : Pool → ℕ → Bool
is_used s i = bit (s.bitmap (i / 64)) (i % 64)

-- The statistics of an allocation of `n` bytes.
abbrev pub allocated : ℕ → Pool → Pool
allocated n s =
    let used = (s.used_size + n) % 2 ^ 64 in
    record s {
      used_size = used;
      allocations = (s.allocations + 1) % 2 ^ 64;
      peak_usage = if ltb s.peak_usage used then used else s.peak_usage;
    }

-- The statistics of a release of `n` bytes.
abbrev pub released : ℕ → Pool → Pool
released n s = record s {
  used_size = (s.used_size + 2 ^ 64 - n) % 2 ^ 64;
  deallocations = (s.deallocations + 1) % 2 ^ 64;
}

abbrev pub is_unused : Pool → ℕ → Bool
is_unused s i = not (is_used s i)

-- The size is not read. Returns the address, NULL on failure.
unfoldable pub alloc_small_block : Pool → Ptr × Pool
alloc_small_block s = elim (first_from s.small_block_count 0 (is_unused s)) [
  | none ↦ (null, s)
  | some i ↦ (
    (s.small_block_pool + i * min_block_size) % 2 ^ 64,
    allocated min_block_size
        (record s { bitmap = update s.bitmap (i / 64) (with_bit (s.bitmap (i / 64)) (i % 64)) }),
  )
]

-- `pool_end`
abbrev pub small_end : Pool → ℕ
small_end s = (s.small_block_pool + s.small_block_count * min_block_size) % 2 ^ 64

unfoldable pub free_small_block : Ptr → Pool → Status × Pool
free_small_block addr s =
    if ltb addr s.small_block_pool || leb (small_end s) addr
    then (err einvarg, s)
    else let i = (addr - s.small_block_pool) / min_block_size in
      if not (is_used s i) then (err einvarg, s) else (
        eok,
        released min_block_size (record s {
          bitmap = update s.bitmap (i / 64) (without_bit (s.bitmap (i / 64)) (i % 64));
        }),
      )

-- `(x + alignment - 1) & ~(alignment - 1)`, for an alignment that is a power of two
abbrev pub align_up : ℕ → ℕ → ℕ
align_up x alignment = (x + alignment - 1) % 2 ^ 64 / alignment * alignment

unfoldable pub align_pointer : Ptr → ℕ → Ptr
align_pointer ptr alignment = align_up ptr alignment

-- `alignment_overhead`
unfoldable pub overhead : Ptr → ℕ → ℕ
unfolding align_pointer
overhead block alignment = (align_pointer block alignment + 2 ^ 64 - block) % 2 ^ 64

-- `block_size >= size + alignment_overhead`
abbrev pub fits : Pool → ℕ → ℕ → ℕ → Bool
fits s size alignment i =
    leb ((size + overhead (s.free_block i) alignment) % 2 ^ 64) (s.free_block_size i)

-- The best-fit loop, with the rounds left: `best_idx`, `none` for -1, and `best_size`.
unfoldable pub best_fit_from : ℕ → ℕ → ℕ → ℕ → Pool → Option ℕ → ℕ → Option ℕ
best_fit_from zero i size alignment s best_idx best_size = best_idx
best_fit_from (suc rounds) i size alignment s best_idx best_size =
    let better = fits s size alignment i && ltb (s.free_block_size i) best_size in
    best_fit_from rounds (i + 1) size alignment s (if better then some i else best_idx)
      (if better then s.free_block_size i else best_size)

unfoldable pub best_fit : ℕ → ℕ → Pool → Option ℕ
unfolding best_fit_from
best_fit size alignment s = best_fit_from s.free_block_count 0 size alignment s none (2 ^ 64 - 1)

-- The entries from `i` on moved one down, in the first `count` of an array.
abbrev pub removed : {A : Type 0} → ℕ → ℕ → (ℕ → A) → ℕ → A
removed count i f j = if leb i j && ltb (j + 1) count then f (j + 1) else f j

-- The branch with no suitable block: the heap is asked.
unfoldable pub alloc_from_heap : ℕ → ℕ → Pool → Ptr × Pool
alloc_from_heap size alignment s =
    let alloc_size = (size + alignment) % 2 ^ 64 in
    let (new_block, heap) = kmalloc alloc_size s.heap in
    let s' = record s { heap = heap } in
    if new_block == null
    then (null, s')
    else (align_pointer new_block alignment, allocated alloc_size s')

-- The branch that takes the free block `i`: what is left of it stays in the list, if it is enough.
unfoldable pub alloc_from_block : ℕ → ℕ → ℕ → Pool → Ptr × Pool
alloc_from_block i size alignment s =
    let block = s.free_block i in
    let block_size = s.free_block_size i in
    let aligned_block = align_pointer block alignment in
    let extra = overhead block alignment in
    let remaining_size = (block_size + 2 ^ 64 - (size + extra) % 2 ^ 64) % 2 ^ 64 in
    if leb min_block_size remaining_size
    then (
      aligned_block,
      allocated ((size + extra) % 2 ^ 64) (record s {
        free_block = update s.free_block i ((aligned_block + size) % 2 ^ 64);
        free_block_size = update s.free_block_size i remaining_size;
      }),
    )
    else (
      aligned_block,
      allocated (((block_size + 2 ^ 64 - extra) % 2 ^ 64 + extra) % 2 ^ 64) (record s {
        free_block = removed s.free_block_count i s.free_block;
        free_block_size = removed s.free_block_count i s.free_block_size;
        free_block_count = s.free_block_count - 1;
      }),
    )

-- ai_memory_alloc for a size that is no small block.
unfoldable pub alloc_large : ℕ → ℕ → Pool → Ptr × Pool
alloc_large size alignment s = elim (best_fit size alignment s) [
  | none ↦ alloc_from_heap size alignment s
  | some i ↦ alloc_from_block i size alignment s
]

unfoldable pub ai_memory_alloc : ℕ → ℕ → Pool → Ptr × Pool
ai_memory_alloc size alignment s =
    if size == 0
    then (null, s)
    else let rounded = align_up size alignment in
      if leb rounded min_block_size then alloc_small_block s else alloc_large rounded alignment s

-- The free list takes the pointer with the size of a page, whatever its size was.
unfoldable pub free_large : Ptr → Pool → Pool
free_large ptr s =
    if ltb s.free_block_count max_blocks
    then released page_size (record s {
      free_block = update s.free_block s.free_block_count ptr;
      free_block_size = update s.free_block_size s.free_block_count page_size;
      free_block_count = s.free_block_count + 1;
    })
    else released page_size (record s { heap = kfree ptr s.heap })

unfoldable pub ai_memory_free : Ptr → Pool → Status × Pool
ai_memory_free ptr s =
    if ptr == null
    then (err einvarg, s)
    else let (res, s') = free_small_block ptr s in
      elim res [ ok _ ↦ (eok, s') | err e ↦ (eok, free_large ptr s') ]

-- The loop of ai_memory_init over the larger blocks, with the rounds left, and `blocks_allocated`.
unfoldable pub fill_from : ℕ → ℕ → Pool → ℕ × Pool
fill_from zero allocated_blocks s = (allocated_blocks, s)
fill_from (suc rounds) allocated_blocks s =
    let (block, heap) = kmalloc (64 * 1024) s.heap in
    let s' = record s { heap = heap } in
    elim (block == null) [
      | true ↦ (allocated_blocks, s')
      | false ↦ fill_from rounds (allocated_blocks + 1) (record s' {
        free_block = update s.free_block s.free_block_count block;
        free_block_size = update s.free_block_size s.free_block_count (64 * 1024);
        free_block_count = s.free_block_count + 1;
      })
    ]

-- `requested_pool_size`, and a quarter of it in whole pages
abbrev pub requested_pool_size : ℕ
requested_pool_size = 1 * 1024 * 1024

abbrev pub small_pool_size : ℕ
small_pool_size = requested_pool_size / 4 / page_size * page_size

-- ai_memory_init from the loop over the larger blocks on, with the small blocks in place.
unfoldable pub init_blocks : ℕ → Pool → Pool
init_blocks small_size s =
    let num_blocks = (requested_pool_size - small_size) / (64 * 1024) in
    let limited = if ltb (max_blocks - 1) num_blocks then max_blocks - 1 else num_blocks in
    let (blocks_allocated, s') = fill_from limited 0 s in
    record s' { total_size = small_size + blocks_allocated * (64 * 1024) }

-- The pool after the memset at the start, with what stood in the arrays' memory.
abbrev pub cleared_pool : Pool → Pool
cleared_pool s = record s {
  total_size = requested_pool_size;
  used_size = 0;
  free_blocks = null;
  free_block_sizes = null;
  free_block_count = 0;
  small_block_pool = null;
  small_block_bitmap = null;
  small_block_count = 0;
  allocations = 0;
  deallocations = 0;
  peak_usage = 0;
}

-- ai_memory_init from the call for the small blocks' memory on.
unfoldable pub init_small : Pool → Status × Pool
init_small s =
    let (p₁, h₁) = kmalloc small_pool_size s.heap in
    if not (p₁ == null)
    then (eok, init_blocks small_pool_size (record s { heap = h₁; small_block_pool = p₁ }))
    else let (p₂, h₂) = kmalloc (page_size * 4) h₁ in
      if not (p₂ == null)
      then (
        eok,
        init_blocks (page_size * 4) (record s {
          heap = h₂;
          small_block_pool = p₂;
          small_block_count = page_size * 4 / min_block_size;
        }),
      )
      else (
        err enomem,
        record s {
          heap = kfree s.free_blocks (kfree s.free_block_sizes (kfree s.small_block_bitmap h₂));
          small_block_pool = null;
        },
      )

-- `pool_size` is not read.
unfoldable pub ai_memory_init : ℕ → Pool → Status × Pool
ai_memory_init pool_size s =
    let (p₁, h₁) = kmalloc (max_blocks * 8) s.heap in
    let s₁ = record (cleared_pool s) { heap = h₁; free_blocks = p₁ } in
    if p₁ == null
    then (err enomem, s₁)
    else let (p₂, h₂) = kmalloc (max_blocks * 8) h₁ in
      let s₂ = record s₁ { heap = h₂; free_block_sizes = p₂ } in
      if p₂ == null
      then (err enomem, record s₂ { heap = kfree p₁ h₂ })
      else let count = small_pool_size / min_block_size in
        let words = (count + 63) / 64 in
        let (p₃, h₃) = kmalloc (words * 8) h₂ in
        let s₃ = record s₂ { heap = h₃; small_block_count = count; small_block_bitmap = p₃ } in
        if p₃ == null
        then (err enomem, record s₃ { heap = kfree p₁ (kfree p₂ h₃) })
        else init_small (record s₃ { bitmap = λ j. if ltb j words then 0 else s.bitmap j })

-- The number of free small blocks that ai_memory_print_stats counts, with the rounds left.
unfoldable pub free_blocks_from : ℕ → ℕ → Pool → ℕ → ℕ
free_blocks_from zero i s count = count
free_blocks_from (suc rounds) i s count =
    free_blocks_from rounds (i + 1) s (if is_unused s i then count + 1 else count)

unfoldable pub free_small_blocks : Pool → ℕ
unfolding free_blocks_from
free_small_blocks s = free_blocks_from s.small_block_count 0 s 0
