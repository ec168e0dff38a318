-- ===== src/Process/Allocations.antt =====
-- process_malloc, process_free and the size of what a process owns.
use synapse_kernel.Prelude.{
  ℕ, zero, suc, ◌+◌, ◌%◌, ◌^◌, ◌≤◌, ◌<◌, ◌≡◌, ◌≢◌, refl, sym, ap, subst, ◌∙◌, arith, Bool, true,
  false, eok, ◌==◌, if◌then◌else◌, update, first_from-cases, FirstIndex, ==_ne, ==_self, eq_of_==,
  Bool-cases, inl, inr, fun_ext,
}
use synapse_kernel.Heap.{Heap}
use synapse_kernel.Heap.Kheap.{kmalloc, kfree}
use synapse_kernel.Task.{Ptr, null}
use synapse_kernel.Process.{
  Allocation, Process, Kernel, set_heap, set_process, max_processes_allocations, is_free,
  is_allocation, process_malloc, process_free, process_find_free_allocation_index,
  process_get_memory_usage, usage_from,
}

-- Entry `i` is the first free one of the process.
abbrev pub FirstFree : Ptr → Kernel → ℕ → Type 0
FirstFree process k i =
    FirstIndex max_processes_allocations 0 (is_free (k.process process).allocations) i

-- What process_malloc does with a free entry and an address from kmalloc.
abbrev pub recorded : Ptr → ℕ → Kernel → ℕ → Kernel
recorded process size k i =
    let (ptr, heap) = kmalloc size k.tasks.heap in
    let p = k.process process in
    set_process (set_heap k heap) process
      (record p { allocations = update p.allocations i (record { ptr = ptr; size = size }) })

-- `p` with entry `i` cleared
abbrev pub without : Process → ℕ → Process
without p i = record p { allocations = update p.allocations i (record { ptr = null; size = 0 }) }

pub process_free-found :
    (process : Ptr) (ptr : Ptr) (k : Kernel) (i : ℕ)
    → process ≢ null
    → ptr ≢ null
    → FirstIndex max_processes_allocations 0 (is_allocation (k.process process).allocations ptr) i
    → process_free process ptr k ≡ (
      eok,
      set_process (set_heap k (kfree ptr k.tasks.heap)) process (without (k.process process) i),
    )
unfolding process_free
process_free-found process ptr k i a b f = rw (==_ne process null a, ==_ne ptr null b, f.finds)

module _ {ℓ} {A : Type ℓ} (f : ℕ → A) (i : ℕ) (v w : A) where
  pub update-update : update (update f i v) i w ≡ update f i w
  update-update = fun_ext (λ j. ground arith)

-- The address that was just recorded is found where it was.
found_again :
    (allocations : ℕ → Allocation) (q : Ptr) (size i : ℕ)
    → i < max_processes_allocations
    → ((j : ℕ) → j < max_processes_allocations → (allocations j).ptr ≢ q)
    → let entry = is_allocation (update allocations i (record { ptr = q; size = size })) q in
      FirstIndex max_processes_allocations 0 entry i
found_again allocations q size i h fresh =
    elim (first_from-cases max_processes_allocations 0 entry) [
      | inl n ↦ absurd (true≢false here (n.fails i (omega arith) (omega arith)))
      | inr (j, f) ↦ elim (Bool-cases (i == j)) [
        | inl e ↦ subst (FirstIndex max_processes_allocations 0 entry) (sym (eq_of_== i j e)) f
        | inr e ↦ absurd (fresh j (omega (arith, f.below)) (other j e f.passes))
      ]
    ]
  where
    entry : ℕ → Bool
    entry = is_allocation (update allocations i (record { ptr = q; size = size })) q

    here : entry i ≡ true
    here = ground arith

    other : (j : ℕ) → (i == j) ≡ false → entry j ≡ true → (allocations j).ptr ≡ q
    other j e = rw e (λ t. eq_of_== _ _ t)

    true≢false : {b : Bool} → b ≡ true → b ≡ false → ⊥
    true≢false t f = ground arith

-- process_free of the address in entry `i` of the state that process_malloc leaves.
free_recorded :
    (process : Ptr) (size : ℕ) (k : Kernel) (i : ℕ)
    → process ≢ null
    → (kmalloc size k.tasks.heap).0 ≢ null
    → i < max_processes_allocations
    → ((j : ℕ)
        → j < max_processes_allocations
        → ((k.process process).allocations j).ptr ≢ (kmalloc size k.tasks.heap).0)
    → let (ptr, heap) = kmalloc size k.tasks.heap in
      process_free process ptr (recorded process size k i)
      ≡ (eok, set_process (set_heap k (kfree ptr heap)) process (without (k.process process) i))
free_recorded process size k i a c h fresh =
    process_free-found process q k' i a c (rw same (found_again p.allocations q size i h fresh))
    ∙ ap (λ p'. (eok, set_process (set_heap k' freed) process (without p' i))) same
    ∙ ap {A = ℕ → Process} (λ g. (eok, record (set_heap k freed) { process = g }))
        (update-update k.process process p' (without p' i))
    ∙ ap {A = ℕ → Allocation}
        (λ g. (eok, set_process (set_heap k freed) process (record p { allocations = g })))
        (update-update p.allocations i (record { ptr = q; size = size })
          (record { ptr = null; size = 0 }))
  where
    q : Ptr
    q = (kmalloc size k.tasks.heap).0

    p : Process
    p = k.process process

    freed : Heap
    freed = kfree q (kmalloc size k.tasks.heap).1

    p' : Process
    p' = record p { allocations = update p.allocations i (record { ptr = q; size = size }) }

    k' : Kernel
    k' = recorded process size k i

    same : k'.process process ≡ p'
    same = rw (==_self process)

module _ (process : Ptr) (size : ℕ) (k : Kernel) where
  pub process_malloc-recorded :
      (i : ℕ)
      → process ≢ null
      → size ≢ 0
      → FirstFree process k i
      → (kmalloc size k.tasks.heap).0 ≢ null
      → process_malloc process size k ≡ ((kmalloc size k.tasks.heap).0, recorded process size k i)
  unfolding process_malloc process_find_free_allocation_index
  process_malloc-recorded i a b f c =
      rw (==_ne process null a, ==_ne size 0 b, f.finds, ==_ne _ null c)

  -- An address that the process does not own yet: process_malloc records it with the size in the
  -- first free entry, and process_free of it succeeds, gives it back to kfree, and leaves the
  -- processes as they were, but for the entry, which is cleared.
  pub process_free-process_malloc :
      (i : ℕ)
      → process ≢ null
      → size ≢ 0
      → FirstFree process k i
      → (kmalloc size k.tasks.heap).0 ≢ null
      → ((j : ℕ)
          → j < max_processes_allocations
          → ((k.process process).allocations j).ptr ≢ (kmalloc size k.tasks.heap).0)
      → let (ptr, k') = process_malloc process size k in
        let p = k.process process in
        (ptr ≡ (kmalloc size k.tasks.heap).0)
        × ((k'.process process).allocations i ≡ record { ptr = ptr; size = size })
        × (process_free process ptr k'
            ≡ (eok, set_process (set_heap k (kfree ptr k'.tasks.heap)) process (without p i)))
  process_free-process_malloc i a b f c fresh =
      rw (process_malloc-recorded i a b f c)
        (refl, rw (==_self process, ==_self i), free_recorded process size k i a c f.below fresh)

-- The sum of the sizes of the entries in use, `rounds` of them from `i` on.
pub used : ℕ → ℕ → (ℕ → Allocation) → ℕ
used zero i allocations = 0
used (suc rounds) i allocations =
    (if (allocations i).ptr == null then 0 else (allocations i).size)
    + used rounds (i + 1) allocations

usage_from-used :
    (rounds i total : ℕ) (allocations : ℕ → Allocation)
    → usage_from rounds i (total % 2 ^ 64) allocations
      ≡ (total + used rounds i allocations) % 2 ^ 64
unfolding usage_from used
usage_from-used zero i total allocations = omega arith
usage_from-used (suc rounds) i total allocations = elim (Bool-cases ((allocations i).ptr == null)) [
  | inl e ↦
      rw e (usage_from-used rounds (i + 1) total allocations ∙ ap (λ n. n % 2 ^ 64) (omega arith))
  | inr e ↦
      let here = (allocations i).size in
      let merge : (total % 2 ^ 64 + here) % 2 ^ 64 ≡ (total + here) % 2 ^ 64 = omega arith in
      rw e (
        rw merge (
          usage_from-used rounds (i + 1) (total + here) allocations
          ∙ ap (λ n. n % 2 ^ 64) (omega arith)))
]

-- process_get_memory_usage is the sum of the sizes of the allocations in use and of the program's
-- size, modulo 2 ^ 64.
usage_sum :
    (process : Ptr) (k : Kernel)
    → process ≢ null
    → let p = k.process process in
      process_get_memory_usage process k
      ≡ (used max_processes_allocations 0 p.allocations + p.size) % 2 ^ 64
unfolding process_get_memory_usage
usage_sum process k a =
    let p = k.process process in
    rw (==_ne process null a)
      (rw (usage_from-used max_processes_allocations 0 0 p.allocations) (omega arith))

used_before :
    (rounds i j : ℕ) (allocations : ℕ → Allocation) (v : Allocation)
    → j < i
    → used rounds i (update allocations j v) ≡ used rounds i allocations
unfolding used
used_before zero i j allocations v h = refl
used_before (suc rounds) i j allocations v h =
    rw (==_ne j i (λ e. omega arith), used_before rounds (i + 1) j allocations v (omega arith)) refl

-- A free entry that comes into use adds its size.
used_recorded :
    (rounds i j q size : ℕ) (allocations : ℕ → Allocation)
    → i ≤ j
    → j < i + rounds
    → (allocations j).ptr ≡ null
    → q ≢ null
    → used rounds i (update allocations j (record { ptr = q; size = size }))
      ≡ used rounds i allocations + size
unfolding used
used_recorded zero i j q size allocations a b e c = absurd (omega arith)
used_recorded (suc rounds) i j q size allocations a b e c = elim (Bool-cases (j == i)) [
  | inl same ↦
      let at : j ≡ i = eq_of_== j i same in
      let here : ((allocations i).ptr == null) ≡ true =
        ap (λ n. (allocations n).ptr == null) (sym at) ∙ ap (λ n. n == null) e in
      rw (same, here, ==_ne q null c)
        (rw
          (used_before rounds (i + 1) j allocations (record { ptr = q; size = size })
            (omega (arith, at)))
          (omega arith))
  | inr other ↦ rw other (
      rw (used_recorded rounds (i + 1) j q size allocations (ground arith) (omega arith) e c)
        (omega arith))
]

-- process_malloc that succeeds adds the size to process_get_memory_usage, modulo 2 ^ 64.
pub process_get_memory_usage-process_malloc :
    (process : Ptr) (size : ℕ) (k : Kernel) (i : ℕ)
    → process ≢ null
    → size ≢ 0
    → FirstFree process k i
    → (kmalloc size k.tasks.heap).0 ≢ null
    → process_get_memory_usage process (process_malloc process size k).1
      ≡ (process_get_memory_usage process k + size) % 2 ^ 64
process_get_memory_usage-process_malloc process size k i a b f c =
    rw (process_malloc-recorded process size k i a b f c) (
      rw (usage_sum process (recorded process size k i) a, usage_sum process k a, ==_self process)
        (rw
          (used_recorded max_processes_allocations 0 i (kmalloc size k.tasks.heap).0 size
            (k.process process).allocations f.from f.below (eq_of_== _ _ f.passes) c)
          (omega arith)))
