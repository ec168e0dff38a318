-- ===== src/Process/Views.antt =====
-- What the steps of process_create change of the process and of the process table.
use synapse_kernel.Prelude.{
  ℕ, ◌≡◌, ◌≢◌, refl, ap, arith, some, ◌||◌, ◌==◌, List, Errno, eok, err, einvarg, enomem,
  first_from-cases, ==_ne, ==_self, Bool-cases, Result-cases, ◌⊎◌, inl, inr,
}
use synapse_kernel.Heap.Kheap.{kmalloc}
use synapse_kernel.Task.{Ptr, null}
use synapse_kernel.Process.{
  Kernel, process_stack_size, process_malloc, process_free, process_find_free_allocation_index,
  max_processes_allocations, is_allocation,
}
use synapse_kernel.Process.Create.{
  copied_name, process_init, process_load_binary, process_allocate_stack, copy_bytes, fill_bytes,
}

-- What process_create builds up step by step.
pub record View : Type 0 where
  pub table : ℕ → Ptr
  pub current : ℕ
  pub id : ℕ
  pub name : List ℕ
  pub ptr : Ptr
  pub size : ℕ
  pub stack : Ptr
  pub byte : ℕ → ℕ

abbrev pub view : Ptr → Kernel → View
view process k =
    let p = k.process process in
    record {
      table = k.process_table;
      current = k.current_process;
      id = p.id;
      name = p.name;
      ptr = p.ptr;
      size = p.size;
      stack = p.stack;
      byte = k.byte;
    }

module _ (process : Ptr) (k : Kernel) where
  pub view-process_malloc :
      (size : ℕ) → view process (process_malloc process size k).1 ≡ view process k
  unfolding process_malloc
  view-process_malloc size = elim (Bool-cases (process == null || size == 0)) [
    | inl e ↦ rw e refl
    | inr e ↦ elim (Result-cases (process_find_free_allocation_index process k)) [
      | inr (x, f) ↦ rw (e, f) refl
      | inl (i, f) ↦ elim (Bool-cases ((kmalloc size k.tasks.heap).0 == null)) [
        | inl z ↦ rw (e, f, z) refl
        | inr z ↦ rw (e, f, z) (rw (==_self process) refl)
      ]
    ]
  ]

  pub view-process_free : (ptr : Ptr) → view process (process_free process ptr k).1 ≡ view process k
  unfolding process_free
  view-process_free ptr = elim (Bool-cases (process == null || ptr == null)) [
    | inl e ↦ rw e refl
    | inr e ↦
        elim (first_from-cases max_processes_allocations 0
          (is_allocation (k.process process).allocations ptr)) [
            | inl n ↦ rw (e, n.ends) refl
            | inr (i, f) ↦ rw (e, f.finds) (rw (==_self process) refl)
          ]
  ]

  pub stack_cases :
      let (res, k') = process_allocate_stack process k in
      ((res ≡ err enomem) × (view process k' ≡ view process k))
      ⊎ ((q : Ptr) × (q ≢ null)
          × (res ≡ eok)
          × (view process k' ≡ record (view process k) {
            stack = q;
            byte = fill_bytes q 0 process_stack_size k.byte;
          }))
  unfolding process_allocate_stack
  stack_cases = elim (Bool-cases ((process_malloc process process_stack_size k).0 == null)) [
    | inl z ↦ rw z (inl (refl, view-process_malloc process_stack_size))
    | inr z ↦ rw z (
        inr (
          (process_malloc process process_stack_size k).0,
          ground arith,
          refl,
          rw (==_self process) (
              ap {A = View}
                (λ v. record v {
                  stack = (process_malloc process process_stack_size k).0;
                  byte =
                      fill_bytes (process_malloc process process_stack_size k).0 0
                        process_stack_size v.byte;
                })
                (view-process_malloc process_stack_size)),
        ))
  ]

  pub binary_cases :
      (program_data : Ptr) (size : ℕ)
      → let (res, k') = process_load_binary process program_data size k in
        ((e : Errno) × (res ≡ err e) × (view process k' ≡ view process k))
        ⊎ ((q : Ptr) × (q ≢ null)
            × (res ≡ eok)
            × (view process k' ≡ record (view process k) {
              ptr = q;
              size = size;
              byte = copy_bytes q program_data size k.byte;
            }))
  unfolding process_load_binary
  binary_cases program_data size =
      elim (Bool-cases (process == null || (program_data == null || size == 0))) [
        | inl e ↦ rw e (inl (einvarg, refl, refl))
        | inr e ↦ elim (Bool-cases ((process_malloc process size k).0 == null)) [
          | inl z ↦ rw (e, z) (inl (enomem, refl, view-process_malloc size))
          | inr z ↦
              rw (e, z)
                (inr (
                  (process_malloc process size k).0,
                  ground arith,
                  refl,
                  rw (==_self process) (
                      ap {A = View}
                        (λ v. record v {
                          ptr = (process_malloc process size k).0;
                          size = size;
                          byte =
                              copy_bytes (process_malloc process size k).0 program_data size v.byte;
                        })
                        (view-process_malloc size)),
                ))
        ]
      ]

pub init_view :
    (process : Ptr) (id : ℕ) (name : List ℕ) (k : Kernel)
    → process ≢ null
    → let (res, k') = process_init process id (some name) k in
      (res ≡ eok)
      × (view process k' ≡ record {
        table = k.process_table;
        current = k.current_process;
        id = id;
        name = copied_name name;
        ptr = null;
        size = 0;
        stack = null;
        byte = k.byte;
      })
unfolding process_init
init_view process id name k ne = rw (==_ne process null ne) (refl, rw (==_self process) refl)
