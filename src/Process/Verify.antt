-- ===== src/Process/Verify.antt =====
-- process_memory_verify: which ranges belong to a process.
use synapse_kernel.Prelude.{
  ℕ, ◌+◌, ◌-◌, ◌^◌, ◌≤◌, ◌<◌, ◌≡◌, ◌≢◌, refl, arith, Bool, true, false, ◌==◌, first_from-cases,
  Exhausted, ==_ne, eq_of_==, Bool-cases, ◌⊎◌, inl, inr,
}
use mathlib.Core.Logic.{◌↔◌}
use synapse_kernel.Task.{Ptr, null}
use synapse_kernel.Process.{
  Process, Kernel, max_processes_allocations, process_stack_size, inside, is_inside, end_addr,
  process_memory_verify,
}

-- The `size` bytes from `addr` on lie in the region, which is not NULL.
abbrev pub Within : ℕ → ℕ → Ptr → ℕ → Type 0
Within addr size region region_size =
    (region ≢ null) × (region ≤ addr) × (addr + size ≤ region + region_size)

-- No region of the process reaches beyond the address space.
pub record NoWrap (p : Process) : Type 0 where
  pub stack : p.stack + process_stack_size ≤ 2 ^ 64
  pub program : p.ptr + p.size ≤ 2 ^ 64
  pub owned :
      (i : ℕ)
      → i < max_processes_allocations
      → (p.allocations i).ptr + (p.allocations i).size ≤ 2 ^ 64

inside-Within :
    (addr size region region_size : ℕ)
    → size ≢ 0
    → addr + size ≤ 2 ^ 64
    → region + region_size ≤ 2 ^ 64
    → (inside addr (end_addr addr size) region region_size ≡ true)
      ↔ Within addr size region region_size
inside-Within addr size region region_size a b c = elim (Bool-cases (region == null)) [
  | inl z ↦ rw z ((λ e. ground arith), (λ w. absurd (w.0 (eq_of_== _ _ z))))
  | inr n ↦
      let last : end_addr addr size ≡ addr + size - 1 = omega arith in
      let limit : end_addr region region_size ≡ region + region_size - 1 = ground arith in
      rw (n, last, limit)
        ((λ e. (ground arith, ground arith, ground arith)), (λ w. ground (arith, w)))
]

-- The range lies in the stack, in the program, or in an allocation of the process.
abbrev pub Owns : Process → ℕ → ℕ → Type 0
Owns p addr size =
    Within addr size p.stack process_stack_size
    ⊎ Within addr size p.ptr p.size
    ⊎ ((i : ℕ) × (i < max_processes_allocations)
        × Within addr size (p.allocations i).ptr (p.allocations i).size)

module _ (process : Ptr) (addr size : ℕ) (k : Kernel) where
  -- For a process whose regions stay in the address space, and a range of at least one byte that
  -- does so too and does not start at 0, process_memory_verify is true exactly when the range lies
  -- in the stack, in the program or in one allocation.
  pub process_memory_verify-Owns :
      process ≢ null
      → addr ≢ null
      → size ≢ 0
      → addr + size ≤ 2 ^ 64
      → NoWrap (k.process process)
      → (process_memory_verify process addr size k ≡ true) ↔ Owns (k.process process) addr size
  unfolding process_memory_verify
  process_memory_verify-Owns a b c h w =
      rw (==_ne process null a, ==_ne addr null b, ==_ne size 0 c)
        (elim (Bool-cases (inside addr end p.stack process_stack_size)) [
          | inl s ↦ rw s ((λ e. inl (stack.0 s)), (λ o. refl))
          | inr s ↦ elim (Bool-cases (inside addr end p.ptr p.size)) [
            | inl t ↦ rw (s, t) ((λ e. inr (inl (program.0 t))), (λ o. refl))
            | inr t ↦
                rw (s, t)
                  (elim (first_from-cases max_processes_allocations 0 entry) [
                    | inl n ↦ rw n.ends ((λ e. ground arith), (λ o. absurd (none_of s t n o)))
                    | inr (j, f) ↦ rw f.finds (
                      (λ e. inr (
                          inr (
                            j,
                            omega (arith, f.below),
                            (one j (omega (arith, f.below))).0 f.passes,
                          ))),
                      (λ o. refl),
                    )
                  ])
          ]
        ])
    where
      p : Process
      p = k.process process

      end : ℕ
      end = end_addr addr size

      stack :
          (inside addr end p.stack process_stack_size ≡ true)
          ↔ Within addr size p.stack process_stack_size
      stack = inside-Within addr size p.stack process_stack_size c h w.stack

      program : (inside addr end p.ptr p.size ≡ true) ↔ Within addr size p.ptr p.size
      program = inside-Within addr size p.ptr p.size c h w.program

      entry : ℕ → Bool
      entry = is_inside addr end p.allocations

      one :
          (i : ℕ)
          → i < max_processes_allocations
          → (entry i ≡ true) ↔ Within addr size (p.allocations i).ptr (p.allocations i).size
      one i lt =
          inside-Within addr size (p.allocations i).ptr (p.allocations i).size c h (w.owned i lt)

      both : {b : Bool} → b ≡ true → b ≡ false → ⊥
      both t f = ground arith

      none_of :
          inside addr end p.stack process_stack_size ≡ false
          → inside addr end p.ptr p.size ≡ false
          → Exhausted max_processes_allocations 0 entry
          → Owns p addr size
          → ⊥
      none_of s t n (inl o) = both (stack.1 o) s
      none_of s t n (inr (inl o)) = both (program.1 o) t
      none_of s t n (inr (inr (i, lt, o))) =
          both ((one i lt).1 o) (n.fails i (omega arith) (omega arith))

  -- Where no region of the process reaches beyond the end of the address space, a range that starts in
  -- the stack and does reach beyond it is accepted, since its last address wraps around.
  pub process_memory_verify-wraps :
      process ≢ null
      → (k.process process).stack ≢ null
      → NoWrap (k.process process)
      → (k.process process).stack ≤ addr
      → addr < (k.process process).stack + process_stack_size
      → size < 2 ^ 64
      → 2 ^ 64 < addr + size
      → process_memory_verify process addr size k ≡ true
  unfolding process_memory_verify
  process_memory_verify-wraps a b w low high small big =
      let stack = (k.process process).stack in
      let bound = w.stack in
      let first : (addr == null) ≡ false = ground arith in
      let some : (size == 0) ≡ false = ground arith in
      let last : end_addr addr size ≡ addr + size - 1 - 2 ^ 64 = omega arith in
      let limit : end_addr stack process_stack_size ≡ stack + process_stack_size - 1 =
        omega arith in
      let within : inside addr (end_addr addr size) stack process_stack_size ≡ true =
        rw (last, limit) (ground arith) in
      rw (==_ne process null a, first, some, within)
