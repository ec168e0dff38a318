-- ===== src/Pool/Refined.antt =====
-- The small blocks against an abstract allocator that knows only which blocks are in use.
use synapse_kernel.Prelude.{
  ℕ, ◌+◌, ◌-◌, ◌*◌, ◌/◌, ◌≤◌, ◌<◌, ◌≡◌, refl, sym, arith, subst, Bool, true, false, ◌&&◌, ◌||◌, not,
  Status, eok, err, einvarg, ◌==◌, leb, ltb, Bool-cases, fun_ext, inl, inr, ◌⊎◌, first_from-cases,
  List, [], ◌∷◌,
}
use synapse_kernel.Task.{Ptr, null}
use synapse_kernel.Pool.{Pool, is_used, min_block_size, alloc_small_block, free_small_block}
use synapse_kernel.Pool.Small.{
  Placed, block_address, is_used-taken, is_used-given_back, alloc_small_block-first,
  alloc_small_block-full, free_small_block-used, free_small_block-outside,
}

-- Which blocks are in use.
abbrev pub Used : Type 0
Used = ℕ → Bool

pub data Call : Type 0 where
  alloc : Call
  free : Ptr → Call

pub data Answer : Type 0 where
  address : Ptr → Answer
  status : Status → Answer

-- Block `i` of the blocks from `base` on holds the address.
pub record Holds (base i : ℕ) (p : Ptr) : Type 0 where
  pub above : base + i * min_block_size ≤ p
  pub below : p < base + i * min_block_size + min_block_size

-- What one call of the abstract allocator with `count` blocks from `base` on may do.
pub data Does (base count : ℕ) : Used → Call → Answer → Used → Type 0 where
  takes :
      {used : Used} (i : ℕ)
      → i < count
      → used i ≡ false
      → ((j : ℕ) → j < i → used j ≡ true)
      → Does base count used alloc (address (base + i * min_block_size)) (λ j. i == j || used j)
  is_full :
      {used : Used}
      → ((j : ℕ) → j < count → used j ≡ true)
      → Does base count used alloc (address null) used
  gives_back :
      {used : Used} (i : ℕ) (p : Ptr)
      → i < count
      → Holds base i p
      → used i ≡ true
      → Does base count used (free p) (status eok) (λ j. used j && not (i == j))
  refuses :
      {used : Used} (p : Ptr)
      → ((i : ℕ) → i < count → Holds base i p → used i ≡ false)
      → Does base count used (free p) (status (err einvarg)) used

-- A sequence of calls, with their answers.
pub data Runs (base count : ℕ) : Used → List Call → List Answer → Used → Type 0 where
  stop : {used : Used} → Runs base count used [] [] used
  call :
      {used used' used'' : Used} {c : Call} {a : Answer} {cs : List Call} {as' : List Answer}
      → Does base count used c a used'
      → Runs base count used' cs as' used''
      → Runs base count used (c ∷ cs) (a ∷ as') used''

-- The code's answer to a call.
abbrev pub perform : Call → Pool → Answer × Pool
perform alloc s = let (p, s') = alloc_small_block s in (address p, s')
perform (free p) s = let (res, s') = free_small_block p s in (status res, s')

abbrev pub perform_all : List Call → Pool → List Answer × Pool
perform_all [] s = ([], s)
perform_all (c ∷ cs) s =
    let (a, s') = perform c s in let (as', s'') = perform_all cs s' in (a ∷ as', s'')

-- The blocks stay where they are.
abbrev pub Still : Pool → Pool → Type 0
Still s t = (t.small_block_pool ≡ s.small_block_pool) × (t.small_block_count ≡ s.small_block_count)

-- The call is one of the abstract allocator.
abbrev Refines : Pool → Call → Answer × Pool → Type 0
Refines s c result =
    Does s.small_block_pool s.small_block_count (is_used s) c result.0 (is_used result.1)
    × Still s result.1

pub index_cases :
    (base count p : ℕ)
    → ((p < base) ⊎ (base + count * 64 ≤ p)) ⊎ ((i : ℕ) × (i < count) × Holds base i p)
index_cases base count p = elim (Bool-cases (ltb p base || leb (base + count * 64) p)) [
  | inl e ↦
      inl
        (elim (Bool-cases (ltb p base)) [ inl a ↦ inl (ground arith) | inr a ↦ inr (ground arith) ])
  | inr e ↦
      let low : base ≤ p = ground arith in
      let high : p < base + count * 64 = ground arith in
      inr ((p - base) / 64, omega arith, record { above = omega arith; below = omega arith })
]

pub not_used : (u : Bool) → not u ≡ true → u ≡ false
not_used true h = absurd (ground arith)
not_used false h = refl

used : (u : Bool) → not u ≡ false → u ≡ true
used true h = refl
used false h = absurd (ground arith)

alloc-Refines : (s : Pool) → Placed s → Refines s alloc (perform alloc s)
alloc-Refines s placed = elim (first_from-cases s.small_block_count 0 (λ i. not (is_used s i))) [
  | inl e ↦
      rw (alloc_small_block-full s placed e)
        (is_full (λ j lt. used (is_used s j) (e.fails j (omega arith) (omega arith))), (refl, refl))
  | inr (i, f) ↦ rw (alloc_small_block-first s placed i f) (
    subst
        (λ w.
          Does s.small_block_pool s.small_block_count (is_used s) alloc
            (address (block_address s i)) w)
        (fun_ext (λ j. sym (is_used-taken i j s)))
        (takes i (omega (arith, f.below)) (not_used (is_used s i) f.passes)
          (λ j lt. used (is_used s j) (f.least j (omega arith) lt))),
    (refl, refl),
  )
]

same_index : (base i j p : ℕ) → Holds base i p → Holds base j p → i ≡ j
same_index base i j p h k = omega (arith, h.above, h.below, k.above, k.below)

free-Refines : (p : Ptr) (s : Pool) → Placed s → Refines s (free p) (perform (free p) s)
free-Refines p s placed = elim (index_cases s.small_block_pool s.small_block_count p) [
  | inl out ↦ rw (free_small_block-outside s placed p out) (
    refuses p (λ i lt h. absurd (outside s.small_block_pool s.small_block_count i out lt h)),
    (refl, refl),
  )
  | inr (i, lt, h) ↦ elim (Bool-cases (is_used s i)) [
    | inl u ↦
        rw (free_small_block-used s placed p i lt h.above h.below, u)
          (
            subst
                (λ w.
                  Does s.small_block_pool s.small_block_count (is_used s) (free p) (status eok) w)
                (fun_ext (λ j. sym (is_used-given_back i j s))) (gives_back i p lt h u),
            (refl, refl),
          )
    | inr u ↦
        rw (free_small_block-used s placed p i lt h.above h.below, u)
          (refuses p (λ j _ k. rw (same_index s.small_block_pool j i p k h) u), (refl, refl))
  ]
]
  where
    outside :
        (base count i : ℕ) → (p < base) ⊎ (base + count * 64 ≤ p) → i < count → Holds base i p → ⊥
    outside base count i (inl a) lt h = omega (arith, h.above)
    outside base count i (inr a) lt h = omega (arith, h.below)

perform-Refines : (c : Call) (s : Pool) → Placed s → Refines s c (perform c s)
perform-Refines alloc s placed = alloc-Refines s placed
perform-Refines (free p) s placed = free-Refines p s placed

Still-Placed : (s t : Pool) → Still s t → Placed s → Placed t
Still-Placed s t still placed = record {
  base_ne = rw (still.0) (placed.base_ne);
  space = rw (still.0, still.1) (placed.space);
}

pub perform-Placed : (c : Call) (s : Pool) → Placed s → Placed (perform c s).1
perform-Placed c s placed = Still-Placed s (perform c s).1 (perform-Refines c s placed).1 placed

-- When the small blocks lie in the address space and not at NULL, every sequence of calls of
-- alloc_small_block and free_small_block is a run of the abstract allocator on the set of the
-- blocks in use: an allocation returns the address of the first block not in use and puts it in use,
-- or returns NULL with every block in use; a release of any address inside a block in use succeeds
-- and puts that block alone out of use; every other release fails with EINVARG and changes no block.
pub perform_all-Runs :
    (cs : List Call) (s : Pool)
    → Placed s
    → Runs s.small_block_pool s.small_block_count
        (is_used s)
        cs
        (perform_all cs s).0
        (is_used (perform_all cs s).1)
perform_all-Runs [] s placed = stop
perform_all-Runs (c ∷ cs) s placed =
    let (does, (pool, count)) = perform-Refines c s placed in
    let s' = (perform c s).1 in
    let rest = perform_all-Runs cs s' (perform-Placed c s placed) in
    call does (
      subst
        (λ b.
          Runs b s.small_block_count (is_used s') cs (perform_all cs s').0
            (is_used (perform_all cs s').1))
        pool
        (subst
          (λ n.
            Runs s'.small_block_pool n (is_used s') cs (perform_all cs s').0
              (is_used (perform_all cs s').1))
          count rest))
