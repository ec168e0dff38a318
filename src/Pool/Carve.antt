-- ===== src/Pool/Carve.antt =====
-- What ai_memory_alloc does to the free list, for a size that is no small block.
use synapse_kernel.Prelude.{
  ℕ, ◌+◌, ◌-◌, ◌%◌, ◌^◌, ◌≤◌, ◌<◌, ◌≡◌, ◌≢◌, refl, sym, arith, true, false, some, ◌==◌, leb, ltb,
  if◌then◌else◌, Bool-cases, eq_of_==, inl, inr, ◌⊎◌, update,
}
use synapse_kernel.Task.{Ptr}
use synapse_kernel.Pool.{
  Pool, overhead, align_up, align_pointer, min_block_size, removed, best_fit, alloc_from_block,
  alloc_large, ai_memory_alloc,
}
use synapse_kernel.Pool.Fit.{BestFit, NoFit, best_fit-BestFit}
use synapse_kernel.Pool.Apart.{
  Alignment, align_up-MovedUp, Apart, Carved, Within-Apart, Fitting, fits-Fitting,
}

-- The index of an entry before entry `i` was removed.
skip : ℕ → ℕ → ℕ
skip i j = if leb i j then j + 1 else j

removed-skip :
    {A : Type 0} (count i j : ℕ) (f : ℕ → A) → j < count - 1 → removed count i f j ≡ f (skip i j)
unfolding skip
removed-skip count i j f lt = elim (Bool-cases (leb i j)) [
  | inl e ↦ let inner : ltb (j + 1) count ≡ true = ground arith in rw (e, inner) refl
  | inr e ↦ rw e refl
]

module _ (size alignment : ℕ) (s : Pool) (i : ℕ) (apart : Apart s)
    (f : Fitting size alignment s i) where
  abbrev pub aligned : Ptr
  aligned = align_pointer (s.free_block i) alignment

  -- The remainder stays in the list as entry `i`.
  abbrev pub Split : Pool → Type 0
  Split s' =
      (s'.free_block_count ≡ s.free_block_count)
      × (s'.free_block ≡ update s.free_block i (aligned + size))
      × (s'.free_block_size
          ≡ update s.free_block_size i
              (s.free_block_size i - (size + overhead (s.free_block i) alignment)))

  -- Entry `i` leaves the list.
  abbrev Gone : Pool → Type 0
  Gone s' =
      (s'.free_block_count ≡ s.free_block_count - 1)
      × (s'.free_block ≡ removed s.free_block_count i s.free_block)
      × (s'.free_block_size ≡ removed s.free_block_count i s.free_block_size)

  pub alloc_from_block-cases :
      let (p, s') = alloc_from_block i size alignment s in
      (p ≡ aligned)
      × (((min_block_size ≤ s.free_block_size i - (size + overhead (s.free_block i) alignment))
            × Split s')
          ⊎ ((s.free_block_size i - (size + overhead (s.free_block i) alignment) < min_block_size)
              × Gone s'))
  unfolding alloc_from_block
  alloc_from_block-cases =
      let room = f.room in
      let inside = f.inside in
      let extra = f.extra in
      let near = f.moved.near in
      let small = f.moved.small in
      let rest : (s.free_block_size i
              + 2 ^ 64
              - (size + overhead (s.free_block i) alignment) % 2 ^ 64)
            % 2 ^ 64
          ≡ s.free_block_size i - (size + overhead (s.free_block i) alignment) =
        omega arith in
      let end : (aligned + size) % 2 ^ 64 ≡ aligned + size = omega arith in
      elim (Bool-cases
        (leb min_block_size (s.free_block_size i - (size + overhead (s.free_block i) alignment)))) [
          | inl e ↦ rw (rest, e, end) (refl, inl (ground arith, (refl, refl, refl)))
          | inr e ↦ rw (rest, e) (refl, inr (ground arith, (refl, refl, refl)))
        ]

  -- What block `i` and another block have to do with each other.
  beside :
      (a n j : ℕ)
      → s.free_block i ≤ a
      → a + n ≤ s.free_block i + s.free_block_size i
      → j < s.free_block_count
      → i ≢ j
      → (a + n ≤ s.free_block j) ⊎ (s.free_block j + s.free_block_size j ≤ a)
  beside a n j lo hi lt ne = elim (apart.disjoint i j f.below lt ne) [
    | inl e ↦ inl (omega arith)
    | inr e ↦ inr (omega arith)
  ]

  abbrev Outcome : Pool → Type 0
  Outcome s' = Apart s' × Carved s i aligned size s'

  from : s.free_block i ≤ aligned
  from = f.moved.above

  fill : aligned + size ≤ s.free_block i + s.free_block_size i
  fill = omega (arith, f.room, f.extra)

  Split-Outcome : (s' : Pool) → Split s' → Outcome s'
  Split-Outcome s' (count, blocks, sizes) = (
    Within-Apart s s' (λ j. j)
        (record {
          below = λ j lt. rw (sym count) lt;
          starts = λ j lt. rw blocks (elim (Bool-cases (i == j)) [
            | inl e ↦ rw (e, sym (eq_of_== i j e)) (omega (arith, from))
            | inr e ↦ rw e (omega arith)
          ]);
          ends = λ j lt.
              rw (blocks, sizes)
                (elim (Bool-cases (i == j)) [
                  | inl e ↦ rw (e, sym (eq_of_== i j e)) (omega (arith, f.room, f.extra))
                  | inr e ↦ rw e (omega arith)
                ]);
          injective = λ j k ne. ne;
        })
        apart,
    record {
      after = from;
      before = fill;
      out = λ j lt.
          rw (blocks, sizes)
            (elim (Bool-cases (i == j)) [
              | inl e ↦ rw e (inl (omega arith))
              | inr e ↦ rw e (
                  beside aligned size j from fill (rw (sym count) lt)
                    (λ same. ground (arith, same, e)))
            ]);
    },
  )

  Gone-Outcome : (s' : Pool) → Gone s' → Outcome s'
  unfolding skip
  Gone-Outcome s' (count, blocks, sizes) = (
    Within-Apart s s' (skip i)
        (record {
          below = λ j lt. inner j lt;
          starts = λ j lt. rw (block_at j lt) (omega arith);
          ends = λ j lt. rw (block_at j lt, size_at j lt) (omega arith);
          injective = λ j k ne. ground arith;
        })
        apart,
    record {
      after = from;
      before = fill;
      out = λ j lt.
          rw (block_at j lt, size_at j lt)
            (beside aligned size (skip i j) from fill (inner j lt) (ground arith));
    },
  )
    where
      inner : (j : ℕ) → j < s'.free_block_count → skip i j < s.free_block_count
      inner j lt = let lt' : j < s.free_block_count - 1 = rw (sym count) lt in ground arith

      block_at : (j : ℕ) → j < s'.free_block_count → s'.free_block j ≡ s.free_block (skip i j)
      block_at j lt =
          rw blocks (removed-skip s.free_block_count i j s.free_block (rw (sym count) lt))

      size_at :
          (j : ℕ) → j < s'.free_block_count → s'.free_block_size j ≡ s.free_block_size (skip i j)
      size_at j lt =
          rw sizes (removed-skip s.free_block_count i j s.free_block_size (rw (sym count) lt))

  alloc_from_block-Outcome :
      let (p, s') = alloc_from_block i size alignment s in (p ≡ aligned) × Outcome s'
  alloc_from_block-Outcome =
      let (at, cases) = alloc_from_block-cases in
      (
        at,
        elim cases [
          | inl (_, h) ↦ Split-Outcome (alloc_from_block i size alignment s).1 h
          | inr (_, h) ↦ Gone-Outcome (alloc_from_block i size alignment s).1 h
        ],
      )

-- What ai_memory_alloc does with block `i` of the free list.
pub record Allotted (size alignment : ℕ) (s : Pool) (i : ℕ) (p : Ptr) (s' : Pool) : Type 0 where
  pub best : BestFit size alignment s s.free_block_count i
  pub multiple : p % alignment ≡ 0
  pub carved : Carved s i p size s'
  pub apart : Apart s'

pub alloc_large-block :
    (size alignment : ℕ) (s : Pool) (b : ℕ)
    → best_fit size alignment s ≡ some b
    → alloc_large size alignment s ≡ alloc_from_block b size alignment s
unfolding alloc_large
alloc_large-block size alignment s b e = rw (e, alloc_large) refl

alloc_large-Allotted :
    (size alignment : ℕ) (s : Pool)
    → Alignment alignment
    → size < 2 ^ 63
    → Apart s
    → NoFit size alignment s s.free_block_count
      ⊎ ((i : ℕ) × Allotted size alignment s i
            (alloc_large size alignment s).0
            (alloc_large size alignment s).1)
alloc_large-Allotted size alignment s al h apart =
    elim (best_fit-BestFit size alignment s (λ j lt. omega (arith, apart.inside j lt))) [
      | inl (e, n) ↦ inl n
      | inr (b, e, best) ↦
          let f = fits-Fitting size alignment s b al h apart best.below best.fitting in
          let (at, (apart', carved)) = alloc_from_block-Outcome size alignment s b apart f in
          inr (
            b,
            rw (alloc_large-block size alignment s b e) (record {
              best = best;
              multiple = rw at f.moved.multiple;
              carved = rw at carved;
              apart = apart';
            }),
          )
    ]

-- For an alignment of 8, 16 or 32, a size below 2 ^ 62 that is more than a small block when it is
-- rounded up, and a free list whose blocks lie in the lower half of the address space apart from each other: no
-- block fits the rounded size, or ai_memory_alloc returns an aligned address in a block that is the
-- smallest of those that fit, the first of them; the rounded size, which is at least the size, lies
-- from there on inside that block and outside of every block of the new free list, and the blocks of
-- the new free list are apart from each other again.
pub ai_memory_alloc-Allotted :
    (size alignment : ℕ) (s : Pool)
    → Alignment alignment
    → size < 2 ^ 62
    → min_block_size < align_up size alignment
    → Apart s
    → let n = align_up size alignment in
      (size ≤ n)
      × (NoFit n alignment s s.free_block_count
          ⊎ ((i : ℕ) × Allotted n alignment s i
                (ai_memory_alloc size alignment s).0
                (ai_memory_alloc size alignment s).1))
unfolding ai_memory_alloc
ai_memory_alloc-Allotted size alignment s al h large apart =
    let moved = align_up-MovedUp size alignment al (omega arith) in
    let above = moved.above in
    let near = moved.near in
    let small = moved.small in
    let some_bytes : (size == 0) ≡ false = ground arith in
    let no_small : leb (align_up size alignment) min_block_size ≡ false = ground arith in
    rw (some_bytes, no_small)
      (above, alloc_large-Allotted (align_up size alignment) alignment s al (omega arith) apart)
