-- ===== src/Pool/Apart.antt =====
-- The free list's blocks apart from each other, and a block that is large enough for a request.
use synapse_kernel.Prelude.{ℕ, ◌+◌, ◌-◌, ◌%◌, ◌^◌, ◌≤◌, ◌<◌, ◌≡◌, ◌≢◌, arith, true, inl, inr, ◌⊎◌}
use synapse_kernel.Pool.{Pool, fits, overhead, align_up, align_pointer}

-- The alignments that the tensors ask for.
abbrev pub Alignment : ℕ → Type 0
Alignment alignment = (alignment ≡ 8) ⊎ ((alignment ≡ 16) ⊎ (alignment ≡ 32))

-- `y` is `x` moved up to a multiple of the alignment.
pub record MovedUp (x alignment y : ℕ) : Type 0 where
  pub multiple : y % alignment ≡ 0
  pub above : x ≤ y
  pub near : y < x + alignment
  pub small : alignment ≤ 32

pub align_up-MovedUp :
    (x alignment : ℕ)
    → Alignment alignment
    → x < 2 ^ 63
    → MovedUp x alignment (align_up x alignment)
align_up-MovedUp x alignment (inl e) h = rw e (record {
  multiple = omega arith;
  above = omega arith;
  near = omega arith;
  small = omega arith;
})
align_up-MovedUp x alignment (inr (inl e)) h = rw e (record {
  multiple = omega arith;
  above = omega arith;
  near = omega arith;
  small = omega arith;
})
align_up-MovedUp x alignment (inr (inr e)) h = rw e (record {
  multiple = omega arith;
  above = omega arith;
  near = omega arith;
  small = omega arith;
})

-- The blocks of the free list lie in the lower half of the address space, apart from each other.
pub record Apart (s : Pool) : Type 0 where
  pub inside : (i : ℕ) → i < s.free_block_count → s.free_block i + s.free_block_size i < 2 ^ 63
  pub disjoint :
      (i j : ℕ)
      → i < s.free_block_count
      → j < s.free_block_count
      → i ≢ j
      → (s.free_block i + s.free_block_size i ≤ s.free_block j)
        ⊎ (s.free_block j + s.free_block_size j ≤ s.free_block i)

-- `n` bytes from `a` on were in block `i` of the first free list, and are in no block of the second.
pub record Carved (s : Pool) (i a n : ℕ) (s' : Pool) : Type 0 where
  pub after : s.free_block i ≤ a
  pub before : a + n ≤ s.free_block i + s.free_block_size i
  pub out :
      (j : ℕ)
      → j < s'.free_block_count
      → (a + n ≤ s'.free_block j) ⊎ (s'.free_block j + s'.free_block_size j ≤ a)

-- Block `j` of the second free list lies in block `m j` of the first.
pub record Within (s s' : Pool) (m : ℕ → ℕ) : Type 0 where
  pub below : (j : ℕ) → j < s'.free_block_count → m j < s.free_block_count
  pub starts : (j : ℕ) → j < s'.free_block_count → s.free_block (m j) ≤ s'.free_block j
  pub ends :
      (j : ℕ)
      → j < s'.free_block_count
      → s'.free_block j + s'.free_block_size j ≤ s.free_block (m j) + s.free_block_size (m j)
  pub injective : (j k : ℕ) → j ≢ k → m j ≢ m k

pub Within-Apart : (s s' : Pool) (m : ℕ → ℕ) → Within s s' m → Apart s → Apart s'
Within-Apart s s' m w apart = record {
  inside = λ j lt. omega (arith, w.ends j lt, apart.inside (m j) (w.below j lt));
  disjoint = λ j k lj lk ne.
      elim (apart.disjoint (m j) (m k) (w.below j lj) (w.below k lk) (w.injective j k ne)) [
        | inl e ↦ inl (omega (arith, w.ends j lj, w.starts k lk))
        | inr e ↦ inr (omega (arith, w.ends k lk, w.starts j lj))
      ];
}

-- The facts of one allocation of `size` bytes from block `i`.
pub record Fitting (size alignment : ℕ) (s : Pool) (i : ℕ) : Type 0 where
  pub below : i < s.free_block_count
  pub moved : MovedUp (s.free_block i) alignment (align_pointer (s.free_block i) alignment)
  pub extra :
      overhead (s.free_block i) alignment + s.free_block i
      ≡ align_pointer (s.free_block i) alignment
  pub room : size + overhead (s.free_block i) alignment ≤ s.free_block_size i
  pub inside : s.free_block i + s.free_block_size i < 2 ^ 63

pub fits-Fitting :
    (size alignment : ℕ) (s : Pool) (i : ℕ)
    → Alignment alignment
    → size < 2 ^ 63
    → Apart s
    → i < s.free_block_count
    → fits s size alignment i ≡ true
    → Fitting size alignment s i
unfolding align_pointer overhead
fits-Fitting size alignment s i al h apart lt f =
    let inside = apart.inside i lt in
    let moved = align_up-MovedUp (s.free_block i) alignment al (omega arith) in
    let above = moved.above in
    let near = moved.near in
    let small = moved.small in
    let extra : overhead (s.free_block i) alignment + s.free_block i
        ≡ align_up (s.free_block i) alignment =
      go (s.free_block i) (align_up (s.free_block i) alignment) above near small (omega arith) in
    record { below = lt; moved = moved; extra = extra; room = ground arith; inside = inside }
  where
    go :
        (x y : ℕ)
        → x ≤ y
        → y < x + alignment
        → alignment ≤ 32
        → x < 2 ^ 63
        → (y + 2 ^ 64 - x) % 2 ^ 64 + x ≡ y
    go x y a b c d = omega arith
