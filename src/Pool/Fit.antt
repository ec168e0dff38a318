-- ===== src/Pool/Fit.antt =====
-- The best-fit search of ai_memory_alloc over the free list.
use synapse_kernel.Prelude.{
  ℕ, zero, suc, ◌+◌, ◌-◌, ◌^◌, ◌≤◌, ◌<◌, ◌≡◌, refl, sym, ◌∙◌, arith, Bool, true, false, Option,
  none, some, ◌&&◌, ◌==◌, ltb, if◌then◌else◌, Bool-cases, eq_of_==, inl, inr, ◌⊎◌,
}
use synapse_kernel.Pool.{Pool, fits, best_fit_from, best_fit}

-- Entry `b` of the first `i` is the smallest that fits, and the first of those.
pub record BestFit (size alignment : ℕ) (s : Pool) (i b : ℕ) : Type 0 where
  pub below : b < i
  pub fitting : fits s size alignment b ≡ true
  pub least :
      (j : ℕ) → j < i → fits s size alignment j ≡ true → s.free_block_size b ≤ s.free_block_size j
  pub first :
      (j : ℕ) → j < b → fits s size alignment j ≡ true → s.free_block_size b < s.free_block_size j

-- No entry of the first `i` fits.
pub record NoFit (size alignment : ℕ) (s : Pool) (i : ℕ) : Type 0 where
  pub none_fits : (j : ℕ) → j < i → fits s size alignment j ≡ false

-- `best_idx` and `best_size` after the first `i` entries.
data Best (size alignment : ℕ) (s : Pool) (i : ℕ) : Option ℕ → ℕ → Type 0 where
  nothing : NoFit size alignment s i → Best size alignment s i none (2 ^ 64 - 1)
  found :
      (b : ℕ)
      → BestFit size alignment s i b
      → Best size alignment s i (some b) (s.free_block_size b)

-- The answer of the search.
data Chosen (size alignment : ℕ) (s : Pool) : Option ℕ → Type 0 where
  no_block : NoFit size alignment s s.free_block_count → Chosen size alignment s none
  block : (b : ℕ) → BestFit size alignment s s.free_block_count b → Chosen size alignment s (some b)

last_or_before : (i j : ℕ) → j < i + 1 → (j ≡ i) ⊎ (j < i)
last_or_before i j h = elim (Bool-cases (j == i)) [
  | inl e ↦ inl (eq_of_== j i e)
  | inr e ↦ inr (ground arith)
]

module _ (size alignment : ℕ) (s : Pool) (i : ℕ) where
  -- The round on entry `i`.
  round :
      {best_idx : Option ℕ} {best_size : ℕ}
      → s.free_block_size i < 2 ^ 64 - 1
      → Best size alignment s i best_idx best_size
      → (let better = fits s size alignment i && ltb (s.free_block_size i) best_size in
          Best size alignment s
            (i + 1)
            (if better then some i else best_idx)
            (if better then s.free_block_size i else best_size))
  round bounded (nothing n) = elim (Bool-cases (fits s size alignment i)) [
    | inl f ↦
        let smaller : ltb (s.free_block_size i) (2 ^ 64 - 1) ≡ true = ground arith in
        rw (f, smaller)
          (found i (record {
            below = omega arith;
            fitting = f;
            least = λ j lt g. elim (last_or_before i j lt) [
              | inl e ↦ rw e (omega arith)
              | inr b ↦ absurd (clash (sym (n.none_fits j b) ∙ g))
            ];
            first = λ j lt g. absurd (clash (sym (n.none_fits j lt) ∙ g));
          }))
    | inr f ↦ rw f (
        nothing (record {
          none_fits =
              λ j lt. elim (last_or_before i j lt) [ inl e ↦ rw e f | inr b ↦ n.none_fits j b ];
        }))
  ]
    where
      clash : false ≡ true → ⊥
      clash h = ground arith
  round bounded (found b best) =
      elim (Bool-cases
        (fits s size alignment i && ltb (s.free_block_size i) (s.free_block_size b))) [
          | inl better ↦ rw better (
              found i (record {
                below = omega arith;
                fitting = left (fits s size alignment i) _ better;
                least = λ j lt g. elim (last_or_before i j lt) [
                  | inl e ↦ rw e (omega arith)
                  | inr below ↦ omega (arith, best.least j below g, smaller better)
                ];
                first = λ j lt g. omega (arith, best.least j lt g, smaller better);
              }))
          | inr worse ↦ rw worse (
              found b (record {
                below = omega (arith, best.below);
                fitting = best.fitting;
                least = λ j lt g. elim (last_or_before i j lt) [
                  | inl e ↦ rw e (bigger worse (rw e at g))
                  | inr below ↦ best.least j below g
                ];
                first = best.first;
              }))
        ]
    where
      left : (p q : Bool) → (p && q) ≡ true → p ≡ true
      left true q h = refl
      left false q h = h

      smaller :
          (fits s size alignment i && ltb (s.free_block_size i) (s.free_block_size b)) ≡ true
          → s.free_block_size i < s.free_block_size b
      smaller h = ground arith

      bigger :
          (fits s size alignment i && ltb (s.free_block_size i) (s.free_block_size b)) ≡ false
          → fits s size alignment i ≡ true
          → s.free_block_size b ≤ s.free_block_size i
      bigger h g = ground arith

module _ (size alignment : ℕ) (s : Pool)
    (bounded : (j : ℕ) → j < s.free_block_count → s.free_block_size j < 2 ^ 64 - 1) where
  best_fit_from-Chosen :
      (rounds i : ℕ) (best_idx : Option ℕ) (best_size : ℕ)
      → i + rounds ≡ s.free_block_count
      → Best size alignment s i best_idx best_size
      → Chosen size alignment s (best_fit_from rounds i size alignment s best_idx best_size)
  unfolding best_fit_from
  best_fit_from-Chosen zero i best_idx best_size e (nothing n) =
      no_block (record { none_fits = λ j lt. n.none_fits j (omega arith) })
  best_fit_from-Chosen zero i best_idx best_size e (found b best) = block b (record {
    below = omega (arith, best.below);
    fitting = best.fitting;
    least = λ j lt. best.least j (omega arith);
    first = best.first;
  })
  best_fit_from-Chosen (suc rounds) i best_idx best_size e h =
      best_fit_from-Chosen rounds (i + 1) _ _ (omega arith)
        (round size alignment s i (bounded i (omega arith)) h)

  best_fit-Chosen : Chosen size alignment s (best_fit size alignment s)
  unfolding best_fit
  best_fit-Chosen =
      best_fit_from-Chosen s.free_block_count 0 none (2 ^ 64 - 1) (omega arith)
        (nothing (record { none_fits = λ j lt. absurd (omega arith) }))

-- When every size in the free list is below 2 ^ 64 - 1, the search returns an entry that fits, no
-- entry that fits is smaller, and none before it is as small; or it returns none, and no entry fits.
pub best_fit-BestFit :
    (size alignment : ℕ) (s : Pool)
    → ((j : ℕ) → j < s.free_block_count → s.free_block_size j < 2 ^ 64 - 1)
    → ((best_fit size alignment s ≡ none) × NoFit size alignment s s.free_block_count)
      ⊎ ((b : ℕ) × (best_fit size alignment s ≡ some b)
          × BestFit size alignment s s.free_block_count b)
best_fit-BestFit size alignment s bounded =
    go (best_fit size alignment s) refl (best_fit-Chosen size alignment s bounded)
  where
    go :
        (o : Option ℕ)
        → best_fit size alignment s ≡ o
        → Chosen size alignment s o
        → ((best_fit size alignment s ≡ none) × NoFit size alignment s s.free_block_count)
          ⊎ ((b : ℕ) × (best_fit size alignment s ≡ some b)
              × BestFit size alignment s s.free_block_count b)
    go none e (no_block n) = inl (e, n)
    go (some b) e (block _ best) = inr (b, e, best)
