-- ===== src/Heap/Scan.antt =====
-- The search of heap_get_start_block for a run of free blocks.
use synapse_kernel.Prelude.{
  ℕ, zero, suc, ◌+◌, ◌%◌, ◌≤◌, ◌<◌, ◌≡◌, ◌≢◌, Option, none, some, inl, inr, arith, Bool-cases, ◌==◌,
  ltb, lt_of_ltb, refl, sym, eq_of_==, true, false, ok, Option-cases,
}
use native.Mathlib.Nat.{add-zero, zero-add}
use synapse_kernel.Heap.{Entries, Heap, start_block_loop, run_start, heap_get_start_block}

-- Every block of [s, e) is free.
abbrev pub FreeRun : Entries → ℕ → ℕ → Type 0
FreeRun entries s e = (j : ℕ) → s ≤ j → j < e → entries j % 16 ≡ 0

-- What the loop knows at index `i`: no run is open, or one of `bc` blocks that began at `bs`.
data Open (entries : Entries) (n i bc : ℕ) : Option ℕ → Type 0 where
  idle : bc ≡ 0 → Open entries n i bc none
  run : {s : ℕ} → s + bc ≡ i → bc < n → FreeRun entries s i → Open entries n i bc (some s)

module _ (entries : Entries) (n : ℕ) where
  extend :
      {i bc : ℕ} (bs : Option ℕ)
      → Open entries n i bc bs
      → entries i % 16 ≡ 0
      → FreeRun entries (run_start i bs) (i + 1)
  extend none o free j lo hi = let e : j ≡ _ = omega arith in rw e free
  extend {i} (some s) (run e l f) free j lo hi = elim (Bool-cases (j == i)) [
    | inl at ↦ rw (eq_of_== j i at) free
    | inr off ↦ f j lo (ground arith)
  ]

  opened :
      {i bc : ℕ} (bs : Option ℕ)
      → Open entries n i bc bs
      → entries i % 16 ≡ 0
      → 0 < n
      → run_start i bs + (bc + 1) ≡ i + 1
  opened none (idle z) free pos = omega arith
  opened (some s) (run e l f) free pos = omega arith

  grow :
      {i bc : ℕ} (bs : Option ℕ)
      → Open entries n i bc bs
      → (entries i % 16 == 0) ≡ true
      → 0 < n
      → (bc + 1 == n) ≡ false
      → Open entries n (i + 1) (bc + 1) (some (run_start i bs))
  grow {i} {bc} bs o free pos more =
      run (opened bs o (eq_of_== _ _ free) pos) (below bs o) (extend bs o (eq_of_== _ _ free))
    where
      below : (bs : Option ℕ) → Open entries n i bc bs → bc + 1 < n
      below none (idle z) = ground arith
      below (some s) (run e l f) = ground arith

  -- A run that is still to come begins behind a block that is not free.
  past :
      {i bc : ℕ} (bs : Option ℕ)
      → Open entries n i bc bs
      → 0 < n
      → (r : ℕ) → run_start i bs ≤ r
      → (entries i % 16 == 0) ≡ false
      → FreeRun entries r (r + n)
      → i + 1 ≤ r
  past {i} none o pos r lo taken f = elim (Bool-cases (ltb i r)) [
    | inl h ↦ omega (arith, lt_of_ltb i r h)
    | inr h ↦ ground (arith, f i)
  ]
  past {i} (some s) (run e l g) pos r lo taken f = elim (Bool-cases (ltb i r)) [
    | inl h ↦ omega (arith, lt_of_ltb i r h)
    | inr h ↦ ground (arith, f i)
  ]

  -- With a run of `n` free blocks ahead the search finds one that begins no later.
  loop_finds :
      (k i bc : ℕ) (bs : Option ℕ)
      → Open entries n i bc bs
      → 0 < n
      → (r : ℕ) → run_start i bs ≤ r
      → r + n ≤ i + k
      → FreeRun entries r (r + n)
      → (s : ℕ) × (start_block_loop entries n k i bc bs ≡ some s) × (s ≤ r)
  unfolding start_block_loop
  loop_finds zero i bc none o pos r lo hi f = absurd (omega arith)
  loop_finds zero i bc (some s) (run e l g) pos r lo hi f = absurd (omega arith)
  loop_finds (suc k) i bc bs o pos r lo hi f = elim (Bool-cases (entries i % 16 == 0)) [
    | inr taken ↦
        rw taken (
          loop_finds k (i + 1) 0 none (idle refl) pos r (past bs o pos r lo taken f) (omega arith)
            f)
    | inl free ↦ rw free (elim (Bool-cases (bc + 1 == n)) [
      | inl full ↦ rw full (run_start i bs, refl, lo)
      | inr more ↦ rw more (
          loop_finds k (i + 1) (bc + 1) (some (run_start i bs)) (grow bs o free pos more) pos r lo
            (omega arith) f)
    ])
  ]

  abbrev Found : ℕ → ℕ → Type 0
  Found s end = (s ≤ end) × ((j : ℕ) → s ≤ j → j < s + n → j < end → entries j % 16 ≡ 0)

  later : (i k s : ℕ) → Found s (i + 1 + k) → Found s (i + suc k)
  later i k s h = (omega arith, λ j lo hi end. h.1 j lo hi (omega arith))

  -- Every block from the found one on is free, for `n` blocks or up to the end of the table.
  loop_free :
      (k i bc : ℕ) (bs : Option ℕ)
      → Open entries n i bc bs
      → 0 < n
      → (s : ℕ) → start_block_loop entries n k i bc bs ≡ some s
      → Found s (i + k)
  unfolding start_block_loop
  loop_free zero i bc none o pos s e = cc
  loop_free zero i bc (some t) (run a l g) pos s e =
      let t=s : t ≡ s = cc in (omega arith, λ j lo hi end. g j (omega arith) (omega arith))
  loop_free (suc k) i bc bs o pos s e = elim (Bool-cases (entries i % 16 == 0)) [
    | inr taken ↦ later i k s (loop_free k (i + 1) 0 none (idle refl) pos s (rw taken at e))
    | inl free ↦ elim (Bool-cases (bc + 1 == n)) [
      | inl full ↦
          let e' : some (run_start i bs) ≡ some s = rw full at (rw free at e) in
          let s=s : run_start i bs ≡ s = cc in
          let end = opened bs o (eq_of_== _ _ free) pos in
          (
            omega arith,
            λ j lo hi top.
                extend bs o (eq_of_== _ _ free) j (omega arith)
                  (omega (arith, eq_of_== (bc + 1) n full)),
          )
      | inr more ↦ later i k s (
          loop_free k (i + 1) (bc + 1) (some (run_start i bs)) (grow bs o free pos more) pos s
            (rw more at (rw free at e)))
    ]
  ]

  -- With the last block free the search finds some block, whatever its run's length.
  loop_last :
      (k i bc : ℕ) (bs : Option ℕ)
      → entries (i + k) % 16 ≡ 0
      → start_block_loop entries n (suc k) i bc bs ≢ none
  unfolding start_block_loop
  loop_last zero i bc bs free e =
      let here : entries i % 16 ≡ 0 = rw (sym (add-zero i)) free in ground (arith, here)
  loop_last (suc k) i bc bs free e =
      let there : entries (i + 1 + k) % 16 ≡ 0 =
        let shift : i + 1 + k ≡ i + suc k = omega arith in rw shift free in
      ground (
        arith,
        loop_last k (i + 1) 0 none there,
        loop_last k (i + 1) (bc + 1) (some (run_start i bs)) there,
      )

module _ (heap : Heap) (n : ℕ) where
  abbrev es : Entries
  es = heap.table.entries

  abbrev total : ℕ
  total = heap.table.total

  abbrev scan : Option ℕ
  scan = start_block_loop es n total 0 0 none

  found : {s : ℕ} → scan ≡ some s → heap_get_start_block heap n ≡ ok s
  unfolding heap_get_start_block
  found e = rw (e, heap_get_start_block)

  of_found : (s : ℕ) → heap_get_start_block heap n ≡ ok s → scan ≡ some s
  unfolding heap_get_start_block
  of_found s e = ground arith

  inside : 0 < n → (r s : ℕ) → r + n ≤ total → scan ≡ some s → s ≤ r → FreeRun es s (s + n)
  inside pos r s hi e low j lo top =
      (loop_free es n total 0 0 none (idle refl) pos s e).1 j lo top (omega arith)

  -- When the table holds a run of `n` free blocks, heap_get_start_block returns the start of a
  -- run of `n` free blocks that lies inside the table, and no such run begins before it: for
  -- every free run `r`, the result is the same or an earlier block.
  pub heap_get_start_block-finds :
      0 < n
      → (r : ℕ) → r + n ≤ heap.table.total
      → FreeRun heap.table.entries r (r + n)
      → (s : ℕ) × (heap_get_start_block heap n ≡ ok s)
        × (s ≤ r)
        × (s + n ≤ heap.table.total)
        × FreeRun heap.table.entries s (s + n)
  heap_get_start_block-finds pos r hi f =
      let (s, e, low) =
        loop_finds es n total 0 0 none (idle refl) pos r (omega arith) (omega arith) f in
      (s, found e, low, omega (arith, low), inside pos r s hi e low)

  -- Whatever block heap_get_start_block returns for at least one block, the blocks from there on
  -- are free, for `n` blocks or up to the end of the table.
  pub heap_get_start_block-free :
      0 < n
      → (s : ℕ) → heap_get_start_block heap n ≡ ok s
      → (j : ℕ) → s ≤ j
      → j < s + n
      → j < heap.table.total
      → heap.table.entries j % 16 ≡ 0
  heap_get_start_block-free pos s e j lo top end =
      (loop_free es n total 0 0 none (idle refl) pos s (of_found s e)).1 j lo top (omega arith)

  -- When the last block of the table is free and no run of `n` free blocks lies inside the table,
  -- heap_get_start_block does not fail: it returns a block from which `n` blocks reach beyond the
  -- table.
  pub heap_get_start_block-overruns :
      0 < n
      → (last : ℕ) → heap.table.total ≡ suc last
      → heap.table.entries last % 16 ≡ 0
      → ((r : ℕ) → r + n ≤ heap.table.total → FreeRun heap.table.entries r (r + n) → ⊥)
      → (s : ℕ) × (heap_get_start_block heap n ≡ ok s) × (heap.table.total < s + n)
  heap_get_start_block-overruns pos last size free none_fits = elim (Option-cases scan) [
    | inl missed ↦ absurd (reaches missed)
    | inr (s, hit) ↦ (s, found hit, beyond s hit)
  ]
    where
      reaches : scan ≡ none → ⊥
      reaches missed = loop_last es n last 0 0 none (rw (zero-add last) free) (rw size at missed)

      beyond : (s : ℕ) → scan ≡ some s → total < s + n
      beyond s hit = elim (Bool-cases (ltb total (s + n))) [
        | inl h ↦ lt_of_ltb total (s + n) h
        | inr h ↦
            let inside : s + n ≤ total = ground arith in
            absurd (
              none_fits s inside (λ j lo top.
                (loop_free es n total 0 0 none (idle refl) pos s hit).1 j lo top (omega arith)))
      ]
