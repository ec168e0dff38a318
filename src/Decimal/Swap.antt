-- ===== src/Decimal/Swap.antt =====
-- The two loops that turn a buffer around.
use synapse_kernel.Prelude.{
  ℕ, zero, suc, ◌+◌, ◌-◌, ◌/◌, ◌≤◌, ◌<◌, ◌≡◌, refl, sym, ap₂, ◌∙◌, arith, true, false, ltb, leb,
  ◌==◌, ◌&&◌, if◌then◌else◌, Bool-cases, inl, inr,
}
use synapse_kernel.Decimal.{swapped, swap_from, swap_half}

-- The buffer with the characters from `j` to `i` turned around.
abbrev pub turned : ℕ → ℕ → (ℕ → ℕ) → ℕ → ℕ
turned j i p k = if leb j k && leb k i then p (j + i - k) else p k

-- A character of the buffer after one swap and the rest turned around.
turn_one :
    (j i : ℕ) (p : ℕ → ℕ) (k : ℕ)
    → j < i
    → turned (j + 1) (i - 1) (swapped j i p) k ≡ turned j i p k
turn_one j i p k lt = elim (Bool-cases (j == k)) [
  | inl at ↦
      let same : j ≡ k = ground arith in
      let index : j + i - k ≡ i = omega arith in
      let out : leb (j + 1) k ≡ false = ground arith in
      let inside : (leb j k && leb k i) ≡ true = ground arith in
      let not_last : (i == k) ≡ false = ground arith in rw (out, inside, not_last, at, index) refl
  | inr off ↦ elim (Bool-cases (i == k)) [
    | inl at ↦
        let index : j + i - k ≡ j = ground arith in
        let out : (leb (j + 1) k && leb k (i - 1)) ≡ false = ground arith in
        let inside : (leb j k && leb k i) ≡ true = ground arith in rw (out, inside, at, index) refl
    | inr off' ↦ elim (Bool-cases (leb j k && leb k i)) [
      | inl inside ↦
          let inner : (leb (j + 1) k && leb k (i - 1)) ≡ true = ground arith in
          let index : j + 1 + (i - 1) - k ≡ j + i - k = omega arith in
          let past : (j == (j + i - k)) ≡ false = ground arith in
          let past' : (i == (j + i - k)) ≡ false = ground arith in
          rw (inner, inside, index, past, past') refl
      | inr outside ↦
          let outer : (leb (j + 1) k && leb k (i - 1)) ≡ false = ground arith in
          rw (outer, outside, off, off') refl
    ]
  ]
]

stays : (j i : ℕ) (p : ℕ → ℕ) (k : ℕ) → i ≤ j → turned j i p k ≡ p k
stays j i p k h = elim (Bool-cases (leb j k && leb k i)) [
  | inl e ↦ let same : j + i - k ≡ k = ground arith in rw (e, same) refl
  | inr e ↦ rw e refl
]

pub swap_from-turned :
    (rounds j i : ℕ) (p : ℕ → ℕ) (k : ℕ)
    → i < j + rounds
    → swap_from rounds j i p k ≡ turned j i p k
unfolding swap_from
swap_from-turned zero j i p k h = ground arith
swap_from-turned (suc rounds) j i p k h = elim (Bool-cases (ltb j i)) [
  | inl e ↦ rw e (
      swap_from-turned rounds (j + 1) (i - 1) (swapped j i p) k (ground arith)
      ∙ turn_one j i p k (ground arith))
  | inr e ↦ rw e (sym (stays j i p k (ground arith)))
]

-- The loop over the first half of `n` characters.
pub swap_half-turned :
    (rounds j n : ℕ) (p : ℕ → ℕ) (k : ℕ)
    → j + rounds ≡ n / 2
    → 0 < n
    → swap_half rounds j n p k ≡ turned j (n - 1 - j) p k
unfolding swap_half
swap_half-turned zero j n p k h pos = sym (stays j (n - 1 - j) p k (omega arith))
swap_half-turned (suc rounds) j n p k h pos =
    let last : n - j - 1 ≡ n - 1 - j = omega arith in
    let next : n - 1 - (j + 1) ≡ n - 1 - j - 1 = omega arith in
    let ordered : j < n - 1 - j = omega arith in
    swap_half-turned rounds (j + 1) n (swapped j (n - j - 1) p) k (omega arith) pos
    ∙ ap₂ (λ i q. turned (j + 1) q (swapped j i p) k) last next
    ∙ turn_one j (n - 1 - j) p k ordered
