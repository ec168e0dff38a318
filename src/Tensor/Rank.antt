-- ===== src/Tensor/Rank.antt =====
-- The place of an element among all elements, counted row by row.
use synapse_kernel.Prelude.{
  ℕ, zero, suc, ◌+◌, ◌-◌, ◌*◌, ◌/◌, ◌%◌, ◌^◌, ◌≤◌, ◌<◌, ◌≡◌, sym, ap, ◌∙◌, arith, inl, inr,
}
use native.Mathlib.Nat.{
  mul_comm, mul-le-mul_right, mul-add-div_right, div-eq_of_lt, eq-or-lt_of_le, add-mul, mul_assoc,
}
use synapse_kernel.Tensor.{elems_from, offset_from}
use synapse_kernel.Tensor.Strides.{volume, IsRowMajor, mod-mul-mod}

-- The elements that come before the one at the indices, among the `k` dimensions from `i` on.
abbrev pub rank : (ℕ → ℕ) → (ℕ → ℕ) → ℕ → ℕ → ℕ
rank dim indices i zero = 0
rank dim indices i (suc k) = indices i * volume dim (i + 1) k + rank dim indices (i + 1) k

-- The indices lie in the `k` dimensions from `i` on.
pub record InShape (dim indices : ℕ → ℕ) (i k : ℕ) : Type 0 where
  pub bounded : (j : ℕ) → i ≤ j → j < i + k → indices j < dim j

pub tail_InShape :
    {dim indices : ℕ → ℕ} {i k : ℕ} → InShape dim indices i (suc k) → InShape dim indices (i + 1) k
tail_InShape h = record { bounded = λ j lo hi. h.bounded j (omega arith) (omega arith) }

-- An index and a place in its row are a place in all rows.
row_lt : (a d v r : ℕ) → a < d → r < v → a * v + r < d * v
row_lt a d v r h k =
    let le = mul-le-mul_right {m = a + 1} {n = d} v (omega arith) in
    omega (arith, add-mul a 1 v, le)

pub rank-lt-volume :
    (dim indices : ℕ → ℕ) (i k : ℕ)
    → InShape dim indices i k
    → rank dim indices i k < volume dim i k
rank-lt-volume dim indices i zero h = omega arith
rank-lt-volume dim indices i (suc k) h =
    row_lt (indices i) (dim i) (volume dim (i + 1) k) (rank dim indices (i + 1) k)
      (h.bounded i (omega arith) (omega arith))
      (rank-lt-volume dim indices (i + 1) k (tail_InShape h))

-- The row and the place in it are known from the place in all rows.
row_injective : (a b v r q : ℕ) → r < v → q < v → a * v + r ≡ b * v + q → (a ≡ b) × (r ≡ q)
row_injective a b v r q lr lq e =
    let pos : 0 < v = omega arith in
    let rows : (a * v + r) / v ≡ a =
      mul-add-div_right pos a r ∙ ap (λ z. a + z) (div-eq_of_lt lr) ∙ omega arith in
    let rows' : (b * v + q) / v ≡ b =
      mul-add-div_right pos b q ∙ ap (λ z. b + z) (div-eq_of_lt lq) ∙ omega arith in
    let same : a ≡ b = sym rows ∙ ap (λ z. z / v) e ∙ rows' in
    (same, omega (arith, ap (λ z. z * v) same))

pub rank-injective :
    (dim indices indices' : ℕ → ℕ) (i k : ℕ)
    → InShape dim indices i k
    → InShape dim indices' i k
    → rank dim indices i k ≡ rank dim indices' i k
    → (j : ℕ) → i ≤ j
    → j < i + k
    → indices j ≡ indices' j
rank-injective dim indices indices' i zero h h' e j lo hi = absurd (omega arith)
rank-injective dim indices indices' i (suc k) h h' e j lo hi =
    let (here, rest) =
      row_injective (indices i) (indices' i) (volume dim (i + 1) k) (rank dim indices (i + 1) k)
        (rank dim indices' (i + 1) k) (rank-lt-volume dim indices (i + 1) k (tail_InShape h))
        (rank-lt-volume dim indices' (i + 1) k (tail_InShape h')) e in
    elim (eq-or-lt_of_le lo) [
      | inl same ↦ rw (sym same) here
      | inr later ↦
          rank-injective dim indices indices' (i + 1) k (tail_InShape h) (tail_InShape h') rest j
            (omega (arith, later)) (omega arith)
    ]

pub mul-mod-mod : (x y m : ℕ) → (x * (y % m)) % m ≡ (x * y) % m
mul-mod-mod x y m =
    ap (λ z. z % m) (mul_comm x (y % m)) ∙ mod-mul-mod y x m ∙ ap (λ z. z % m) (mul_comm y x)

-- The loops that multiply.
pub elems_from-volume :
    (k i : ℕ) (dim : ℕ → ℕ) (total : ℕ)
    → total < 2 ^ 64
    → elems_from k i dim total ≡ total * volume dim i k % 2 ^ 64
unfolding elems_from
elems_from-volume zero i dim total h = omega arith
elems_from-volume (suc k) i dim total h =
    elems_from-volume k (i + 1) dim (total * dim i % 2 ^ 64) (omega arith)
    ∙ mod-mul-mod (total * dim i) (volume dim (i + 1) k) (2 ^ 64)
    ∙ ap (λ z. z % 2 ^ 64) (mul_assoc total (dim i) (volume dim (i + 1) k))

-- The loops that add up an offset.
pub offset_from-rank :
    (k i ndim : ℕ) (dim indices stride : ℕ → ℕ) (offset : ℕ)
    → i + k ≡ ndim
    → IsRowMajor ndim dim stride
    → offset < 2 ^ 64
    → offset_from k i indices stride offset ≡ (offset + rank dim indices i k) % 2 ^ 64
unfolding offset_from
offset_from-rank zero i ndim dim indices stride offset e rows h = omega arith
offset_from-rank (suc k) i ndim dim indices stride offset e rows h =
    let left : ndim - 1 - i ≡ k = omega arith in
    let step : stride i ≡ volume dim (i + 1) k % 2 ^ 64 =
      rows.steps i (omega arith) ∙ ap (λ z. volume dim (i + 1) z % 2 ^ 64) left in
    let same = mul-mod-mod (indices i) (volume dim (i + 1) k) (2 ^ 64) in
    offset_from-rank k (i + 1) ndim dim indices stride ((offset + indices i * stride i) % 2 ^ 64)
      (omega arith) rows (omega arith)
    ∙ ap (λ z. ((offset + indices i * z) % 2 ^ 64 + rank dim indices (i + 1) k) % 2 ^ 64) step
    ∙ omega arith
