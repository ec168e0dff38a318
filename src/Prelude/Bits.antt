-- ===== src/Prelude/Bits.antt =====
-- The bits of a word, and words with one bit set or cleared.
use Prim.Native.Nat.{ℕ, zero, suc, ◌+◌, ◌-◌, ◌/◌, ◌%◌, ◌^◌, ◌≤◌}
use mathlib.Core.Path.{◌≡◌, refl, sym, ap, ◌∙◌}
use mathlib.Core.Logic.{inl, inr}
use mathlib.Core.Bool.{Bool, true, false, not, ◌&&◌, ◌||◌}
use native.Mathlib.Omega.{arith}
use native.Mathlib.Nat.{div-div-eq-div-mul, pow-succ', div-one}
use synapse_kernel.Prelude.Tests.{◌==◌, if◌then◌else◌, Bool-cases}

-- `w & (1 << b)` is not 0
unfoldable pub bit : ℕ → ℕ → Bool
bit w b = w / 2 ^ b % 2 == 1

-- `w | (1 << b)`
unfoldable pub with_bit : ℕ → ℕ → ℕ
with_bit w b = if bit w b then w else w + 2 ^ b

-- `w & ~(1 << b)`
unfoldable pub without_bit : ℕ → ℕ → ℕ
without_bit w b = if bit w b then w - 2 ^ b else w

bit-zero : (w : ℕ) → bit w 0 ≡ (w % 2 == 1)
unfolding bit
bit-zero w = rw (div-one w) refl

bit-suc : (w b : ℕ) → bit w (suc b) ≡ bit (w / 2) b
unfolding bit
bit-suc w b =
    ap (λ n. n % 2 == 1) (ap (λ d. w / d) (pow-succ' 2 b) ∙ sym (div-div-eq-div-mul w 2 (2 ^ b)))

-- A number plus a bit that it does not have.
bit-add : (w b c : ℕ) → bit w b ≡ false → bit (w + 2 ^ b) c ≡ (b == c || bit w c)
bit-add w zero zero h = rw (bit-zero (w + 1)) (ground (arith, bit-zero w))
bit-add w zero (suc c) h =
    let even : (w + 1) / 2 ≡ w / 2 = ground (arith, bit-zero w) in
    rw (bit-suc (w + 1) c, bit-suc w c, even) (ground arith)
bit-add w (suc b) zero h =
    let even : (w + 2 ^ suc b) % 2 ≡ w % 2 = omega (arith, pow-succ' 2 b) in
    rw (bit-zero (w + 2 ^ suc b), bit-zero w, even) (ground arith)
bit-add w (suc b) (suc c) h =
    let half : (w + 2 ^ suc b) / 2 ≡ w / 2 + 2 ^ b = omega (arith, pow-succ' 2 b) in
    rw (bit-suc (w + 2 ^ suc b) c, bit-suc w c, half)
      (bit-add (w / 2) b c (sym (bit-suc w b) ∙ h) ∙ ground arith)

pow-le-of_bit : (w b : ℕ) → bit w b ≡ true → 2 ^ b ≤ w
pow-le-of_bit w zero h = ground (arith, bit-zero w)
pow-le-of_bit w (suc b) h =
    omega (arith, pow-succ' 2 b, pow-le-of_bit (w / 2) b (sym (bit-suc w b) ∙ h))

-- A number less a bit that it has.
bit-sub : (w b c : ℕ) → bit w b ≡ true → bit (w - 2 ^ b) c ≡ (bit w c && not (b == c))
bit-sub w zero zero h = rw (bit-zero (w - 1)) (ground (arith, bit-zero w))
bit-sub w zero (suc c) h =
    let odd : (w - 1) / 2 ≡ w / 2 = ground (arith, bit-zero w) in
    rw (bit-suc (w - 1) c, bit-suc w c, odd) (ground arith)
bit-sub w (suc b) zero h =
    let low = pow-le-of_bit w (suc b) h in
    let even : (w - 2 ^ suc b) % 2 ≡ w % 2 = omega (arith, pow-succ' 2 b) in
    rw (bit-zero (w - 2 ^ suc b), bit-zero w, even) (ground arith)
bit-sub w (suc b) (suc c) h =
    let low = pow-le-of_bit w (suc b) h in
    let half : (w - 2 ^ suc b) / 2 ≡ w / 2 - 2 ^ b = omega (arith, pow-succ' 2 b) in
    rw (bit-suc (w - 2 ^ suc b) c, bit-suc w c, half)
      (bit-sub (w / 2) b c (sym (bit-suc w b) ∙ h) ∙ ground arith)

pub bit-with_bit : (w b c : ℕ) → bit (with_bit w b) c ≡ (b == c || bit w c)
unfolding with_bit
bit-with_bit w b c = elim (Bool-cases (bit w b)) [
  | inl e ↦ rw e (same w b c e)
  | inr e ↦ rw e (bit-add w b c e)
]
  where
    same : (w b c : ℕ) → bit w b ≡ true → bit w c ≡ (b == c || bit w c)
    same w b c e = elim (Bool-cases (b == c)) [ inl s ↦ ground (arith, s) | inr s ↦ rw s ]

pub bit-without_bit : (w b c : ℕ) → bit (without_bit w b) c ≡ (bit w c && not (b == c))
unfolding without_bit
bit-without_bit w b c = elim (Bool-cases (bit w b)) [
  | inl e ↦ rw e (bit-sub w b c e)
  | inr e ↦ rw e (same w b c e)
]
  where
    same : (w b c : ℕ) → bit w b ≡ false → bit w c ≡ (bit w c && not (b == c))
    same w b c e = elim (Bool-cases (b == c)) [
      | inl s ↦ ground (arith, s)
      | inr s ↦ rw s (ground arith)
    ]
