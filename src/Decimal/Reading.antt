-- ===== src/Decimal/Reading.antt =====
-- The number that a printed string reads as.
use synapse_kernel.Prelude.{
  ℕ, zero, suc, ◌+◌, ◌-◌, ◌*◌, ◌/◌, ◌^◌, ◌≤◌, ◌<◌, ◌≡◌, refl, sym, ap, ◌∙◌, arith, true, false, ltb,
  leb, ◌==◌, ◌&&◌, update, Bool-cases, inl, inr, eq_of_==,
}
use native.Mathlib.Nat.{pow-succ'}
use synapse_kernel.Decimal.{
  digit, digits_from, swap_from, uint_to_str, while_digits, swap_half, boot_uint_to_str,
}
use synapse_kernel.Decimal.Swap.{turned, swap_from-turned, swap_half-turned}

-- The first `n` characters, read as a decimal number.
abbrev pub number : ℕ → (ℕ → ℕ) → ℕ
number zero p = 0
number (suc n) p = number n p * 10 + (p n - 48)

-- The `n` characters from `i` on, read with the last digit first.
abbrev backwards : ℕ → ℕ → (ℕ → ℕ) → ℕ
backwards zero i p = 0
backwards (suc n) i p = (p i - 48) + 10 * backwards n (i + 1) p

-- What the first loop leaves: `n` digits from `i` on.
record Digits (i value : ℕ) (buf : ℕ → ℕ) (rounds n : ℕ) (buf' : ℕ → ℕ) : Type 0 where
  some_digit : 0 < n
  few : n ≤ rounds
  reads : backwards n i buf' ≡ value
  are_digits : (k : ℕ) → i ≤ k → k < i + n → (48 ≤ buf' k) × (buf' k ≤ 57)
  before : (k : ℕ) → k < i → buf' k ≡ buf k

-- The last round.
done-Digits :
    (rounds i value : ℕ) (buf : ℕ → ℕ)
    → value < 10
    → Digits i value buf (suc rounds) 1 (update buf i (digit value))
done-Digits rounds i value buf h = record {
  some_digit = omega arith;
  few = omega arith;
  reads = ground arith;
  are_digits = λ k lo hi. let same : i ≡ k = omega arith in ground arith;
  before = λ k lt. ground arith;
}

-- One round and the others.
step-Digits :
    (rounds i value n : ℕ) (buf buf' : ℕ → ℕ)
    → Digits (i + 1) (value / 10) (update buf i (digit value)) rounds n buf'
    → Digits i value buf (suc rounds) (suc n) buf'
step-Digits rounds i value n buf buf' d =
    let few = d.few in
    let first : buf' i ≡ digit value = d.before i (omega arith) ∙ ground arith in
    record {
      some_digit = omega arith;
      few = omega arith;
      reads = omega (arith, first, d.reads);
      are_digits = λ k lo hi. elim (Bool-cases (i == k)) [
        | inl e ↦ let same : i ≡ k = ground arith in rw (sym same, first) (omega arith, omega arith)
        | inr e ↦ d.are_digits k (ground arith) (omega arith)
      ];
      before = λ k lt. d.before k (omega arith) ∙ ground arith;
    }

digits_from-Digits :
    (rounds i value : ℕ) (buf : ℕ → ℕ)
    → value < 10 ^ suc rounds
    → (n : ℕ) × ((digits_from (suc rounds) i value buf).0 ≡ i + n)
      × Digits i value buf (suc rounds) n (digits_from (suc rounds) i value buf).1
unfolding digits_from
digits_from-Digits zero i value buf h =
    let last : ltb 0 (value / 10) ≡ false = ground arith in
    rw last (1, refl, done-Digits 0 i value buf (omega arith))
digits_from-Digits (suc r) i value buf h = elim (Bool-cases (ltb 0 (value / 10))) [
  | inl more ↦
      let (n, at, d) =
        digits_from-Digits r (i + 1) (value / 10) (update buf i (digit value))
          (omega (arith, pow-succ' 10 (suc r))) in
      rw more (suc n, at ∙ omega arith, step-Digits (suc r) i value n buf _ d)
  | inr done ↦ rw done (1, refl, done-Digits (suc r) i value buf (ground arith))
]

-- The buffer turned around reads in the usual order.
number-turned :
    (n : ℕ) (p q : ℕ → ℕ) (k : ℕ)
    → ((j : ℕ) → j < n → q j ≡ p (n - 1 - j))
    → k ≤ n
    → number k q ≡ backwards k (n - k) p
number-turned n p q zero h le = refl
number-turned n p q (suc k) h le =
    let index : n - 1 - k ≡ n - suc k = omega arith in
    let next : n - suc k + 1 ≡ n - k = omega arith in
    let char : q k ≡ p (n - suc k) = h k (omega arith) ∙ ap p index in
    rw (next, number-turned n p q k h (omega arith), char) (omega arith)

-- A string in a buffer of 32 characters that reads as the value.
pub record Prints (value : ℕ) (p : ℕ → ℕ) : Type 0 where
  pub size : ℕ
  pub some_digit : 0 < size
  pub fits : size < 32
  pub ends : p size ≡ 0
  pub are_digits : (k : ℕ) → k < size → (48 ≤ p k) × (p k ≤ 57)
  pub reads : number size p ≡ value

turned-Prints :
    (value n : ℕ) (buf b q : ℕ → ℕ)
    → Digits 0 value buf 31 n b
    → ((k : ℕ) → q k ≡ turned 0 (n - 1) (update b n 0) k)
    → Prints value q
turned-Prints value n buf b q d same =
    let some_digit = d.some_digit in
    let few = d.few in
    let char : (j : ℕ) → j < n → q j ≡ b (n - 1 - j) = λ j lt. same j ∙ inside j lt in
    record {
      size = n;
      some_digit = d.some_digit;
      fits = omega arith;
      ends = same n ∙ ground arith;
      are_digits = λ k lt. rw (char k lt) (d.are_digits (n - 1 - k) (omega arith) (omega arith));
      reads =
          number-turned n b q n char (omega arith)
          ∙ ap (λ z. backwards n z b) (omega arith)
          ∙ d.reads;
    }
  where
    inside : (j : ℕ) → j < n → turned 0 (n - 1) (update b n 0) j ≡ b (n - 1 - j)
    inside j lt =
        let test : (leb 0 j && leb j (n - 1)) ≡ true = ground arith in
        let index : 0 + (n - 1) - j ≡ n - 1 - j = omega arith in
        let other : (n == (n - 1 - j)) ≡ false = ground arith in rw (test, index, other) refl

-- For every value below 2 ^ 64 and whatever the buffer holds, uint_to_str leaves a string of at least
-- one and at most 31 digits, ended by a 0, that reads as the value in decimal.
pub uint_to_str-Prints :
    (value : ℕ) (buf : ℕ → ℕ) → value < 2 ^ 64 → Prints value (uint_to_str value buf)
unfolding uint_to_str
uint_to_str-Prints value buf h =
    let (n, at, d) = digits_from-Digits 30 0 value buf (omega arith) in
    let b = (digits_from 31 0 value buf).1 in
    let some_digit = d.some_digit in
    turned-Prints value n buf b _ d (λ k.
      let count : (digits_from 31 0 value buf).0 ≡ n = at ∙ omega arith in
      rw count (swap_from-turned n 0 (n - 1) (update b n 0) k (omega arith)))

while_digits-digits_from :
    (rounds i value : ℕ) (buf : ℕ → ℕ)
    → 0 < value
    → while_digits (suc rounds) i value buf ≡ digits_from (suc rounds) i value buf
unfolding while_digits digits_from
while_digits-digits_from zero i value buf pos =
    let going : ltb 0 value ≡ true = ground arith in
    elim (Bool-cases (ltb 0 (value / 10))) [
      | inl more ↦ rw (going, more) refl
      | inr done ↦ rw (going, done) refl
    ]
while_digits-digits_from (suc r) i value buf pos =
    let going : ltb 0 value ≡ true = ground arith in
    elim (Bool-cases (ltb 0 (value / 10))) [
      | inl more ↦
          let rest =
            while_digits-digits_from r (i + 1) (value / 10) (update buf i (digit value))
              (ground arith) in
          rw (going, more) (rw more at rest)
      | inr done ↦ rw (going, done) refl
    ]

halves : (n : ℕ) (p : ℕ → ℕ) (k : ℕ) → 0 < n → swap_half (n / 2) 0 n p k ≡ swap_from n 0 (n - 1) p k
halves n p k pos =
    let whole : n - 1 - 0 ≡ n - 1 = omega arith in
    swap_half-turned (n / 2) 0 n p k (omega arith) pos
    ∙ ap (λ i. turned 0 i p k) whole
    ∙ sym (swap_from-turned n 0 (n - 1) p k (omega arith))

zero-uint_to_str : (buf : ℕ → ℕ) → uint_to_str 0 buf ≡ update (update buf 0 48) 1 0
unfolding uint_to_str digits_from swap_from
zero-uint_to_str buf = refl

pos-uint_to_str :
    (value : ℕ) (buf : ℕ → ℕ) (k : ℕ)
    → value < 2 ^ 64
    → 0 < value
    → boot_uint_to_str value buf 32 k ≡ uint_to_str value buf k
unfolding boot_uint_to_str uint_to_str
pos-uint_to_str value buf k h pos =
    let given : (value == 0) ≡ false = ground arith in
    let (n, at, d) = digits_from-Digits 30 0 value buf (omega arith) in
    let some_digit : 0 < (digits_from 31 0 value buf).0 = omega (arith, at, d.some_digit) in
    rw (given, while_digits-digits_from 30 0 value buf pos)
      (halves (digits_from 31 0 value buf).0
        (update (digits_from 31 0 value buf).1 (digits_from 31 0 value buf).0 0) k some_digit)

-- For every value below 2 ^ 64, uint_to_str of kernel_main.c with a buffer of 32 characters leaves
-- the same characters, in the buffer and behind it, as uint_to_str of ai_memory.c.
pub boot_uint_to_str-uint_to_str :
    (value : ℕ) (buf : ℕ → ℕ) (k : ℕ)
    → value < 2 ^ 64
    → boot_uint_to_str value buf 32 k ≡ uint_to_str value buf k
unfolding boot_uint_to_str
boot_uint_to_str-uint_to_str value buf k h = elim (Bool-cases (value == 0)) [
  | inl e ↦ rw (eq_of_== value 0 e, zero-uint_to_str buf) refl
  | inr e ↦ pos-uint_to_str value buf k h (ground arith)
]
