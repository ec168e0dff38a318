-- ===== src/Hex/Reading.antt =====
-- The number that a printed string reads as.
use synapse_kernel.Prelude.{
  ℕ, zero, suc, ◌+◌, ◌-◌, ◌*◌, ◌/◌, ◌%◌, ◌^◌, ◌≤◌, ◌<◌, ◌≡◌, refl, sym, ap, ap₂, ◌∙◌, arith, Bool,
  true, false, ltb, ◌==◌, ◌||◌, not, if◌then◌else◌, update, Bool-cases, inl, inr, ◌⊎◌,
}
use native.Mathlib.Nat.{pow-succ', div-div-eq-div-mul, mul_comm, div-one}
use synapse_kernel.Hex.{hex_char, hex_from, uint64_to_hex}

-- The value of a hexadecimal digit.
abbrev pub hex_value : ℕ → ℕ
hex_value c = if ltb c 65 then c - 48 else c - 65 + 10

-- The `n` characters behind "0x", read as a hexadecimal number.
abbrev pub hex_number : ℕ → (ℕ → ℕ) → ℕ
hex_number zero p = 0
hex_number (suc n) p = hex_number n p * 16 + hex_value (p (2 + n))

hex_number-ext :
    (n : ℕ) (p q : ℕ → ℕ) → ((k : ℕ) → k < 2 + n → p k ≡ q k) → hex_number n p ≡ hex_number n q
hex_number-ext zero p q h = refl
hex_number-ext (suc n) p q h =
    ap₂ (λ a c. a * 16 + hex_value c) (hex_number-ext n p q (λ k lt. h k (omega arith)))
      (h (2 + n) (omega arith))

-- One digit more.
hex_number-update :
    (n d : ℕ) (p : ℕ → ℕ)
    → d < 16
    → hex_number (suc n) (update p (2 + n) (hex_char d)) ≡ hex_number n p * 16 + d
hex_number-update n d p lt =
    let same : hex_number n (update p (2 + n) (hex_char d)) ≡ hex_number n p =
      hex_number-ext n (update p (2 + n) (hex_char d)) p (λ k below. ground arith) in
    let char : hex_value (update p (2 + n) (hex_char d) (2 + n)) ≡ d = ground arith in
    rw (same, char) refl

-- The digits from `i` on are those from `i + 1` on and one more.
shift : (value i : ℕ) → value / 16 ^ i ≡ value / 16 ^ suc i * 16 + value / 16 ^ i % 16
shift value i =
    let e : value / 16 ^ i / 16 ≡ value / 16 ^ suc i =
      div-div-eq-div-mul value (16 ^ i) 16
      ∙ ap (λ d. value / d) (mul_comm (16 ^ i) 16 ∙ sym (pow-succ' 16 i)) in
    omega (arith, e)

-- A string of at most 16 hexadecimal digits behind "0x" that reads as the value.
pub record HexPrints (value : ℕ) (p : ℕ → ℕ) : Type 0 where
  pub size : ℕ
  pub some_digit : 0 < size
  pub few : size ≤ 16
  pub starts : (p 0 ≡ 48) × (p 1 ≡ 120)
  pub ends : p (2 + size) ≡ 0
  pub reads : hex_number size p ≡ value

-- What the loop leaves of `start` digits after `i` rounds: `n` digits in all.
record Written (value start i : ℕ) (buffer : ℕ → ℕ) (result : ℕ × (ℕ → ℕ)) : Type 0 where
  n : ℕ
  at : result.0 ≡ 2 + n
  grows : start ≤ n
  last : 0 < i → 0 < n
  few : n ≤ start + i
  reads : hex_number n result.1 ≡ value
  before : (k : ℕ) → k < 2 → result.1 k ≡ buffer k

all_false : (a b c : Bool) → (a || b || c) ≡ false → (a ≡ false) × (b ≡ false) × (c ≡ false)
all_false true b c h = absurd (ground arith)
all_false false true c h = absurd (ground arith)
all_false false false c h = (refl, refl, h)

first : (significant : Bool) (n : ℕ) → (significant ≡ true) ⊎ (n ≡ 0) → significant ≡ false → n ≡ 0
first significant n (inl s) unset = absurd (ground (arith, s, unset))
first significant n (inr z) unset = z

hex_from-Written :
    (i value buffer_size n : ℕ) (significant : Bool) (buffer : ℕ → ℕ)
    → 2 + n + i < buffer_size
    → hex_number n buffer ≡ value / 16 ^ i
    → (significant ≡ true) ⊎ (n ≡ 0)
    → Written value n i buffer (hex_from i value buffer_size (2 + n) significant buffer)
unfolding hex_from
hex_from-Written zero value buffer_size n significant buffer room reads some = record {
  n = n;
  at = refl;
  grows = omega arith;
  last = λ pos. absurd (omega arith);
  few = omega arith;
  reads = reads ∙ div-one value;
  before = λ k lt. refl;
}
hex_from-Written (suc i) value buffer_size n significant buffer room reads some =
    let digit = value / 16 ^ i % 16 in
    let inside : ltb (2 + n) (buffer_size - 1) ≡ true = ground arith in
    elim (Bool-cases (not (digit == 0) || significant || i == 0)) [
      | inl e ↦
          let w =
            hex_from-Written i value buffer_size (suc n) true
              (update buffer (2 + n) (hex_char digit)) (omega arith)
              (hex_number-update n digit buffer (omega arith)
                ∙ ap (λ z. z * 16 + digit) reads
                ∙ sym (shift value i))
              (inl refl) in
          let index : 2 + n + 1 ≡ 2 + suc n = omega arith in
          rw (inside, e, index)
            (record {
              n = w.n;
              at = w.at;
              grows = omega (arith, w.grows);
              last = λ pos. omega (arith, w.grows);
              few = omega (arith, w.few);
              reads = w.reads;
              before = λ k lt. w.before k lt ∙ ground arith;
            })
      | inr e ↦
          let (no_digit, unset, more) = all_false (not (digit == 0)) significant (i == 0) e in
          let start : n ≡ 0 = first significant n some unset in
          let none_read : hex_number n buffer ≡ 0 = ap (λ z. hex_number z buffer) start in
          let zero_digit : digit ≡ 0 = ground arith in
          let w =
            hex_from-Written i value buffer_size n significant buffer (omega arith)
              (omega (arith, none_read, reads, zero_digit, shift value i)) some in
          rw (inside, e)
            (record {
              n = w.n;
              at = w.at;
              grows = w.grows;
              last = λ pos. w.last (ground arith);
              few = omega (arith, w.few);
              reads = w.reads;
              before = w.before;
            })
    ]

-- For every value below 2 ^ 64 and a buffer of at least 19 characters, uint64_to_hex leaves "0x" and at
-- least one and at most 16 digits, ended by a 0, that read as the value in hexadecimal.
pub uint64_to_hex-HexPrints :
    (value buffer_size : ℕ) (buffer : ℕ → ℕ)
    → value < 2 ^ 64
    → 19 ≤ buffer_size
    → HexPrints value (uint64_to_hex value buffer buffer_size)
unfolding uint64_to_hex
uint64_to_hex-HexPrints value buffer_size buffer h room =
    let enough : ltb buffer_size 3 ≡ false = ground arith in
    let start : ℕ → ℕ = update (update buffer 0 48) 1 120 in
    let w =
      hex_from-Written 16 value buffer_size 0 false start (omega arith) (omega arith) (inr refl) in
    let result = hex_from 16 value buffer_size 2 false start in
    rw (enough, w.at)
      (record {
        size = w.n;
        some_digit = w.last (omega arith);
        few = omega (arith, w.few);
        starts =
            (ground (arith, w.before 0 (omega arith)), ground (arith, w.before 1 (omega arith)));
        ends = ground arith;
        reads =
            hex_number-ext w.n (update result.1 (2 + w.n) 0) result.1 (λ k lt. ground arith)
            ∙ w.reads;
      })
