-- ===== src/Decimal/Tests.antt =====
-- The printing of 1024 and of 2 ^ 64 - 1.
use synapse_kernel.Prelude.{ℕ, ◌-◌, ◌^◌, ◌≡◌, refl, arith}
use synapse_kernel.Decimal.{uint_to_str, digits_from, swap_from}
use synapse_kernel.Decimal.Reading.{Prints, uint_to_str-Prints}

abbrev old : ℕ → ℕ
old i = 7

-- "1024"
second : uint_to_str 1024 old 1 ≡ 48
unfolding uint_to_str digits_from swap_from
second = refl

fourth : uint_to_str 1024 old 3 ≡ 52
unfolding uint_to_str digits_from swap_from
fourth = refl

uint_to_str-Prints_example : Prints (2 ^ 64 - 1) (uint_to_str (2 ^ 64 - 1) old)
uint_to_str-Prints_example = uint_to_str-Prints (2 ^ 64 - 1) old (omega arith)
