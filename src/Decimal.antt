-- ===== src/Decimal.antt =====
-- The printing of numbers: uint_to_str of core/memory/ai_memory/ai_memory.c, which
-- core/memory/memory_system.c has once more, and uint_to_str of core/kernel_main.c.
-- A buffer is a function of the index, which goes on behind the buffer.
pub mod Swap
pub mod Reading
mod Tests
use synapse_kernel.Prelude.{
  ℕ, zero, suc, ◌+◌, ◌-◌, ◌*◌, ◌/◌, ◌%◌, Bool, true, false, ltb, ◌==◌, if◌then◌else◌, update,
}

-- `'0' + value % 10`
abbrev pub digit : ℕ → ℕ
digit value = 48 + value % 10

-- `do ... while (value > 0 && i < 31)`, with the rounds left and `i`: `i` and the buffer.
unfoldable pub digits_from : ℕ → ℕ → ℕ → (ℕ → ℕ) → ℕ × (ℕ → ℕ)
digits_from zero i value buf = (i, buf)
digits_from (suc rounds) i value buf =
    let rest = digits_from rounds (i + 1) (value / 10) (update buf i (digit value)) in
    if ltb 0 (value / 10) then rest else (i + 1, update buf i (digit value))

-- The exchange of two characters.
abbrev pub swapped : ℕ → ℕ → (ℕ → ℕ) → ℕ → ℕ
swapped j i p = update (update p j (p i)) i (p j)

-- `while (j < i)`, with the rounds left.
unfoldable pub swap_from : ℕ → ℕ → ℕ → (ℕ → ℕ) → ℕ → ℕ
swap_from zero j i p = p
swap_from (suc rounds) j i p =
    let rest = swap_from rounds (j + 1) (i - 1) (swapped j i p) in if ltb j i then rest else p

-- The buffer after the call. There are at most as many swaps as digits.
unfoldable pub uint_to_str : ℕ → (ℕ → ℕ) → ℕ → ℕ
uint_to_str value temp_str_buffer =
    let (i, buf) = digits_from 31 0 value temp_str_buffer in swap_from i 0 (i - 1) (update buf i 0)

-- `while (value > 0 && i < size - 1)`, with the rounds left.
unfoldable pub while_digits : ℕ → ℕ → ℕ → (ℕ → ℕ) → ℕ × (ℕ → ℕ)
while_digits zero i value buf = (i, buf)
while_digits (suc rounds) i value buf =
    let rest = while_digits rounds (i + 1) (value / 10) (update buf i (digit value)) in
    if ltb 0 value then rest else (i, buf)

-- `for (j = 0; j < i / 2; j++)`, with the rounds left and `j`.
unfoldable pub swap_half : ℕ → ℕ → ℕ → (ℕ → ℕ) → ℕ → ℕ
swap_half zero j i buf = buf
swap_half (suc rounds) j i buf = swap_half rounds (j + 1) i (swapped j (i - j - 1) buf)

-- uint_to_str of kernel_main.c, for a buffer that is not NULL.
unfoldable pub boot_uint_to_str : ℕ → (ℕ → ℕ) → ℕ → ℕ → ℕ
boot_uint_to_str value buf size =
    if size == 0
    then buf
    else if value == 0
    then update (update buf 0 48) 1 0
    else let (i, written) = while_digits (size - 1) 0 value buf in
      swap_half (i / 2) 0 i (update written i 0)
