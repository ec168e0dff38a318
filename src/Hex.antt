-- ===== src/Hex.antt =====
-- The printing of hexadecimal numbers: uint64_to_hex of core/task/task.c, which core/process/process.c
-- has once more. A buffer is a function of the index, which goes on behind the buffer.
pub mod Reading
mod Tests
use synapse_kernel.Prelude.{
  ℕ, zero, suc, ◌+◌, ◌-◌, ◌*◌, ◌/◌, ◌%◌, ◌^◌, Bool, true, false, ◌||◌, not, ltb, ◌==◌,
  if◌then◌else◌, update,
}

-- `digit < 10 ? '0' + digit : 'A' + (digit - 10)`
abbrev pub hex_char : ℕ → ℕ
hex_char digit = if ltb digit 10 then 48 + digit else 65 + (digit - 10)

-- `for (i = 60; i >= 0 && pos < buffer_size - 1; i -= 4)`, with the rounds left, one more than
-- `i / 4`: `pos` and the buffer.
unfoldable pub hex_from : ℕ → ℕ → ℕ → ℕ → Bool → (ℕ → ℕ) → ℕ × (ℕ → ℕ)
hex_from zero value buffer_size pos significant buffer = (pos, buffer)
hex_from (suc i) value buffer_size pos significant buffer =
    let digit = value / 16 ^ i % 16 in
    let written =
      hex_from i value buffer_size (pos + 1) true (update buffer pos (hex_char digit)) in
    let skipped = hex_from i value buffer_size pos significant buffer in
    if not (ltb pos (buffer_size - 1))
    then (pos, buffer)
    else if not (digit == 0) || significant || i == 0
    then written
    else skipped

-- The buffer after the call.
unfoldable pub uint64_to_hex : ℕ → (ℕ → ℕ) → ℕ → ℕ → ℕ
uint64_to_hex value buffer buffer_size =
    if ltb buffer_size 3
    then buffer
    else let (pos, written) =
        hex_from 16 value buffer_size 2 false (update (update buffer 0 48) 1 120) in
      update written pos 0
