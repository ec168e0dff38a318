-- ===== src/Hex/Tests.antt =====
-- The printing of 0xBEEF.
use synapse_kernel.Prelude.{ℕ, ◌≡◌, refl}
use synapse_kernel.Hex.{uint64_to_hex, hex_from}

abbrev old : ℕ → ℕ
old i = 7

-- "0xBEEF"
third : uint64_to_hex 0xBEEF old 32 2 ≡ 66
unfolding uint64_to_hex hex_from
third = refl
