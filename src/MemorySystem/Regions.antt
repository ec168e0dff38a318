-- ===== src/MemorySystem/Regions.antt =====
-- memory_print_regions and memory_test_regions of core/memory/memory_system.c, and the uint_to_str of
-- that file. What is printed of a region is its numbers and the word for its type, in order.
use synapse_kernel.Prelude.{
  ℕ, zero, suc, ◌+◌, ◌-◌, ◌/◌, ◌^◌, ◌<◌, ◌≡◌, refl, Status, eok, update, List, [], ◌∷◌,
}
use synapse_kernel.Decimal.{digits_from, swap_from}
use synapse_kernel.Decimal
use synapse_kernel.Decimal.Reading.{Prints, uint_to_str-Prints}

-- MEM_REGION_TYPE_RAM to MEM_REGION_TYPE_KERNEL, and any other value
pub data RegionType : Type 0 where
  ram device mmio kernel unknown : RegionType

-- The name is the bytes of the array.
pub record Region : Type 0 where
  pub phys_start : ℕ
  pub phys_end : ℕ
  pub virt_start : ℕ
  pub size : ℕ
  pub type : RegionType
  pub name : ℕ → ℕ

-- The lines of a region. The numbers are printed by uint_to_str, in decimal.
pub record Printed : Type 0 where
  pub index : ℕ
  pub name : ℕ → ℕ
  pub phys_start : ℕ
  pub phys_end : ℕ
  pub virt_start : ℕ
  pub size_kb : ℕ
  pub type : RegionType

-- uint_to_str, with the loops of the function of that name in ai_memory.c.
unfoldable uint_to_str : ℕ → (ℕ → ℕ) → ℕ → ℕ
uint_to_str value temp_str_buffer =
    let (i, buf) = digits_from 31 0 value temp_str_buffer in swap_from i 0 (i - 1) (update buf i 0)

-- What is printed of region `i`.
abbrev printed : ℕ → Region → Printed
printed i region = record {
  index = i;
  name = region.name;
  phys_start = region.phys_start;
  phys_end = region.phys_end;
  virt_start = region.virt_start;
  size_kb = region.size / 1024;
  type = region.type;
}

-- The loop over the regions, with the rounds left.
unfoldable regions_from : ℕ → ℕ → (ℕ → Region) → List Printed
regions_from zero i memory_regions = []
regions_from (suc rounds) i memory_regions =
    printed i (memory_regions i) ∷ regions_from rounds (i + 1) memory_regions

unfoldable memory_print_regions : ℕ → (ℕ → Region) → List Printed
unfolding regions_from
memory_print_regions num_memory_regions memory_regions =
    regions_from num_memory_regions 0 memory_regions

unfoldable memory_test_regions : ℕ → (ℕ → Region) → Status × List Printed
unfolding memory_print_regions
memory_test_regions num_memory_regions memory_regions =
    (eok, memory_print_regions num_memory_regions memory_regions)

-- The string of uint_to_str reads as the number, whatever the buffer held.
uint_to_str-Prints_again :
    (value : ℕ) (buf : ℕ → ℕ) → value < 2 ^ 64 → Prints value (uint_to_str value buf)
unfolding uint_to_str Decimal.uint_to_str
uint_to_str-Prints_again value buf h = uint_to_str-Prints value buf h

-- No function of the file changes the number of regions from 0: nothing is printed of any.
memory_test_regions-none :
    (memory_regions : ℕ → Region) → memory_test_regions 0 memory_regions ≡ (eok, [])
unfolding memory_test_regions regions_from
memory_test_regions-none memory_regions = refl
