-- ===== src/Pool/Stats.antt =====
-- ai_memory_print_stats: the numbers that it prints, in order, and that they agree.
use synapse_kernel.Prelude.{ℕ, ◌+◌, ◌-◌, ◌*◌, ◌/◌, ◌%◌, ◌^◌, ◌≤◌, ◌<◌, ◌≡◌, arith}
use synapse_kernel.Pool.{Pool, min_block_size, free_small_blocks}
use synapse_kernel.Pool.Counted.{Counted}

-- The sizes in KB.
pub record Stats : Type 0 where
  pub total_size : ℕ
  pub used_size : ℕ
  pub free_size : ℕ
  pub peak_usage : ℕ
  pub allocations : ℕ
  pub deallocations : ℕ
  pub small_blocks : ℕ
  pub free_small_blocks : ℕ

unfoldable pub ai_memory_print_stats : Pool → Stats
ai_memory_print_stats s = record {
  total_size = s.total_size / 1024;
  used_size = s.used_size / 1024;
  free_size = (s.total_size + 2 ^ 64 - s.used_size) % 2 ^ 64 / 1024;
  peak_usage = s.peak_usage / 1024;
  allocations = s.allocations;
  deallocations = s.deallocations;
  small_blocks = s.small_block_count;
  free_small_blocks = free_small_blocks s;
}

-- Of a pool with true statistics the printed free size is the total less the used size, up to a KB,
-- the used size is that of the small blocks that are not free, and no number is more than its whole.
pub ai_memory_print_stats-adds_up :
    (s : Pool)
    → Counted s
    → s.small_block_count * min_block_size ≤ s.total_size
    → s.total_size < 2 ^ 64
    → let p = ai_memory_print_stats s in
      (p.free_small_blocks ≤ p.small_blocks)
      × (p.used_size ≡ (p.small_blocks - p.free_small_blocks) * min_block_size / 1024)
      × (p.used_size + p.free_size ≤ p.total_size)
      × (p.total_size ≤ p.used_size + p.free_size + 1)
unfolding ai_memory_print_stats
ai_memory_print_stats-adds_up s c le small =
    let counts = c.counts in (omega arith, omega arith, omega arith, omega arith)
