-- ===== src/Timer/Tests.antt =====
-- The timer on concrete counts.
use synapse_kernel.Prelude.{ℕ, true, List, [], ◌∷◌}
use synapse_kernel.Timer.{Timer}

abbrev running_timer : Timer
running_timer = record {
  interrupts = record { handlers = λ i. 0; initialized = true; writes = [] };
  timer_initialized = true;
  timer_handler = 0;
  timer_ticks = 5;
  timer_interval_ms = 10;
  timer_writes = [];
}

abbrev two_reads : List (ℕ × ℕ)
two_reads = (1000, 62500000) ∷ (626000, 62500000) ∷ []
