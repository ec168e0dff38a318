-- ===== src/Timer/Ticks.antt =====
-- Counting ticks, and setting the timer up.
use synapse_kernel.Prelude.{
  ℕ, ◌+◌, ◌*◌, ◌/◌, ◌%◌, ◌^◌, ◌<◌, ◌≡◌, ◌≢◌, refl, arith, true, eok, List, [], ◌∷◌, ◌++◌, length,
  ==_ne,
}
use synapse_kernel.Timer.{
  Timer, timer_tick, timer_get_ticks, timer_get_ms, timer_set_interval, cntp_cval_el0, cntp_ctl_el0,
}

-- A sequence of timer interrupts, each with the count and the frequency that it reads.
pub ticks : List (ℕ × ℕ) → Timer → Timer
ticks [] s = s
ticks ((current, frequency) ∷ rs) s = ticks rs (timer_tick current frequency s)

ticks_count :
    (rs : List (ℕ × ℕ)) (s : Timer)
    → s.timer_ticks + length rs < 2 ^ 64
    → ((ticks rs s).timer_ticks ≡ s.timer_ticks + length rs)
      × ((ticks rs s).timer_interval_ms ≡ s.timer_interval_ms)
unfolding ticks timer_tick
ticks_count [] s h = (omega arith, refl)
ticks_count ((c, f) ∷ rs) s h =
    let one : (s.timer_ticks + 1) % 2 ^ 64 ≡ s.timer_ticks + 1 = omega arith in
    let (p, q) = ticks_count rs (timer_tick c f s) (rw one (omega arith)) in
    (omega (arith, p, one), q)

-- After any sequence of timer interrupts the tick counter has grown by their number and
-- timer_get_ms is the number of ticks times the interval, as long as the counter and the product
-- stay below 2 ^ 64.
pub timer_get_ms-ticks :
    (rs : List (ℕ × ℕ)) (s : Timer)
    → s.timer_ticks + length rs < 2 ^ 64
    → (s.timer_ticks + length rs) * s.timer_interval_ms < 2 ^ 64
    → (timer_get_ticks (ticks rs s) ≡ s.timer_ticks + length rs)
      × (timer_get_ms (ticks rs s) ≡ (s.timer_ticks + length rs) * s.timer_interval_ms)
unfolding timer_get_ticks timer_get_ms
timer_get_ms-ticks rs s h k = let (p, q) = ticks_count rs s h in (p, rw (p, q) (grind arith))

-- Setting an interval of `ms`, not 0, on an initialised timer succeeds: the interval is kept, the
-- timer is stopped, and its compare value is `ms` thousandths of the frequency ahead of the count,
-- when neither the product nor the sum reaches 2 ^ 64.
pub timer_set_interval-compares :
    (ms current frequency : ℕ) (s : Timer)
    → s.timer_initialized ≡ true
    → ms ≢ 0
    → frequency * ms < 2 ^ 64
    → current + frequency * ms / 1000 < 2 ^ 64
    → let (status, s') = timer_set_interval ms current frequency s in
      (status ≡ eok)
      × (s'.timer_interval_ms ≡ ms)
      × (s'.timer_writes
          ≡ s.timer_writes
            ++ (cntp_ctl_el0, 0) ∷ (cntp_cval_el0, current + frequency * ms / 1000) ∷ [])
unfolding timer_set_interval
timer_set_interval-compares ms current frequency s init ne h k =
    let a : frequency * ms % 2 ^ 64 ≡ frequency * ms = omega arith in
    let b : (current + frequency * ms / 1000) % 2 ^ 64 ≡ current + frequency * ms / 1000 =
      omega arith in
    rw (init, ==_ne ms 0 ne, a, b) (refl, refl, refl)
