-- ===== src/Core1/Wave.antt =====
-- firmware/src/core1/mod.rs, `simulate_imu`: the range, the slope and the period of the readings.
use sand_os.Base.{
  ℕ, suc, ◌+◌, ◌-◌, ◌*◌, ◌%◌, ◌^◌, ◌≤◌, ◌<◌, ◌≡◌, sym, ap, ◌∙◌, lt→ltb, arith, ltb, if◌then◌else◌,
}
use sand_os.Base.Int.{pos, as_u32, as_i32}
use sand_os.Core1.{as_i64, rem_period, scale, wave, simulate_imu}

-- The triangle over the phase of a tick, in millidegrees.
abbrev pub triangle : ℕ → ℕ
triangle phase = if ltb phase 250 then phase * 120 else (500 - phase) * 120

wave-triangle : (phase : ℕ) → phase < 500 → wave (pos phase) ≡ pos (triangle phase)
unfolding wave scale as_u32 as_i32
wave-triangle phase h = ground arith

pitch-triangle :
    (tick : ℕ) → tick < 2 ^ 63 → (simulate_imu tick).pitch_millideg ≡ pos (triangle (tick % 500))
unfolding simulate_imu as_i64 rem_period
pitch-triangle tick h = rw (lt→ltb tick (2 ^ 63) h) (wave-triangle (tick % 500) (omega arith))

roll-triangle :
    (tick : ℕ)
    → tick + 125 < 2 ^ 63
    → (simulate_imu tick).roll_millideg ≡ pos (triangle ((tick + 125) % 500))
unfolding simulate_imu as_i64 rem_period
roll-triangle tick h =
    rw (small, lt→ltb (tick + 125) (2 ^ 63) h) (wave-triangle ((tick + 125) % 500) (omega arith))
  where
    small : (tick + 125) % 2 ^ 64 ≡ tick + 125
    small = omega (arith, h)

triangle-smooth :
    (t : ℕ)
    → (triangle (t % 500) ≤ 30000)
      × (triangle (suc t % 500) ≤ triangle (t % 500) + 120)
      × (triangle (t % 500) ≤ triangle (suc t % 500) + 120)
triangle-smooth t = ground arith

-- For the first 2^63 - 626 ticks, both angles are between 0 and 30 degrees and never negative;
-- the pitch moves by at most 0.12 degrees a tick, repeats every 500 ticks, and is the roll of 125
-- ticks before.
pub simulate_imu_lem :
    (tick : ℕ)
    → tick + 626 < 2 ^ 63
    → (p : ℕ) × (q : ℕ) × ((simulate_imu tick).pitch_millideg ≡ pos p)
      × ((simulate_imu (suc tick)).pitch_millideg ≡ pos q)
      × (p ≤ 30000)
      × (q ≤ p + 120)
      × (p ≤ q + 120)
      × ((simulate_imu (tick + 500)).pitch_millideg ≡ pos p)
      × ((simulate_imu tick).roll_millideg ≡ (simulate_imu (tick + 125)).pitch_millideg)
simulate_imu_lem tick h = (
  triangle (tick % 500),
  triangle (suc tick % 500),
  pitch-triangle tick (omega (arith, h)),
  pitch-triangle (suc tick) (omega (arith, h)),
  (triangle-smooth tick).0,
  (triangle-smooth tick).1,
  (triangle-smooth tick).2,
  pitch-triangle (tick + 500) (omega (arith, h)) ∙ ap (λ z. pos (triangle z)) again,
  roll-triangle tick (omega (arith, h)) ∙ sym (pitch-triangle (tick + 125) (omega (arith, h))),
)
  where
    again : (tick + 500) % 500 ≡ tick % 500
    again = omega arith
