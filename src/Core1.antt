-- ===== src/Core1.antt =====
-- firmware/src/core1/mod.rs: the helpers of the real-time task. `Tick` and `Step` of Motors/Race model
-- the part of its loop that touches the motors.
pub mod Wave
pub mod Outputs
pub mod Tick
pub mod Balanced
use sand_os.Base.{
  ℕ, zero, suc, ◌+◌, ◌-◌, ◌*◌, ◌/◌, ◌%◌, ◌^◌, Bool, true, false, ltb, ◌==◌, if◌then◌else◌,
}
use sand_os.Base.Int.{ℤ, pos, negsuc, clamp_ℤ, ◌+ℤ◌, ltb_ℤ, sub_ℕ, as_u32, as_i32}
use sand_os.Abi.Status.{telemetry_decimation}
use sand_os.Abi.ImuReading.{ImuReading}
use sand_os.Abi.Telemetry.{ImuTelemetry, OdometryTelemetry, TelemetryPacket, imu, odometry}
use sand_os.Channel.{BoundedQueue}
use sand_os.Telemetry.{push_telemetry}

-- `clamp_i16`
unfoldable pub clamp_i16 : ℤ → ℤ
clamp_i16 v = clamp_ℤ v (negsuc 32767) (pos 32767)

-- `PERIOD`, `AMP` and `half`.
abbrev pub period : ℕ
period = 500

abbrev pub amplitude : ℕ
amplitude = 30000

abbrev pub half : ℕ
half = 250

-- `tick as i64` of a u64.
unfoldable pub as_i64 : ℕ → ℤ
as_i64 w = if ltb w (2 ^ 63) then pos w else negsuc (2 ^ 64 - w - 1)

-- `z % PERIOD` and `z * AMP / half` of an i64: the remainder has the sign of `z`, the quotient is
-- rounded towards zero.
unfoldable pub rem_period : ℤ → ℤ
rem_period (pos n) = pos (n % period)
rem_period (negsuc n) = sub_ℕ 0 (suc n % period)

unfoldable pub scale : ℤ → ℤ
scale (pos n) = pos (n * amplitude / half)
scale (negsuc n) = sub_ℕ 0 (suc n * amplitude / half)

-- The angle at a phase: `if phase < half { … } else { … }`, cast to i32.
unfoldable pub wave : ℤ → ℤ
unfolding scale
wave phase =
    if ltb_ℤ phase (pos half)
    then as_i32 (as_u32 (scale phase))
    else as_i32 (as_u32 (scale (from_period phase)))
  where
    from_period : ℤ → ℤ
    from_period (pos n) = sub_ℕ period n
    from_period (negsuc n) = pos (period + suc n)

-- The addition of the quarter period wraps as in the release profile.
unfoldable pub simulate_imu : ℕ → ImuReading
unfolding as_i64 rem_period wave
simulate_imu tick = record {
  pitch_millideg = wave (rem_period (as_i64 tick));
  roll_millideg = wave (rem_period (as_i64 ((tick + period / 4) % 2 ^ 64)));
}

-- One output: `clamp_i16((balance_output as i32).saturating_add(cmd as i32))`, given the first cast.
unfoldable pub blend : ℤ → ℤ → ℤ
unfolding clamp_i16
blend balance cmd = clamp_i16 (clamp_ℤ (balance +ℤ cmd) (negsuc 2147483647) (pos 2147483647))

-- The counters that the task keeps across ticks.
pub record Counters : Type 0 where
  pub tick_count : ℕ
  pub imu_seq : ℕ
  pub odom_seq : ℕ

-- The packets of a tick; the times are what the clock of the executor gives.
abbrev pub imu_pkt : ℕ → ℕ → ImuReading → Counters → ImuTelemetry
imu_pkt now_us loop_us reading c = record {
  sequence = c.imu_seq;
  timestamp_us = now_us;
  loop_time_us = loop_us % 2 ^ 32;
  pitch_millideg = reading.pitch_millideg;
  roll_millideg = reading.roll_millideg;
  yaw_rate_millideg_s = pos 0;
  linear_accel_x_mm_s2 = pos 0;
  linear_accel_y_mm_s2 = pos 0;
}

abbrev pub odom_pkt : ℕ → ℕ → ℤ × ℤ → Counters → OdometryTelemetry
odom_pkt now_us loop_us (left, right) c = record {
  sequence = c.odom_seq;
  timestamp_us = now_us;
  loop_time_us = loop_us % 2 ^ 32;
  left_speed = left;
  right_speed = right;
}

module _ (Q : BoundedQueue TelemetryPacket 32) where
  -- The end of a tick: both packets every `TELEMETRY_DECIMATION` ticks, then the next count.
  unfoldable pub report : ℕ → ℕ → ImuReading → ℤ × ℤ → Counters → Q.Queue → Counters × Q.Queue
  report now_us loop_us reading outputs c q =
      let (sent, q1) = push_telemetry Q (imu (imu_pkt now_us loop_us reading c)) q in
      let (sent', q2) = push_telemetry Q (odometry (odom_pkt now_us loop_us outputs c)) q1 in
      if c.tick_count % telemetry_decimation == 0
      then (
        record {
          tick_count = (c.tick_count + 1) % 2 ^ 64;
          imu_seq = (c.imu_seq + 1) % 2 ^ 32;
          odom_seq = (c.odom_seq + 1) % 2 ^ 32;
        },
        q2,
      )
      else (record c { tick_count = (c.tick_count + 1) % 2 ^ 64 }, q)
