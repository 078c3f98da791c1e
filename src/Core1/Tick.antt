-- ===== src/Core1/Tick.antt =====
-- firmware/src/core1/mod.rs, `realtime_task`: one pass of its loop, from the reading to the packets. The
-- words that Core 0 shares with it are inputs of the pass.
use sand_os.Base.{ℕ, ◌≤◌, Option, none, some, false, if◌then◌else◌}
use sand_os.Base.Int.{ℤ, pos, pos_part, neg_part}
use sand_os.Abi.ImuReading.{ImuReading}
use sand_os.Abi.Telemetry.{TelemetryPacket}
use sand_os.Channel.{BoundedQueue}
use sand_os.Motors.{Motors, set_motor_enabled, is_motor_enabled, load_motor_command}
use sand_os.Sensors.{store_imu}
use sand_os.Ulp.{is_voltage_critical}
use sand_os.Core1.{Counters, simulate_imu, blend, report}
use sand_os.Pid.{Float, PidController, new, update, reset}
use sand_os.Pid.Laws.{Within}

-- The casts between f32 and i32. `as i32` rounds towards zero, saturates, and gives 0 for a NaN, so
-- what lies within whole limits is cast to a number within them.
pub record Casts (R : Float) : Type 0 where
  pub of_i32 : ℤ → R.F32
  pub to_i32 : R.F32 → ℤ
  pub to_i32-within :
      (n : ℕ) (x : R.F32)
      → n ≤ 16777216
      → Within R (R.neg (of_i32 (pos n))) (of_i32 (pos n)) x
      → (pos_part (to_i32 x) ≤ n) × (neg_part (to_i32 x) ≤ n)

module _ (R : Float) (C : Casts R) where
  -- A literal, correctly rounded as the quotient of two whole numbers is.
  abbrev ratio : ℕ → ℕ → R.F32
  ratio a b = R.div (C.of_i32 (pos a)) (C.of_i32 (pos b))

  -- `DT_S`
  abbrev pub dt_s : R.F32
  dt_s = ratio 2 1000

  -- The controller with `PID_KP`, `PID_KI`, `PID_KD`, `PID_OUT_MIN` and `PID_OUT_MAX`.
  abbrev pub balance_pid : PidController R
  balance_pid =
      new R (C.of_i32 (pos 10)) (ratio 1 2) (ratio 1 10) (R.neg (C.of_i32 (pos 255)))
        (C.of_i32 (pos 255))

  -- The voltage check.
  unfoldable pub check_voltage : (ℕ → ℕ) → Motors → PidController R → Motors × PidController R
  check_voltage rtc motors pid =
      if is_voltage_critical rtc
      then (set_motor_enabled false motors, reset R pid)
      else (motors, pid)

  -- The outputs of the balance loop, with the command of Core 0 blended in; none is a panic.
  unfoldable pub balance :
      ImuReading → Motors × PidController R → Option ((ℤ × ℤ) × PidController R)
  balance reading (motors, pid) =
      let (cmd_left, cmd_right) = load_motor_command motors in
      let pitch_deg = R.div (C.of_i32 reading.pitch_millideg) (C.of_i32 (pos 1000)) in
      if is_motor_enabled motors
      then elim (update R R.zero_f pitch_deg dt_s pid) [
        | none ↦ none
        | some (output, pid') ↦
            some ((blend (C.to_i32 output) cmd_left, blend (C.to_i32 output) cmd_right), pid')
      ]
      else some ((pos 0, pos 0), pid)

  module _ (Q : BoundedQueue TelemetryPacket 32) where
    -- The words that the cores and the ULP share, and the clock, at the time of a pass.
    pub record Shared : Type 0 where
      pub rtc : ℕ → ℕ
      pub motors : Motors
      pub imu_data : ℕ
      pub telemetry : Q.Queue
      pub now_us : ℕ
      pub loop_us : ℕ

    -- What the task keeps.
    pub record Realtime : Type 0 where
      pub counters : Counters
      pub pid : PidController R

    -- What a pass leaves: the outputs to the motors, the shared words and the task.
    pub record Passed : Type 0 where
      pub left : ℤ
      pub right : ℤ
      pub shared : Shared
      pub task : Realtime

    unfoldable pub tick : Shared → Realtime → Option Passed
    tick s t =
        let reading = simulate_imu t.counters.tick_count in
        let checked = check_voltage s.rtc s.motors t.pid in
        elim (balance reading checked) [
          | none ↦ none
          | some ((left, right), pid) ↦
              let reported =
                report Q s.now_us s.loop_us reading (left, right) t.counters s.telemetry in
              some (record {
                left = left;
                right = right;
                shared = record s {
                  motors = checked.0;
                  imu_data = store_imu reading s.imu_data;
                  telemetry = reported.1;
                };
                task = record { counters = reported.0; pid = pid };
              })
        ]
