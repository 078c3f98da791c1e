-- ===== src/Core1/Balanced.antt =====
-- firmware/src/core1/mod.rs, `realtime_task`: no pass of the loop panics, its outputs are bounded, and a
-- critical voltage cuts the motors in the same pass.
use sand_os.Base.{
  ◌≤◌, ◌≡◌, refl, ap, sym, ◌∙◌, inl, inr, arith, Option, none, some, true, false, Bool-cases,
  Option-cases,
}
use mathlib.Core.Path.{subst}
use sand_os.Base.Int.{ℤ, pos, pos_part, neg_part}
use sand_os.Abi.ImuReading.{ImuReading}
use sand_os.Abi.Telemetry.{TelemetryPacket}
use sand_os.Channel.{BoundedQueue}
use sand_os.Motors.{Motors, set_motor_enabled, is_motor_enabled, load_motor_command}
use sand_os.Ulp.{is_voltage_critical}
use sand_os.Core1.{blend, simulate_imu}
use sand_os.Core1.Outputs.{IsDuty, blend_exact}
use sand_os.Core1.Tick.{
  Casts, balance_pid, dt_s, Shared, Realtime, Passed, check_voltage, balance, tick,
}
use sand_os.Pid.{Float, PidController, update, reset}
use sand_os.Pid.Laws.{IsOrdered, Within, update-Stepped}

-- An output within 510 of zero.
abbrev pub IsOutput : ℤ → Type 0
IsOutput v = (pos_part v ≤ 510) × (neg_part v ≤ 510)

module _ (R : Float) (C : Casts R) where
  -- A controller with the gains and the limits of the task.
  abbrev pub IsBalance : PidController R → Type 0
  IsBalance p = reset R p ≡ balance_pid R C

  -- The clamps of these gains have ordered bounds, in the arithmetic of f32.
  abbrev pub IsTuned : Type 0
  IsTuned = IsOrdered R (balance_pid R C)

  ordered : (p : PidController R) → IsTuned → IsBalance p → IsOrdered R p
  unfolding reset
  ordered p tuned b = subst (IsOrdered R) (sym b) tuned

  -- What the balance loop gives.
  abbrev Balanced : Option ((ℤ × ℤ) × PidController R) → Type 0
  Balanced none = ⊥
  Balanced (some ((left, right), p)) = IsOutput left × IsOutput right × IsBalance p

  balance-Balanced :
      (reading : ImuReading) (m : Motors) (p : PidController R)
      → IsTuned
      → IsBalance p
      → IsDuty (load_motor_command m).0
      → IsDuty (load_motor_command m).1
      → Balanced (balance R C reading (m, p))
  unfolding balance reset sand_os.Pid.new
  balance-Balanced reading m p tuned b hl hr = elim (Bool-cases (is_motor_enabled m)) [
    | inr off ↦ rw (off, balance) ((omega arith, omega arith), (omega arith, omega arith), b)
    | inl on ↦
        let (step, (e, stepped)) =
          update-Stepped R R.zero_f (pitch_deg reading) (dt_s R C) p (ordered p tuned b) in
        rw (on, e, balance)
          (
            blended step.0 (load_motor_command m).0 stepped.0 hl,
            blended step.0 (load_motor_command m).1 stepped.0 hr,
            stepped.3 ∙ b,
          )
  ]
    where
      pitch_deg : ImuReading → R.F32
      pitch_deg r = R.div (C.of_i32 r.pitch_millideg) (C.of_i32 (pos 1000))

      blended :
          (output : R.F32) (cmd : ℤ)
          → Within R p.output_min p.output_max output
          → IsDuty cmd
          → IsOutput (blend (C.to_i32 output) cmd)
      blended output cmd within h =
          let limits : Within R (R.neg (C.of_i32 (pos 255))) (C.of_i32 (pos 255)) output =
            subst (λ q. Within R q.output_min q.output_max output) b within in
          let sum =
            blend_exact (C.to_i32 output) cmd (C.to_i32-within 255 output (omega arith) limits) h in
          (sum.1, sum.2)

  module _ (Q : BoundedQueue TelemetryPacket 32) where
    -- What every pass does: the outputs are bounded, the controller keeps its gains and limits, and
    -- under a critical voltage the outputs are zero, the motors are disabled and the controller is new.
    abbrev pub Safe : Shared R C Q → Option (Passed R C Q) → Type 0
    Safe s none = ⊥
    Safe s (some p) =
        IsOutput p.left
        × IsOutput p.right
        × IsBalance p.task.pid
        × (is_voltage_critical s.rtc ≡ true
            → (p.left ≡ pos 0)
              × (p.right ≡ pos 0)
              × (is_motor_enabled p.shared.motors ≡ false)
              × (p.task.pid ≡ balance_pid R C))

    tick_critical :
        (s : Shared R C Q) (t : Realtime R C Q)
        → IsBalance t.pid
        → is_voltage_critical s.rtc ≡ true
        → Safe s (tick R C Q s t)
    unfolding tick check_voltage balance reset set_motor_enabled is_motor_enabled
    tick_critical s t b critical =
        rw (critical, check_voltage, balance, tick)
          (
            (omega arith, omega arith),
            (omega arith, omega arith),
            b,
            λ c. (refl, refl, ap (λ x. is_motor_enabled x.0) cut, b),
          )
      where
        cut :
            check_voltage R C s.rtc s.motors t.pid
            ≡ (set_motor_enabled false s.motors, reset R t.pid)
        cut = rw (critical, check_voltage) refl

    tick_fine :
        (s : Shared R C Q) (t : Realtime R C Q)
        → Balanced (balance R C (simulate_imu t.counters.tick_count) (s.motors, t.pid))
        → is_voltage_critical s.rtc ≡ false
        → Safe s (tick R C Q s t)
    unfolding tick check_voltage
    tick_fine s t loop fine =
        elim (Option-cases (balance R C (simulate_imu t.counters.tick_count) (s.motors, t.pid))) [
          | inl e ↦ absurd (rw e at loop)
          | inr (x, e) ↦
              let kept : Balanced (some x) = rw e at loop in
              rw (fine, check_voltage, e, tick) (kept.0, kept.1, kept.2, λ c. (cc, cc, cc, cc))
        ]

    -- With the task's gains, and commands of Core 0 within ±255, a pass never panics. Its outputs are
    -- within ±510 and the controller keeps its gains and limits; when the ULP reports a critical
    -- voltage, both outputs are zero, the motors are disabled and the controller is as it was at boot.
    pub tick-Safe :
        (s : Shared R C Q) (t : Realtime R C Q)
        → IsTuned
        → IsBalance t.pid
        → IsDuty (load_motor_command s.motors).0
        → IsDuty (load_motor_command s.motors).1
        → Safe s (tick R C Q s t)
    tick-Safe s t tuned b hl hr = elim (Bool-cases (is_voltage_critical s.rtc)) [
      | inl critical ↦ tick_critical s t b critical
      | inr fine ↦
          tick_fine s t
            (balance-Balanced (simulate_imu t.counters.tick_count) s.motors t.pid tuned b hl hr)
            fine
    ]
