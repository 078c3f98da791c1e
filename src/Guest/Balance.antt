-- ===== src/Guest/Balance.antt =====
-- wasm-apps/src/lib.rs, `balance_handler`: the speeds that the guest asks for.
use sand_os.Base.{
  ℕ, ◌/◌, min, false, ◌≡◌, ◌⊎◌, refl, ap, ◌∙◌, inl, inr, arith, List, true, false, not, ◌||◌,
  Bool-cases,
}
use sand_os.Base.Int.{ℤ, pos, clamp_ℤ, ltb_ℤ, pos_part, neg_part}
use sand_os.Abi.Status.{ok, err_busy}
use sand_os.Abi.ImuReading.{IsReading}
use sand_os.Bus.{single_board}
use sand_os.Mock.{MockHost}
use sand_os.Mock as Mock
use sand_os.Host.{abs_i32}
use sand_os.Router.Drive.{IsSpeed, not_too_fast}
use sand_os.Sandbox.{HostOps}
use sand_os.Sandbox as Call
use sand_os.Sandbox.Hosts.{mock_ops}
use sand_os.Sandbox.View.{if_true, if_false}
use sand_os.Guest.{Layout, duty_of, balance_handler}
use sand_os.Guest.Sense.{IsPlaced, sense_lem, load-sensed}
use sand_os.Guest.Emits.{guest}

-- The duty cycle is always within the limits of the motors.
pub duty_of-IsSpeed : (pitch : ℤ) → IsSpeed (duty_of pitch)
unfolding duty_of clamp_ℤ
duty_of-IsSpeed pitch = ground arith

-- The pitch in whole degrees, rounded towards zero, up to 255 either way.
abbrev pub IsDegrees : ℤ → ℤ → Type 0
IsDegrees pitch duty =
    (pos_part duty ≡ min (pos_part pitch / 1000) 255)
    × (neg_part duty ≡ min (neg_part pitch / 1000) 255)

duty_of-IsDegrees : (pitch : ℤ) → IsDegrees pitch (duty_of pitch)
unfolding duty_of clamp_ℤ
duty_of-IsDegrees pitch = ground arith

module _ {H : Type 0} (O : HostOps H) (L : Layout) where
  -- The host gets the duty cycle of its own pitch for both motors, and its answer is the guest's.
  pub balance_handler_lem :
      (t i o : ℕ) (mem : List ℕ) (h : H)
      → IsPlaced L mem
      → IsReading (O.get_pitch_roll h)
      → let duty = duty_of (O.get_pitch_roll h).pitch_millideg in
        ((balance_handler O L (guest O L t i o mem h)).0 ≡ (O.set_motor_speed duty duty h).0)
        × ((balance_handler O L (guest O L t i o mem h)).1.vm.host
            ≡ (O.set_motor_speed duty duty h).1)
  unfolding balance_handler Call.set_motor_speed
  balance_handler_lem t i o mem h placed v =
      rw
        (
          sense_lem O L mem h placed,
          (load-sensed O L mem (O.get_pitch_roll h) h placed v).0,
          not_too_fast (duty_of (O.get_pitch_roll h).pitch_millideg) (duty_of-IsSpeed _),
        )
        (refl, refl)

module _ (L : Layout) where
  -- On the mock in the single-board mode, with the guest's locals in its memory and a reading of i32
  -- values: the balance command asks for the pitch in whole degrees, rounded towards zero, up to 255
  -- either way. With the motors enabled it succeeds, and both motors get this speed; with the motors
  -- disabled it answers that they are busy and the mock is as it was.
  pub balance-driven :
      (t i o : ℕ) (mem : List ℕ) (k : MockHost)
      → IsPlaced L mem
      → IsReading k.imu_reading
      → k.routing_mode ≡ single_board
      → let duty = duty_of k.imu_reading.pitch_millideg in
        let answer = balance_handler mock_ops L (guest mock_ops L t i o mem k) in
        IsDegrees k.imu_reading.pitch_millideg duty
        × IsSpeed duty
        × (((k.motors_enabled ≡ true)
              × (answer.0 ≡ ok)
              × (answer.1.vm.host.motor_left_speed ≡ duty)
              × (answer.1.vm.host.motor_right_speed ≡ duty))
            ⊎ ((k.motors_enabled ≡ false) × (answer.0 ≡ err_busy) × (answer.1.vm.host ≡ k)))
  unfolding Mock.get_pitch_roll Mock.set_motor_speed
  balance-driven t i o mem k placed v mode = (
    duty_of-IsDegrees k.imu_reading.pitch_millideg,
    duty_of-IsSpeed k.imu_reading.pitch_millideg,
    elim (Bool-cases k.motors_enabled) [
      | inl on ↦
          let (code, left, right) = driven on in
          inl (
            on,
            passed.0 ∙ code,
            ap (λ h. h.motor_left_speed) passed.1 ∙ left,
            ap (λ h. h.motor_right_speed) passed.1 ∙ right,
          )
      | inr off ↦
          inr (off, passed.0 ∙ ap (λ x. x.0) (refused off), passed.1 ∙ ap (λ x. x.1) (refused off))
    ],
  )
    where
      duty : ℤ
      duty = duty_of k.imu_reading.pitch_millideg

      passed :
          ((balance_handler mock_ops L (guest mock_ops L t i o mem k)).0
            ≡ (Mock.set_motor_speed duty duty k).0)
          × ((balance_handler mock_ops L (guest mock_ops L t i o mem k)).1.vm.host
              ≡ (Mock.set_motor_speed duty duty k).1)
      passed = balance_handler_lem mock_ops L t i o mem k placed v

      slow : (ltb_ℤ (pos 255) (abs_i32 duty) || ltb_ℤ (pos 255) (abs_i32 duty)) ≡ false
      slow = rw (not_too_fast duty (duty_of-IsSpeed _)) refl

      driven :
          k.motors_enabled ≡ true
          → ((Mock.set_motor_speed duty duty k).0 ≡ ok)
            × ((Mock.set_motor_speed duty duty k).1.motor_left_speed ≡ duty)
            × ((Mock.set_motor_speed duty duty k).1.motor_right_speed ≡ duty)
      driven on = rw (slow, on, mode) (refl, refl, refl)

      refused : k.motors_enabled ≡ false → Mock.set_motor_speed duty duty k ≡ (err_busy, k)
      refused off = if_false _ slow ∙ if_true _ (ap not off)
