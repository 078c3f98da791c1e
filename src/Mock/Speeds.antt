-- ===== src/Mock/Speeds.antt =====
-- host-tests/src/mock_host.rs, the dead-man's switch: how long a speed of the guest stands.
use sand_os.Base.{
  ℕ, ◌-◌, ◌+◌, ◌≤◌, ◌<◌, ◌≡◌, ◌⊎◌, refl, inl, inr, arith, true, false, ltb, Bool-cases,
}
use sand_os.Base.Int.{ℤ, pos}
use sand_os.Bus.{single_board}
use sand_os.Router.Drive.{IsSpeed, not_too_fast}
use sand_os.Mock.{MockHost, set_motor_speed, check_dead_mans_switch}

-- Speeds within the limits that a guest sets at time `t` on enabled motors in the single-board mode
-- drive the mock's motors, and a later check of the dead-man's switch leaves them, and the switch off,
-- up to 50 ms after `t`; from then on it stops both motors and the switch is on.
check_dead_mans_switch-driven :
    (left right : ℤ) (now_ms : ℕ) (k : MockHost)
    → IsSpeed left
    → IsSpeed right
    → k.motors_enabled ≡ true
    → k.routing_mode ≡ single_board
    → let later = check_dead_mans_switch now_ms (set_motor_speed left right k).1 in
      ((now_ms ≤ k.simulated_uptime_ms + 50)
        × (later.motor_left_speed ≡ left)
        × (later.motor_right_speed ≡ right)
        × (later.dead_mans_active ≡ false))
      ⊎ ((k.simulated_uptime_ms + 50 < now_ms)
          × (later.motor_left_speed ≡ pos 0)
          × (later.motor_right_speed ≡ pos 0)
          × (later.dead_mans_active ≡ true))
unfolding set_motor_speed check_dead_mans_switch
check_dead_mans_switch-driven left right now_ms k hl hr on mode =
    elim (Bool-cases (ltb 50 (now_ms - k.simulated_uptime_ms))) [
      | inl late ↦ inr (
        ground arith,
        rw (not_too_fast left hl, not_too_fast right hr, on, mode, late) refl,
        rw (not_too_fast left hl, not_too_fast right hr, on, mode, late) refl,
        rw (not_too_fast left hl, not_too_fast right hr, on, mode, late) refl,
      )
      | inr soon ↦ inl (
        ground arith,
        rw (not_too_fast left hl, not_too_fast right hr, on, mode, soon) refl,
        rw (not_too_fast left hl, not_too_fast right hr, on, mode, soon) refl,
        rw (not_too_fast left hl, not_too_fast right hr, on, mode, soon) refl,
      )
    ]
