-- ===== src/Motors.antt =====
-- firmware/src/motors.rs: the motor command word and the enable flag that the two cores share.
pub mod Laws
pub mod Race
use sand_os.Base.{
  ℕ, ◌*◌, ◌/◌, ◌%◌, ◌^◌, Bool, true, false, not, ◌==◌, if◌then◌else◌, bit_and, bit_or,
}
use sand_os.Base.Int.{ℤ, as_u16, as_i16}

-- `MOTOR_COMMAND` and `MOTOR_ENABLED`.
pub record Motors : Type 0 where
  pub command : ℕ
  pub enabled : ℕ

-- Their values at boot.
abbrev pub initial : Motors
initial = record { command = 0; enabled = 1 }

-- The word that `store_motor_command` stores.
unfoldable pub pack : ℤ → ℤ → ℕ
pack left right = bit_or (as_u16 left * 2 ^ 16) (as_u16 right)

unfoldable pub store_motor_command : ℤ → ℤ → Motors → Bool × Motors
unfolding pack
store_motor_command left right m =
    if m.enabled == 0 then (false, m) else (true, record m { command = pack left right })

unfoldable pub load_motor_command : Motors → ℤ × ℤ
load_motor_command m =
    (as_i16 (m.command / 2 ^ 16 % 2 ^ 16), as_i16 (bit_and m.command 0xffff % 2 ^ 16))

unfoldable pub set_motor_enabled : Bool → Motors → Motors
set_motor_enabled true m = record m { enabled = 1 }
set_motor_enabled false m = record m { enabled = 0; command = 0 }

unfoldable pub is_motor_enabled : Motors → Bool
is_motor_enabled m = not (m.enabled == 0)
