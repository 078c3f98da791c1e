-- ===== src/Tests/Motors.antt =====
-- Runs of the model of firmware/src/motors.rs, and its theorems at concrete inputs.
use sand_os.Base.{◌≡◌, refl, arith, true}
use sand_os.Base.Int.{pos, negsuc, as_i16, as_u16}
use sand_os.Motors.{initial, store_motor_command, load_motor_command}
use sand_os.Motors.Race.{
  System, Reach, booted, then, disable, zero_command, outside, checking, stopped, IsCut,
  Reach-IsCut, stale_command,
}

turn_right :
    load_motor_command (store_motor_command (pos 50) (negsuc 49) initial).1 ≡ (pos 50, negsuc 49)
unfolding load_motor_command store_motor_command as_i16 as_u16
turn_right = refl

-- The state when a tick at boot has disabled the motors and zeroed the command.
abbrev cut_state : System
cut_state = record {
  motors = record { command = 0; enabled = 0 };
  writer = outside;
  tick = checking;
  cut = true;
}

cut_reached : Reach cut_state
cut_reached = then (then booted (disable refl)) (zero_command refl)

Reach-IsCut_example : IsCut cut_state
Reach-IsCut_example = Reach-IsCut cut_reached refl

stale_command_example :
    (s : System) × Reach s
    × (s.cut ≡ true)
    × (s.writer ≡ outside)
    × (s.tick ≡ stopped)
    × (s.motors.enabled ≡ 0)
    × (load_motor_command s.motors ≡ (pos 255, pos 255))
stale_command_example = stale_command (pos 255) (pos 255) (omega arith) (omega arith)
