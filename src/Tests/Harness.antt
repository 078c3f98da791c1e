-- ===== src/Tests/Harness.antt =====
-- Runs of the model of host-tests/src/vm_harness.rs, and its theorems at concrete inputs.
use sand_os.Base.{◌≡◌, refl, ◌^◌, ◌-◌, [], ◌∷◌, none, true}
use sand_os.Base.Int.{pos, negsuc}
use sand_os.Mock.{default_host}
use sand_os.Harness.{call, range, read_memory}
use sand_os.Harness.Counted.{mock_calls}
use sand_os.Sandbox as Sandbox
use sand_os.Sandbox.{logging, driving, toggling}
use sand_os.Sandbox.Hosts.{mock_ops}
use sand_os.Tests.Sandbox.{memory}

-- The least i32 as a speed panics where overflow is checked.
least_speed_panics :
    call true mock_ops
      (driving (negsuc 2_147_483_647) (pos 0))
      (record { memory = none; host = default_host })
    ≡ none
unfolding call sand_os.Harness.set_motor_speed sand_os.Harness.abs_i32
least_speed_panics = refl

-- A counter at its greatest value panics where overflow is checked.
full_counter_panics :
    mock_calls true
      (toggling ∷ [])
      (record { memory = none; host = record default_host { toggle_count = 2 ^ 32 - 1 } })
    ≡ none
unfolding mock_calls sand_os.Harness.Counted.mock_call sand_os.Harness.Counted.toggle_overflows
full_counter_panics = refl
