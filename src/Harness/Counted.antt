-- ===== src/Harness/Counted.antt =====
-- host-tests/src/mock_host.rs: the two counters of the mock whose overflow panics where overflow is
-- checked, and a guest's calls on the mock with those panics.
use sand_os.Base.{
  ◌+◌, ◌^◌, List, [], ◌∷◌, Option, none, some, Bool, false, not, ◌&&◌, ◌||◌, ◌==◌, if◌then◌else◌,
}
use sand_os.Base.Int.{ℤ, pos, ltb_ℤ}
use sand_os.Abi.Status.{max_motor_speed}
use sand_os.Host.{abs_i32}
use sand_os.Mock.{MockHost}
use sand_os.Sandbox.{Vm, HostCall, toggling, driving}
use sand_os.Sandbox.Hosts.{mock_ops}
use sand_os.Harness as Harness
use sand_os.Harness.{◌>>=◌}

-- `self.toggle_count += 1`
unfoldable pub toggle_overflows : MockHost → Bool
toggle_overflows h = h.toggle_count + 1 == 2 ^ 32

-- `self.watchdog_feed_count += 1`, behind the guards of its method.
unfoldable pub feed_overflows : ℤ → ℤ → MockHost → Bool
feed_overflows left right h =
    not (ltb_ℤ (pos max_motor_speed) (abs_i32 left) || ltb_ℤ (pos max_motor_speed) (abs_i32 right))
    && h.motors_enabled
    && h.watchdog_feed_count + 1 == 2 ^ 32

abbrev pub overflows : HostCall → MockHost → Bool
overflows toggling h = toggle_overflows h
overflows (driving left right) h = feed_overflows left right h
overflows _ h = false

unfoldable pub mock_call : Bool → HostCall → Vm MockHost → Option (ℤ × Vm MockHost)
mock_call checked c vm =
    if checked && overflows c vm.host then none else Harness.call checked mock_ops c vm

unfoldable pub mock_calls : Bool → List HostCall → Vm MockHost → Option (List ℤ × Vm MockHost)
mock_calls checked [] vm = some ([], vm)
mock_calls checked (c ∷ cs) vm = mock_call checked c vm >>= λ (answer, vm').
    mock_calls checked cs vm' >>= λ (answers, end). some (answer ∷ answers, end)
