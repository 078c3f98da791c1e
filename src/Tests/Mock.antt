-- ===== src/Tests/Mock.antt =====
-- Runs of the model of host-tests/src/mock_host.rs, and its theorems at concrete inputs.
use sand_os.Base.{ℕ, ◌+◌, ◌≤◌, ◌<◌, ◌≡◌, ◌⊎◌, refl, arith, List, [], ◌∷◌, some, none, true, false}
use sand_os.Abi.Status.{ok, err_busy}
use sand_os.Ota.{take_verified_binary}
use sand_os.Ota as Ota
use sand_os.Mock.{MockHost, default_host, set_motor_speed, check_dead_mans_switch}
use sand_os.Mock.Ota.{hot_swap_wasm}
use sand_os.Mock.Agrees.{Matches}
use sand_os.Mock.Swap.{
  Command, beginning, chunking, AllTaken, receive_all, mock_receive_all, mock_receive,
  transfer-swapped,
}

-- Two bytes, of which one arrives, and no checksum yet.
abbrev commands : List Command
commands = beginning (2 ∷ 0 ∷ 0 ∷ 0 ∷ []) ∷ chunking (1 ∷ 0 ∷ 0 ∷ 0 ∷ 9 ∷ []) ∷ []

new-Matches : Matches Ota.new default_host
unfolding Ota.new
new-Matches = refl

commands-AllTaken : AllTaken commands default_host
unfolding AllTaken mock_receive sand_os.Mock.Ota.ota_begin sand_os.Mock.Ota.ota_receive_chunk
    sand_os.Abi.Telemetry.read_u32 sand_os.Base.slice sand_os.Base.Bytes.from_le_bytes
commands-AllTaken = (omega arith, refl, (omega arith, refl, tt))

transfer-swapped_example :
    (((take_verified_binary (receive_all commands Ota.new)).0
        ≡ some (hot_swap_wasm (mock_receive_all commands default_host)).1.active_wasm_binary)
      × ((hot_swap_wasm (mock_receive_all commands default_host)).0 ≡ ok)
      × Matches
          (take_verified_binary (receive_all commands Ota.new)).1
          (hot_swap_wasm (mock_receive_all commands default_host)).1)
    ⊎ ((take_verified_binary (receive_all commands Ota.new) ≡ (none, receive_all commands Ota.new))
        × (hot_swap_wasm (mock_receive_all commands default_host)
            ≡ (err_busy, mock_receive_all commands default_host)))
transfer-swapped_example =
    transfer-swapped commands Ota.new default_host new-Matches commands-AllTaken
