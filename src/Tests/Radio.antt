-- ===== src/Tests/Radio.antt =====
-- Runs of the model of firmware/src/core0/espnow.rs, and its theorems at concrete inputs.
use mathlib.Core.List.{Memᴰ}
use sand_os.Base.{
  ℕ, ◌+◌, ◌*◌, ◌/◌, ◌≡◌, ◌<◌, ◌⊎◌, refl, arith, List, [], ◌∷◌, some, length, slice, replicate,
}
use sand_os.Base.Int.{pos, negsuc}
use sand_os.Abi.Telemetry.{TelemetryPacket, odometry}
use sand_os.Ota.{new, handle_command, ready_binary}
use sand_os.Ota.Chunks.{Chunk}
use sand_os.Ota.Transfer.{Covers}
use sand_os.Radio.Update.{chunks, receive, transfer_frames, receive-transfer}
use sand_os.Radio.{Link, swap_signal, enqueue, handle_frame, dispatch, telemetry_frame}
use sand_os.Radio.Receive.{IsFrame, Routed, handle_frame_lem}
use sand_os.Radio.Send.{body, telemetry_frame-dropped}
use sand_os.Channel.{list_queue}
use sand_os.Radio.Task.{broadcast, received, timeout, RadioTask}
use sand_os.Radio.Task.Drains.{frame_of, Event, pushing, passing, run, run-broadcasts}

abbrev quiet : Link
quiet = record { last_rx_ms = 0; ota = new }

-- DRAW_EYE with one byte of payload, and one byte behind it.
abbrev draw : List ℕ
draw = 0x5a ∷ 0x4e ∷ 0x10 ∷ 1 ∷ 3 ∷ 9 ∷ []

draw_queued :
    handle_frame draw 70 quiet
    ≡ (record quiet { last_rx_ms = 70 }, enqueue (record { cmd_id = 0x10; payload = 3 ∷ [] }) ∷ [])
unfolding handle_frame dispatch handle_command slice
draw_queued = refl

handle_frame_lem_example :
    (IsFrame draw × Routed draw 70 quiet (handle_frame draw 70 quiet))
    ⊎ ((¬ IsFrame draw) × (handle_frame draw 70 quiet ≡ (quiet, [])))
handle_frame_lem_example = handle_frame_lem draw 70 quiet

abbrev odometry_packet : TelemetryPacket
odometry_packet = odometry (record {
  sequence = 7;
  timestamp_us = 500_000;
  loop_time_us = 2_001;
  left_speed = pos 127;
  right_speed = negsuc 126;
})

telemetry_frame-dropped_example :
    (frame : List ℕ) × (telemetry_frame odometry_packet ≡ some frame)
    × (length frame ≡ 4 + length (body odometry_packet))
    × (handle_frame frame 5 quiet ≡ (quiet, []))
telemetry_frame-dropped_example = telemetry_frame-dropped odometry_packet 5 quiet

-- Nine packets in the queue, and two passes: one ends with a frame, one with the beacon.
abbrev board : RadioTask (list_queue TelemetryPacket 32)
board = record { link = quiet; beacon_deadline = 1_000_000; queue = replicate 9 odometry_packet }

abbrev events : List Event
events = passing (received draw 70_000) ∷ pushing odometry_packet ∷ passing (timeout 1_000_100) ∷ []

run-broadcasts_example :
    Memᴰ
      (broadcast (frame_of odometry_packet))
      (run (list_queue TelemetryPacket 32) (λ ms. ms * 1000) (λ us. us / 1000) events board).1
run-broadcasts_example =
    run-broadcasts (list_queue TelemetryPacket 32) (λ ms. ms * 1000) (λ us. us / 1000) events board
      (replicate 8 odometry_packet) odometry_packet [] refl (omega arith)

abbrev binary : List ℕ
binary = 0 ∷ 0x61 ∷ 0x73 ∷ 0x6d ∷ []

-- Two chunks, the second part of the binary first.
abbrev timed_chunks : List (Chunk × ℕ)
timed_chunks =
    (record { offset = 2; bytes = 0x73 ∷ 0x6d ∷ [] }, 110)
    ∷ (record { offset = 0; bytes = 0 ∷ 0x61 ∷ 0x73 ∷ [] }, 120)
    ∷ []

chunks_cover : (i : ℕ) → i < 4 → Covers (chunks timed_chunks) i
chunks_cover i h = omega arith

receive-transfer_example :
    let (s', effects) = receive (transfer_frames binary 100 timed_chunks 130) quiet in
    (ready_binary s'.ota ≡ some binary) × (effects ≡ swap_signal 4 ∷ []) × (s'.last_rx_ms ≡ 130)
unfolding new slice
receive-transfer_example =
    receive-transfer binary timed_chunks 100 130 quiet (λ e. cc) (omega arith) (omega arith)
      (omega arith)
      (
        record { within = omega arith; something = omega arith; cut = refl },
        (record { within = omega arith; something = omega arith; cut = refl }, tt),
      )
      (omega arith) chunks_cover
