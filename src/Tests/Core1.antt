-- ===== src/Tests/Core1.antt =====
-- Runs of the model of firmware/src/core1/mod.rs, and its theorems at concrete inputs.
use sand_os.Base.{◌%◌, ◌≡◌, ◌≢◌, ◌⊎◌, refl, arith, [], ◌∷◌}
use sand_os.Base.Int.{pos, negsuc, ◌+ℤ◌, clamp_ℤ}
use sand_os.Abi.ImuReading.{ImuReading}
use sand_os.Abi.Telemetry.{TelemetryPacket, imu, odometry}
use sand_os.Abi.Telemetry.RoundTrip.{IsPacket}
use sand_os.Channel.{BoundedQueue, list_queue}
use sand_os.Core1.{blend, clamp_i16, Counters, imu_pkt, odom_pkt, report}
use sand_os.Core1.Outputs.{report_lem}

-- The greatest balance output and the greatest command add up beyond the PWM range.
blend_beyond : blend (pos 255) (pos 255) ≡ pos 510
unfolding blend clamp_i16 clamp_ℤ ◌+ℤ◌
blend_beyond = refl

abbrev packets : BoundedQueue TelemetryPacket 32
packets = list_queue TelemetryPacket 32

abbrev level : ImuReading
level = record { pitch_millideg = pos 0; roll_millideg = negsuc 9 }

abbrev counters : Counters
counters = record { tick_count = 10; imu_seq = 2; odom_seq = 2 }

report_lem_example :
    ((10 % 5 ≡ 0)
      × IsPacket (imu (imu_pkt 20_000 90 level counters))
      × IsPacket (odometry (odom_pkt 20_000 90 (pos 1, negsuc 0) counters))
      × ((report packets 20_000 90 level (pos 1, negsuc 0) counters []).1
          ≡ imu (imu_pkt 20_000 90 level counters)
            ∷ odometry (odom_pkt 20_000 90 (pos 1, negsuc 0) counters)
            ∷ [])
      × ((report packets 20_000 90 level (pos 1, negsuc 0) counters []).0.imu_seq ≡ 3)
      × ((report packets 20_000 90 level (pos 1, negsuc 0) counters []).0.odom_seq ≡ 3))
    ⊎ ((10 % 5 ≢ 0)
        × ((report packets 20_000 90 level (pos 1, negsuc 0) counters []).1 ≡ [])
        × ((report packets 20_000 90 level (pos 1, negsuc 0) counters []).0
            ≡ record counters { tick_count = 11 }))
report_lem_example =
    report_lem packets 20_000 90 level (pos 1) (negsuc 0) counters [] (omega arith) (omega arith)
      (omega arith) (record { pitch_in = omega arith; roll_in = omega arith }) (omega arith)
      (omega arith) (omega arith)
