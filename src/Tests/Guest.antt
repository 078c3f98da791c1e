-- ===== src/Tests/Guest.antt =====
-- Runs of the model of wasm-apps/src/lib.rs, and its theorems at concrete inputs.
use sand_os.Base.{
  ℕ, ◌*◌, ◌%◌, ◌^◌, ◌≤◌, ◌<◌, ◌≡◌, ◌⊎◌, inl, refl, arith, List, [], ◌∷◌, ◌++◌, true, false, length,
  replicate,
}
use sand_os.Base.Int.{ℤ, pos, negsuc}
use sand_os.Abi.Status.{ok, err_busy}
use sand_os.Abi.ImuReading.{IsReading}
use sand_os.Abi.Telemetry.{imu}
use sand_os.Mock.{MockHost, default_host}
use sand_os.Router.Drive.{IsSpeed}
use sand_os.Sandbox.Hosts.{mock_ops}
use sand_os.Guest.{
  Layout, App, duty_of, emit_imu_telemetry_handler, balance_handler, query_local_inference_handler,
  class_speeds,
}
use sand_os.Guest.Payload.{imu_packet}
use sand_os.Guest.Payload.{payloads_lem, odom_packet}
use sand_os.Guest.Buffers.{imu_payload, odom_payload}
use sand_os.Abi.Telemetry.{imu_to_cdr, odometry_to_cdr}
use sand_os.Guest.Sense.{IsPlaced}
use sand_os.Guest.Emits.{guest}
use sand_os.Guest.Queued.{emit_imu-queued}
use sand_os.Guest.Balance.{IsDegrees, balance-driven}
use sand_os.Guest.Follow.{query_local_inference-learned}
use sand_os.Inference.{run}
use sand_os.Mock.Learn.{run_fallback_inference}

abbrev pub bytes : ℕ → List ℕ
bytes n = replicate n 7

payloads_lem_example :
    (imu_payload 3 5000 (negsuc 41) (pos 9)
      ≡ (imu_to_cdr (imu_packet 3 5000 (negsuc 41) (pos 9)) (bytes 36)).1)
    × (odom_payload 3 5000 ≡ (odometry_to_cdr (odom_packet 3 5000) (bytes 20)).1)
payloads_lem_example = payloads_lem 3 5000 (negsuc 41) (pos 9) (bytes 36) (bytes 20) refl refl

-- The texts at the start, the two integers and the buffer behind them.
abbrev pub layout : Layout
layout = record {
  hello_at = pos 0;
  blank_at = pos 13;
  pitch_at = pos 16;
  roll_at = pos 20;
  buf_at = pos 24;
}

pub layout-IsPlaced : IsPlaced layout (bytes 64)
unfolding sand_os.Base.Int.as_u32
layout-IsPlaced = record {
  small = omega arith;
  pitch_in = omega arith;
  roll_in = omega arith;
  buf_in = omega arith;
  apart = inl (omega arith);
}

-- A host that leans back by 42 degrees.
abbrev host : MockHost
host = record default_host {
  imu_reading = record { pitch_millideg = negsuc 41999; roll_millideg = pos 9 };
  simulated_uptime_ms = 5;
}

host-IsReading : IsReading host.imu_reading
host-IsReading = record {
  pitch_in = (omega arith, omega arith);
  roll_in = (omega arith, omega arith);
}

abbrev app : App MockHost
app = guest mock_ops layout 0 3 0 (bytes 64) host

emit_imu-queued_example :
    ((emit_imu_telemetry_handler mock_ops layout app).0 ≡ ok)
    × (((length host.telemetry_queue < 28)
          × ((emit_imu_telemetry_handler mock_ops layout app).1.vm.host.telemetry_queue
              ≡ host.telemetry_queue
                ++ (imu (
                      imu_packet 3
                        (host.simulated_uptime_ms * 1000 % 2 ^ 64)
                        (negsuc 41999)
                        (pos 9))
                    ∷ [])))
        ⊎ ((28 ≤ length host.telemetry_queue)
            × ((emit_imu_telemetry_handler mock_ops layout app).1.vm.host ≡ host)))
emit_imu-queued_example =
    emit_imu-queued layout 0 3 0 (bytes 64) host layout-IsPlaced host-IsReading (omega arith)
      (omega arith)

balance-driven_example :
    IsDegrees (negsuc 41999) (duty_of (negsuc 41999))
    × IsSpeed (duty_of (negsuc 41999))
    × (((host.motors_enabled ≡ true)
          × ((balance_handler mock_ops layout app).0 ≡ ok)
          × ((balance_handler mock_ops layout app).1.vm.host.motor_left_speed
              ≡ duty_of (negsuc 41999))
          × ((balance_handler mock_ops layout app).1.vm.host.motor_right_speed
              ≡ duty_of (negsuc 41999)))
        ⊎ ((host.motors_enabled ≡ false)
            × ((balance_handler mock_ops layout app).0 ≡ err_busy)
            × ((balance_handler mock_ops layout app).1.vm.host ≡ host)))
balance-driven_example =
    balance-driven layout 0 3 0 (bytes 64) host layout-IsPlaced host-IsReading refl

duty_back : duty_of (negsuc 41999) ≡ negsuc 41
unfolding duty_of sand_os.Base.Int.clamp_ℤ
duty_back = refl

-- A host that has heard one loud sample, of the class that drives ahead.
abbrev listener : MockHost
listener = record host { audio_inference_queue = (negsuc 126 ∷ []) ∷ [] }

abbrev learned : MockHost
learned = (run_fallback_inference listener).1

abbrev follower : App MockHost
follower = guest mock_ops layout 0 3 0 (bytes 64) learned

query_local_inference-learned_example :
    ((query_local_inference_handler mock_ops layout follower).0 ≡ ok)
    × (((60 ≤ (run (negsuc 126 ∷ [])).confidence_pct)
          × ((query_local_inference_handler mock_ops layout follower).1.vm.host.motor_left_speed
              ≡ (class_speeds (pos (run (negsuc 126 ∷ [])).top_class)).0)
          × ((query_local_inference_handler mock_ops layout follower).1.vm.host.motor_right_speed
              ≡ (class_speeds (pos (run (negsuc 126 ∷ [])).top_class)).1)
          × IsSpeed (class_speeds (pos (run (negsuc 126 ∷ [])).top_class)).0
          × IsSpeed (class_speeds (pos (run (negsuc 126 ∷ [])).top_class)).1)
        ⊎ (((run (negsuc 126 ∷ [])).confidence_pct < 60)
            × ((query_local_inference_handler mock_ops layout follower).1.vm.host ≡ learned)))
query_local_inference-learned_example =
    query_local_inference-learned layout 0 3 0 (bytes 64) listener (negsuc 126 ∷ []) []
      layout-IsPlaced refl refl refl

ahead : class_speeds (pos (run (negsuc 126 ∷ [])).top_class) ≡ (pos 100, pos 100)
unfolding class_speeds run
ahead = refl
