-- ===== src/Sandbox/Hosts.antt =====
-- The two hosts that stand behind the closures: `AbiHost` of firmware/src/core0/abi.rs, with the shared
-- state of the firmware that its methods reach, and `MockHost` of host-tests/src/mock_host.rs.
use sand_os.Base.{ℕ, ◌%◌, ◌^◌, List}
use sand_os.Base.Int.{ℤ, as_i32}
use sand_os.Abi.Telemetry.{TelemetryPacket}
use sand_os.Text.{BoundedString}
use sand_os.Channel.{BoundedQueue}
use sand_os.Motors.{Motors}
use sand_os.Bus.{MovementIntent}
use sand_os.Host.{AbiHost}
use sand_os.Host as Host
use sand_os.Mock.{MockHost}
use sand_os.Mock as Mock
use sand_os.Sandbox.{HostOps}

module _ (T : BoundedString 256) (A : BoundedQueue ℕ 8192) (I : BoundedQueue MovementIntent 8)
    (Q : BoundedQueue TelemetryPacket 32) where
  -- An `AbiHost` and the statics of the firmware that it reads and writes.
  pub record Board : Type 0 where
    pub abi : AbiHost T A
    pub now_ms : ℕ
    pub motors : Motors
    pub intents : I.Queue
    pub telemetry : Q.Queue
    pub imu_data : ℕ
    pub inference_word : ℕ

  -- The call on the host, put back into the board.
  abbrev pub on_abi : (AbiHost T A → ℤ × AbiHost T A) → Board → ℤ × Board
  on_abi f b = let (code, h) = f b.abi in (code, record b { abi = h })

  abbrev pub on_intents : ℤ × I.Queue → Board → ℤ × Board
  on_intents (code, q) b = (code, record b { intents = q })

  abbrev pub on_telemetry : ℤ × Q.Queue → Board → ℤ × Board
  on_telemetry (code, q) b = (code, record b { telemetry = q })

  abbrev pub on_read : ℤ × (List ℕ × AbiHost T A) → Board → ℤ × (List ℕ × Board)
  on_read (code, (bytes, h)) b = (code, (bytes, record b { abi = h }))

  abbrev pub board_ops : HostOps Board
  board_ops = record {
    toggle_led = on_abi (Host.toggle_led T A);
    get_uptime_ms = λ b. Host.get_uptime_ms b.now_ms;
    debug_log = λ bytes b. (Host.debug_log T A bytes b.abi, b);
    draw_eye = λ e. on_abi (Host.draw_eye T A e);
    write_text = λ bytes. on_abi (Host.write_text T A bytes);
    set_brightness = λ v. on_abi (Host.set_brightness T A v);
    start_audio_capture = on_abi (Host.start_audio_capture T A);
    stop_audio_capture = on_abi (Host.stop_audio_capture T A);
    get_audio_avail = λ b. as_i32 (Host.get_audio_avail T A b.abi % 2 ^ 32);
    read_audio = λ out b. on_read (Host.read_audio T A out b.abi) b;
    get_pitch_roll = λ b. Host.get_pitch_roll b.imu_data;
    set_motor_speed = λ l r b. on_intents (Host.set_motor_speed I l r b.motors b.intents) b;
    emit_imu_telemetry = λ bytes b. on_telemetry (Host.emit_imu_telemetry Q bytes b.telemetry) b;
    emit_odom_telemetry = λ bytes b. on_telemetry (Host.emit_odom_telemetry Q bytes b.telemetry) b;
    get_telemetry_queue_len = λ b. as_i32 (Host.get_telemetry_queue_len Q b.telemetry % 2 ^ 32);
    get_local_inference = λ out b. Host.get_local_inference out b.inference_word;
    get_ota_status = λ out b. Host.get_ota_status T A out b.abi;
  }

abbrev pub mock_ops : HostOps MockHost
mock_ops = record {
  toggle_led = Mock.toggle_led;
  get_uptime_ms = Mock.get_uptime_ms;
  debug_log = Mock.debug_log;
  draw_eye = Mock.draw_eye;
  write_text = Mock.write_text;
  set_brightness = Mock.set_brightness;
  start_audio_capture = Mock.start_audio_capture;
  stop_audio_capture = Mock.stop_audio_capture;
  get_audio_avail = Mock.get_audio_avail;
  read_audio = Mock.read_audio;
  get_pitch_roll = Mock.get_pitch_roll;
  set_motor_speed = Mock.set_motor_speed;
  emit_imu_telemetry = Mock.emit_imu_telemetry;
  emit_odom_telemetry = Mock.emit_odom_telemetry;
  get_telemetry_queue_len = Mock.get_telemetry_queue_len;
  get_local_inference = Mock.get_local_inference;
  get_ota_status = Mock.get_ota_status;
}
