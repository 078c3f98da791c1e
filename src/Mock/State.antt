-- ===== src/Mock/State.antt =====
-- host-tests/src/mock_host.rs: the state of the host of the tests, `MockHost`, and the one it starts in.
use sand_os.Base.{ℕ, List, [], Option, none, Bool, true, false}
use sand_os.Base.Int.{ℤ, pos}
use sand_os.Abi.Eye.{EyeExpression}
use sand_os.Abi.ImuReading.{ImuReading}
use sand_os.Abi.Telemetry.{TelemetryPacket}
use sand_os.Abi.Inference.{InferenceResult, inactive}
use sand_os.Abi.OtaStatus.{OtaState, idle}
use sand_os.Bus.{MovementIntent, RoutingMode, single_board}

-- A `String` is the list of its bytes.
pub record MockDisplay : Type 0 where
  pub current_expression : Option EyeExpression
  pub display_text : List ℕ
  pub brightness : ℕ

pub record MockHost : Type 0 where
  pub led_on : Bool
  pub toggle_count : ℕ
  pub display : MockDisplay
  pub audio_active : Bool
  pub audio_buf : List ℕ
  pub log_messages : List (List ℕ)
  pub simulated_uptime_ms : ℕ
  pub imu_reading : ImuReading
  pub motor_left_speed : ℤ
  pub motor_right_speed : ℤ
  pub motors_enabled : Bool
  pub watchdog_feed_count : ℕ
  pub routing_mode : RoutingMode
  pub intent_log : List MovementIntent
  pub last_intent_ms : ℕ
  pub dead_mans_active : Bool
  pub distributed_intents : List MovementIntent
  pub telemetry_queue : List TelemetryPacket
  pub inference_result : InferenceResult
  pub radio_link_alive : Bool
  pub audio_inference_queue : List (List ℤ)
  pub ota_state : OtaState
  pub ota_buffer : List ℕ
  pub ota_expected_size : ℕ
  pub ota_bytes_received : ℕ
  pub hot_swap_count : ℕ
  pub vm_paused : Bool
  pub active_wasm_binary : List ℕ

-- `MockHost::default()`
abbrev pub default_host : MockHost
default_host = record {
  led_on = false;
  toggle_count = 0;
  display = record { current_expression = none; display_text = []; brightness = 0 };
  audio_active = false;
  audio_buf = [];
  log_messages = [];
  simulated_uptime_ms = 0;
  imu_reading = record { pitch_millideg = pos 0; roll_millideg = pos 0 };
  motor_left_speed = pos 0;
  motor_right_speed = pos 0;
  motors_enabled = true;
  watchdog_feed_count = 0;
  routing_mode = single_board;
  intent_log = [];
  last_intent_ms = 0;
  dead_mans_active = false;
  distributed_intents = [];
  telemetry_queue = [];
  inference_result = inactive;
  radio_link_alive = true;
  audio_inference_queue = [];
  ota_state = idle;
  ota_buffer = [];
  ota_expected_size = 0;
  ota_bytes_received = 0;
  hot_swap_count = 0;
  vm_paused = false;
  active_wasm_binary = [];
}
