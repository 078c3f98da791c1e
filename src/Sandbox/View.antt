-- ===== src/Sandbox/View.antt =====
-- host-tests/src/mock_host.rs against firmware/src/core0/abi.rs: the view of a host by which a mock
-- stands for a board.
use sand_os.Base.{ℕ, if◌then◌else◌, ◌<◌, ◌≡◌, refl, sym, List, none, Bool, true, false, length, ◌≢◌}
use sand_os.Base.Int.{ℤ}
use sand_os.Abi.OtaStatus.{OtaStatus}
use sand_os.Abi.Telemetry.{TelemetryPacket}
use mathlib.Core.Path.{subst}
use sand_os.Text.{BoundedString, from_utf8}
use sand_os.Channel.{BoundedQueue}
use sand_os.Bus.{MovementIntent}
use sand_os.Motors.{is_motor_enabled}
use sand_os.Sensors.{load_imu}
use sand_os.Inference.{load_inference_result}
use sand_os.Host.Reports.{ota_fields}
use sand_os.Mock.{MockHost}
use sand_os.Abi.ImuReading.{ImuReading}
use sand_os.Abi.Inference.{InferenceResult}
use sand_os.Sandbox.Hosts.{Board}
use sand_os.Sandbox.Simulates.{Same}

-- A text that both hosts log: the firmware accepts any bytes, the mock accepts UTF-8.
abbrev pub IsLoggable : List ℕ → Type 0
IsLoggable bytes = from_utf8 bytes ≢ none

-- What a guest can see of a host, and what it has sent to the other tasks.
pub record View : Type 0 where
  pub led_on : Bool
  pub text : List ℕ
  pub audio_active : Bool
  pub audio : List ℕ
  pub now_ms : ℕ
  pub reading : ImuReading
  pub enabled : Bool
  pub intents : List MovementIntent
  pub telemetry : List TelemetryPacket
  pub inference : InferenceResult
  pub update : OtaStatus

abbrev pub mock_view : MockHost → View
mock_view k = record {
  led_on = k.led_on;
  text = k.display.display_text;
  audio_active = k.audio_active;
  audio = k.audio_buf;
  now_ms = k.simulated_uptime_ms;
  reading = k.imu_reading;
  enabled = k.motors_enabled;
  intents = k.intent_log;
  telemetry = k.telemetry_queue;
  inference = k.inference_result;
  update = record {
    state = k.ota_state;
    bytes_received = k.ota_bytes_received;
    total_size = k.ota_expected_size;
    swap_count = k.hot_swap_count;
  };
}

pub if_true {ℓ} : {A : Type ℓ} {c : Bool} {x : A} (y : A) → c ≡ true → (if c then x else y) ≡ x
if_true y e = rw e refl

pub if_false {ℓ} : {A : Type ℓ} {c : Bool} {y : A} (x : A) → c ≡ false → (if c then x else y) ≡ y
if_false x e = rw e refl

pub Same_at :
    {H K : Type 0} (R : H → K → Type 0) {x x' : ℤ × H} {y y' : ℤ × K}
    → x ≡ x'
    → y ≡ y'
    → Same R x' y'
    → Same R x y
Same_at R {x' = x'} {y = y} e f s =
    subst (λ z. Same R z y) (sym e) (subst (λ z. Same R x' z) (sym f) s)

abbrev pub see_led : Bool → View → View
see_led on v = record v { led_on = on }

abbrev pub see_active : Bool → View → View
see_active active v = record v { audio_active = active }

abbrev pub see_audio : List ℕ → View → View
see_audio bytes v = record v { audio = bytes }

abbrev pub see_text : List ℕ → View → View
see_text bytes v = record v { text = bytes }

abbrev pub see_intents : List MovementIntent → View → View
see_intents intents v = record v { intents = intents }

abbrev pub see_telemetry : List TelemetryPacket → View → View
see_telemetry packets v = record v { telemetry = packets }

module _ (T : BoundedString 256) (A : BoundedQueue ℕ 8192) (I : BoundedQueue MovementIntent 8)
    (Q : BoundedQueue TelemetryPacket 32) where
  abbrev pub board_view : Board T A I Q → View
  board_view b = record {
    led_on = b.abi.led_on;
    text = T.bytes b.abi.display.last_text;
    audio_active = b.abi.audio_active;
    audio = A.contents b.abi.audio_buf;
    now_ms = b.now_ms;
    reading = load_imu b.imu_data;
    enabled = is_motor_enabled b.motors;
    intents = I.contents b.intents;
    telemetry = Q.contents b.telemetry;
    inference = load_inference_result b.inference_word;
    update = ota_fields T A b.abi;
  }

  -- A mock stands for a board of which a guest sees the same.
  abbrev pub Mirrors : Board T A I Q → MockHost → Type 0
  Mirrors b k = board_view b ≡ mock_view k

  -- The router has left room for an intent.
  abbrev pub HasRoom : Board T A I Q → Type 0
  HasRoom b = length (I.contents b.intents) < 8
