-- ===== src/Host.antt =====
-- firmware/src/core0/abi.rs: the host's side of the calls that the Wasm guest makes. The queues and
-- the text of the display are the interfaces of the crates that the source uses.
pub mod Written
pub mod Audio
pub mod Reports
pub mod Requests
use sand_os.Base.{
  ℕ, zero, suc, ◌+◌, ◌-◌, ◌%◌, ◌^◌, min, List, [], ◌∷◌, Option, none, some, Bool, true, false, not,
  ◌||◌, ltb, ◌==◌, if◌then◌else◌, length, take, map,
}
use sand_os.Base.Int.{ℤ, pos, negsuc, ltb_ℤ, as_u32, as_i16}
use sand_os.Abi.Status.{
  ok, err_invalid_arg, err_busy, err_bounds, max_text_bytes, max_brightness, max_audio_read,
  max_motor_speed, inference_tensor_size,
}
use sand_os.Abi.Eye.{from_i32}
use sand_os.Abi.ImuReading.{ImuReading}
use sand_os.Abi.Telemetry.{
  TelemetryPacket, imu, odometry, imu_size, odometry_size, imu_from_cdr, odometry_from_cdr,
}
use sand_os.Abi.Inference as Result
use sand_os.Abi.OtaStatus.{OtaState, idle, ota_status_size}
use sand_os.Abi.OtaStatus as Ota
use sand_os.Text.{BoundedString}
use sand_os.Display.{DisplayDriver}
use sand_os.Display as Screen
use mathlib.Core.Option
use sand_os.Motors.{Motors, is_motor_enabled}
use sand_os.Sensors.{load_imu}
use sand_os.Inference.{load_inference_result}
use sand_os.Telemetry.{push_telemetry}
use sand_os.Bus.{MovementIntent, publish_intent}
use sand_os.Channel.{BoundedQueue}

-- `v.abs()` of an i32, which wraps at the least value in the release profile.
unfoldable pub abs_i32 : ℤ → ℤ
abs_i32 (pos n) = pos n
abs_i32 (negsuc n) = if n == 2 ^ 31 - 1 then negsuc n else pos (suc n)

-- `v as i16` of an i32.
unfoldable pub i32_as_i16 : ℤ → ℤ
i32_as_i16 v = as_i16 (as_u32 v % 2 ^ 16)

-- `byte as i8`
unfoldable pub as_i8 : ℕ → ℤ
as_i8 b = if ltb b 128 then pos b else negsuc (255 - b)

-- A boot time, the LED, the display, the microphone and the OTA counters. The boot time and the OTA
-- counters are set by `new` and by nothing else.
module _ (T : BoundedString 256) (A : BoundedQueue ℕ 8192) where
  pub record AbiHost : Type 0 where
    pub led_on : Bool
    pub boot_time_ms : ℕ
    pub display : DisplayDriver T
    pub audio_active : Bool
    pub audio_buf : A.Queue
    pub ota_state : OtaState
    pub ota_expected_size : ℕ
    pub ota_bytes_received : ℕ
    pub hot_swap_count : ℕ

  unfoldable pub new : DisplayDriver T → AbiHost
  new display = record {
    led_on = false;
    boot_time_ms = 0;
    display = display;
    audio_active = false;
    audio_buf = A.empty;
    ota_state = idle;
    ota_expected_size = 0;
    ota_bytes_received = 0;
    hot_swap_count = 0;
  }

  unfoldable pub toggle_led : AbiHost → ℤ × AbiHost
  toggle_led h = (ok, record h { led_on = not h.led_on })

  -- Best effort: the text goes to no log in the source.
  unfoldable pub debug_log : List ℕ → AbiHost → ℤ
  debug_log bytes h = ok

  -- The call on the display, put back into the host.
  abbrev pub on_display : (DisplayDriver T → ℤ × DisplayDriver T) → AbiHost → ℤ × AbiHost
  on_display f h = let (code, d) = f h.display in (code, record h { display = d })

  unfoldable pub draw_eye : ℤ → AbiHost → ℤ × AbiHost
  draw_eye expression_raw h = elim (from_i32 expression_raw) [
    | some expression ↦ on_display (Screen.draw_eye T expression) h
    | none ↦ (err_invalid_arg, h)
  ]

  unfoldable pub write_text : List ℕ → AbiHost → ℤ × AbiHost
  write_text bytes h =
      if ltb max_text_bytes (length bytes % 2 ^ 32)
      then (err_bounds, h)
      else on_display (Screen.write_text T bytes) h

  unfoldable pub set_brightness : ℤ → AbiHost → ℤ × AbiHost
  set_brightness (negsuc n) h = (err_invalid_arg, h)
  set_brightness (pos n) h =
      if ltb max_brightness n
      then (err_invalid_arg, h)
      else on_display (Screen.set_brightness T (n % 256)) h

  unfoldable pub start_audio_capture : AbiHost → ℤ × AbiHost
  start_audio_capture h = (ok, record h { audio_active = true; audio_buf = A.empty })

  unfoldable pub stop_audio_capture : AbiHost → ℤ × AbiHost
  stop_audio_capture h = (ok, record h { audio_active = false })

  unfoldable pub get_audio_avail : AbiHost → ℕ
  get_audio_avail h = A.len h.audio_buf

  -- `for byte in out.iter_mut().take(n) { *byte = pop_front().unwrap_or(0); }`
  unfoldable pub fill : ℕ → List ℕ → A.Queue → List ℕ × A.Queue
  fill zero out q = (out, q)
  fill (suc n) [] q = ([], q)
  fill (suc n) (old ∷ out) q =
      let (front, q') = A.try_receive q in
      let (bytes, rest) = fill n out q' in
      elim front [ some b ↦ (b ∷ bytes, rest) | none ↦ (0 ∷ bytes, rest) ]

  unfoldable pub read_audio : List ℕ → AbiHost → ℤ × (List ℕ × AbiHost)
  unfolding fill
  read_audio out h =
      let n = min (length out) (A.len h.audio_buf) in
      let (bytes, rest) = fill n out h.audio_buf in
      if ltb max_audio_read (length out % 2 ^ 32)
      then (err_bounds, (out, h))
      else (pos n, (bytes, record h { audio_buf = rest }))

  unfoldable pub get_ota_status : List ℕ → AbiHost → ℤ × List ℕ
  get_ota_status out h = if ltb (length out) ota_status_size then (err_bounds, out) else (
    ok,
    (Ota.to_bytes
        (record {
          state = h.ota_state;
          bytes_received = h.ota_bytes_received;
          total_size = h.ota_expected_size;
          swap_count = h.hot_swap_count;
        })
        out).1,
  )

  -- `push_audio_for_inference`, over the queue of snapshots.
  module _ (S : BoundedQueue (List ℤ) 2) where
    unfoldable pub push_audio_for_inference : AbiHost → S.Queue → S.Queue
    push_audio_for_inference h snapshots =
        let n = min (A.len h.audio_buf) inference_tensor_size in
        if n == 0
        then snapshots
        else (S.try_send (map as_i8 (take n (A.contents h.audio_buf))) snapshots).1

-- `Instant::now().as_millis()`, for the clock of embassy-time.
unfoldable pub get_uptime_ms : ℕ → ℕ
get_uptime_ms now_ms = now_ms

unfoldable pub get_pitch_roll : ℕ → ImuReading
get_pitch_roll imu_data = load_imu imu_data

module _ (I : BoundedQueue MovementIntent 8) where
  unfoldable pub set_motor_speed : ℤ → ℤ → Motors → I.Queue → ℤ × I.Queue
  set_motor_speed left right motors intents =
      let (sent, intents') =
        publish_intent I (record { left_speed = i32_as_i16 left; right_speed = i32_as_i16 right })
          intents in
      if ltb_ℤ (pos max_motor_speed) (abs_i32 left) || ltb_ℤ (pos max_motor_speed) (abs_i32 right)
      then (err_invalid_arg, intents)
      else if not (is_motor_enabled motors)
      then (err_busy, intents)
      else if sent
      then (ok, intents')
      else (err_busy, intents')

module _ (Q : BoundedQueue TelemetryPacket 32) where
  -- The end that the two calls share: push the packet, or answer that it is none.
  abbrev pub emit : Option TelemetryPacket → Q.Queue → ℤ × Q.Queue
  emit none queue = (err_bounds, queue)
  emit (some packet) queue =
      let (sent, queue') = push_telemetry Q packet queue in
      if sent then (ok, queue') else (err_busy, queue')

  unfoldable pub emit_imu_telemetry : List ℕ → Q.Queue → ℤ × Q.Queue
  emit_imu_telemetry bytes queue =
      if not (length bytes == imu_size)
      then (err_bounds, queue)
      else emit (Option.map imu (imu_from_cdr bytes)) queue

  unfoldable pub emit_odom_telemetry : List ℕ → Q.Queue → ℤ × Q.Queue
  emit_odom_telemetry bytes queue =
      if not (length bytes == odometry_size)
      then (err_bounds, queue)
      else emit (Option.map odometry (odometry_from_cdr bytes)) queue

  unfoldable pub get_telemetry_queue_len : Q.Queue → ℕ
  get_telemetry_queue_len queue = Q.len queue

unfoldable pub get_local_inference : List ℕ → ℕ → ℤ × List ℕ
get_local_inference out word =
    if ltb (length out) 12
    then (err_bounds, out)
    else (ok, (Result.to_bytes (load_inference_result word) out).1)
