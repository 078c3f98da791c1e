-- ===== src/Mock.antt =====
-- host-tests/src/mock_host.rs: the host of the tests on a PC, which answers the guest's calls as
-- `AbiHost` does and records what they do.
pub mod State
pub mod Ota
pub mod Learn
pub mod Audio
pub mod Agrees
pub mod Swap
pub mod Speeds
use sand_os.Base.{
  ℕ, zero, suc, ◌+◌, ◌-◌, ◌%◌, ◌^◌, min, List, [], ◌∷◌, ◌++◌, Option, none, some, Bool, true, false,
  not, ◌||◌, ltb, leb, ◌==◌, if◌then◌else◌, length, take, drop,
}
use sand_os.Base.Int.{ℤ, pos, negsuc, ltb_ℤ}
use sand_os.Abi.Status.{
  ok, err_invalid_arg, err_busy, err_bounds, max_text_bytes, max_brightness, max_audio_read,
  max_motor_speed, dead_mans_switch_ms, telemetry_tx_capacity,
}
use sand_os.Abi.Eye.{EyeExpression, from_i32}
use sand_os.Abi.ImuReading.{ImuReading}
use sand_os.Abi.Telemetry.{
  TelemetryPacket, imu, odometry, imu_size, odometry_size, imu_from_cdr, odometry_from_cdr,
}
use sand_os.Abi.Inference.{InferenceResult, inactive, inference_result_size}
use sand_os.Abi.Inference as Result
use sand_os.Abi.OtaStatus.{OtaState, idle, ota_status_size}
use sand_os.Abi.OtaStatus as Status
use sand_os.Text.{from_utf8}
use sand_os.Bus.{MovementIntent, RoutingMode, single_board, distributed}
use sand_os.Host.{abs_i32, i32_as_i16}
use sand_os.Base.Int.{as_i32}
use mathlib.Core.Option
pub use sand_os.Mock.State.{MockDisplay, MockHost, default_host}

-- The counters wrap, as in the release profile; where overflow is checked, Harness/Counted says which
-- calls panic.
unfoldable pub toggle_led : MockHost → ℤ × MockHost
toggle_led h =
    (ok, record h { led_on = not h.led_on; toggle_count = (h.toggle_count + 1) % 2 ^ 32 })

-- The u64 whose bits the i64 has.
unfoldable pub get_uptime_ms : MockHost → ℕ
get_uptime_ms h = h.simulated_uptime_ms

unfoldable pub debug_log : List ℕ → MockHost → ℤ × MockHost
debug_log bytes h = elim (from_utf8 bytes) [
  | some chars ↦ (ok, record h { log_messages = h.log_messages ++ (bytes ∷ []) })
  | none ↦ (err_invalid_arg, h)
]

-- The methods of `MockDisplay`.
unfoldable pub display_draw_eye : EyeExpression → MockDisplay → ℤ × MockDisplay
display_draw_eye expression d = (ok, record d { current_expression = some expression })

unfoldable pub display_write_text : List ℕ → MockDisplay → ℤ × MockDisplay
display_write_text bytes d = elim (from_utf8 bytes) [
  | some chars ↦ (ok, record d { display_text = bytes })
  | none ↦ (err_invalid_arg, d)
]

unfoldable pub display_set_brightness : ℕ → MockDisplay → ℤ × MockDisplay
display_set_brightness value d = (ok, record d { brightness = value })

-- The call on the display, put back into the host.
abbrev pub on_display : (MockDisplay → ℤ × MockDisplay) → MockHost → ℤ × MockHost
on_display f h = let (code, d) = f h.display in (code, record h { display = d })

unfoldable pub draw_eye : ℤ → MockHost → ℤ × MockHost
draw_eye expression_raw h = elim (from_i32 expression_raw) [
  | some expression ↦ on_display (display_draw_eye expression) h
  | none ↦ (err_invalid_arg, h)
]

unfoldable pub write_text : List ℕ → MockHost → ℤ × MockHost
write_text bytes h =
    if ltb max_text_bytes (length bytes % 2 ^ 32)
    then (err_bounds, h)
    else on_display (display_write_text bytes) h

unfoldable pub set_brightness : ℤ → MockHost → ℤ × MockHost
set_brightness (negsuc n) h = (err_invalid_arg, h)
set_brightness (pos n) h =
    if ltb max_brightness n
    then (err_invalid_arg, h)
    else on_display (display_set_brightness (n % 256)) h

unfoldable pub start_audio_capture : MockHost → ℤ × MockHost
start_audio_capture h = (ok, record h { audio_active = true; audio_buf = [] })

unfoldable pub stop_audio_capture : MockHost → ℤ × MockHost
stop_audio_capture h = (ok, record h { audio_active = false })

-- `as i32`
unfoldable pub get_audio_avail : MockHost → ℤ
get_audio_avail h = as_i32 (length h.audio_buf % 2 ^ 32)

-- The loop over `pop_front`: the first `n` bytes of `out` and of the buffer.
unfoldable pub fill : ℕ → List ℕ → List ℕ → List ℕ × List ℕ
fill zero out buf = (out, buf)
fill (suc n) [] buf = ([], buf)
fill (suc n) (old ∷ out) [] = let (bytes, rest) = fill n out [] in (0 ∷ bytes, rest)
fill (suc n) (old ∷ out) (b ∷ buf) = let (bytes, rest) = fill n out buf in (b ∷ bytes, rest)

unfoldable pub read_audio : List ℕ → MockHost → ℤ × (List ℕ × MockHost)
unfolding fill
read_audio out h =
    let n = min (length out) (length h.audio_buf) in
    let (bytes, rest) = fill n out h.audio_buf in
    if ltb max_audio_read (length out % 2 ^ 32)
    then (err_bounds, (out, h))
    else (pos n, (bytes, record h { audio_buf = rest }))

unfoldable pub feed_audio : List ℕ → MockHost → MockHost
feed_audio bytes h = record h { audio_buf = h.audio_buf ++ bytes }

unfoldable pub get_pitch_roll : MockHost → ImuReading
get_pitch_roll h = h.imu_reading

-- `match self.routing_mode`
abbrev pub route : RoutingMode → ℤ → ℤ → MovementIntent → MockHost → MockHost
route single_board left right intent h = record h {
  motor_left_speed = left;
  motor_right_speed = right;
}
route distributed left right intent h = record h {
  distributed_intents = h.distributed_intents ++ (intent ∷ []);
}

unfoldable pub set_motor_speed : ℤ → ℤ → MockHost → ℤ × MockHost
set_motor_speed left right h =
    let intent : MovementIntent = record {
      left_speed = i32_as_i16 left;
      right_speed = i32_as_i16 right;
    } in
    let published : MockHost = record h {
      intent_log = h.intent_log ++ (intent ∷ []);
      last_intent_ms = h.simulated_uptime_ms;
      dead_mans_active = false;
    } in
    let routed : MockHost = route h.routing_mode left right intent published in
    if ltb_ℤ (pos max_motor_speed) (abs_i32 left) || ltb_ℤ (pos max_motor_speed) (abs_i32 right)
    then (err_invalid_arg, h)
    else if not h.motors_enabled
    then (err_busy, h)
    else (ok, record routed { watchdog_feed_count = (routed.watchdog_feed_count + 1) % 2 ^ 32 })

-- The `match` on the packet that the bytes hold.
abbrev pub emit : Option TelemetryPacket → MockHost → ℤ × MockHost
emit none h = (err_bounds, h)
emit (some packet) h =
    if leb telemetry_tx_capacity (length h.telemetry_queue)
    then (err_busy, h)
    else (ok, record h { telemetry_queue = h.telemetry_queue ++ (packet ∷ []) })

unfoldable pub emit_imu_telemetry : List ℕ → MockHost → ℤ × MockHost
emit_imu_telemetry bytes h =
    if not (length bytes == imu_size)
    then (err_bounds, h)
    else emit (Option.map imu (imu_from_cdr bytes)) h

unfoldable pub emit_odom_telemetry : List ℕ → MockHost → ℤ × MockHost
emit_odom_telemetry bytes h =
    if not (length bytes == odometry_size)
    then (err_bounds, h)
    else emit (Option.map odometry (odometry_from_cdr bytes)) h

-- `as i32`
unfoldable pub get_telemetry_queue_len : MockHost → ℤ
get_telemetry_queue_len h = as_i32 (length h.telemetry_queue % 2 ^ 32)

-- `u64::saturating_sub`
unfoldable pub check_dead_mans_switch : ℕ → MockHost → MockHost
check_dead_mans_switch current_ms h =
    if ltb dead_mans_switch_ms (current_ms - h.last_intent_ms)
    then record h { dead_mans_active = true; motor_left_speed = pos 0; motor_right_speed = pos 0 }
    else h

unfoldable pub get_local_inference : List ℕ → MockHost → ℤ × List ℕ
get_local_inference out h =
    if ltb (length out) inference_result_size
    then (err_bounds, out)
    else (ok, (Result.to_bytes h.inference_result out).1)

unfoldable pub get_ota_status : List ℕ → MockHost → ℤ × List ℕ
get_ota_status out h = if ltb (length out) ota_status_size then (err_bounds, out) else (
  ok,
  (Status.to_bytes
      (record {
        state = h.ota_state;
        bytes_received = h.ota_bytes_received;
        total_size = h.ota_expected_size;
        swap_count = h.hot_swap_count;
      })
      out).1,
)
