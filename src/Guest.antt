-- ===== src/Guest.antt =====
-- wasm-apps/src/lib.rs: the guest that runs in the sandbox, over the host calls that it imports. Its
-- locals and texts stand in its memory, at addresses that the compiler chooses.
pub mod Buffers
pub mod Payload
pub mod Sense
pub mod Emits
pub mod Queued
pub mod Balance
pub mod Follow
pub mod Steer
use sand_os.Base.{
  ℕ, ◌+◌, ◌*◌, ◌/◌, ◌%◌, ◌^◌, List, [], ◌∷◌, Option, none, some, Bool, false, not, ◌&&◌, ltb, ◌==◌,
  if◌then◌else◌, length, replicate, slice, splice,
}
use sand_os.Base.Int.{ℤ, pos, negsuc, sub_ℕ, ltb_ℤ, clamp_ℤ, as_u16, as_u32, as_i32}
use sand_os.Base.Bytes.{to_le_bytes, from_le_bytes}
use mathlib.Core.Option
use sand_os.Sandbox.{HostOps, Vm}
use sand_os.Sandbox as Call
pub use sand_os.Guest.Buffers.{imu_cdr_size, odom_cdr_size, nominal_loop_time_us}
unfoldable pub use sand_os.Guest.Buffers.{
  write_u32_le, write_u64_le, write_i32_le, write_i16_le, imu_payload, odom_payload,
}

-- `expression`s of `mod eye`.
abbrev pub eye_neutral : ℤ
eye_neutral = pos 0

abbrev pub eye_happy : ℤ
eye_happy = pos 1

abbrev pub telemetry_queue_high_water_mark : ℤ
telemetry_queue_high_water_mark = pos 28

-- "Hello, World!"
abbrev pub hello : List ℕ
hello = 72 ∷ 101 ∷ 108 ∷ 108 ∷ 111 ∷ 44 ∷ 32 ∷ 87 ∷ 111 ∷ 114 ∷ 108 ∷ 100 ∷ 33 ∷ []

-- Where the compiler has put the two texts and the locals whose addresses the guest passes on.
pub record Layout : Type 0 where
  pub hello_at : ℤ
  pub blank_at : ℤ
  pub pitch_at : ℤ
  pub roll_at : ℤ
  pub buf_at : ℤ

-- `pitch / 1_000`, rounded towards zero.
abbrev pub div_1000 : ℤ → ℤ
div_1000 (pos n) = pos (n / 1000)
div_1000 (negsuc n) = sub_ℕ 0 ((n + 1) / 1000)

-- `(pitch / 1_000).clamp(-255, 255)`
unfoldable pub duty_of : ℤ → ℤ
duty_of pitch = clamp_ℤ (div_1000 pitch) (negsuc 254) (pos 255)

-- `match top_class`: the speeds that a class stands for.
unfoldable pub class_speeds : ℤ → ℤ × ℤ
class_speeds (pos n) =
    if n == 1
    then (pos 100, pos 100)
    else if n == 2
    then (negsuc 99, pos 100)
    else if n == 3
    then (pos 100, negsuc 99)
    else if n == 4
    then (negsuc 99, negsuc 99)
    else (pos 0, pos 0)
class_speeds (negsuc n) = (pos 0, pos 0)

-- `TOGGLE_COUNT`, `IMU_SEQ` and `ODOM_SEQ`, with the guest's memory and its host.
pub record App (H : Type 0) : Type 0 where
  pub toggle_count : ℕ
  pub imu_seq : ℕ
  pub odom_seq : ℕ
  pub vm : Vm H

-- Bytes that the guest reads from its own memory.
abbrev pub load : ℤ → ℕ → Option (List ℕ) → List ℕ
load ptr len none = []
load ptr len (some mem) = slice mem (as_u32 ptr) len

module _ {H : Type 0} where
  -- A local of the guest, written and read back.
  abbrev pub store : ℤ → List ℕ → Vm H → Vm H
  store ptr bytes vm = record vm {
    memory = Option.map (λ mem. splice mem (as_u32 ptr) bytes) vm.memory;
  }

  -- `i32::from_le_bytes`
  abbrev pub load_i32 : ℤ → Vm H → ℤ
  load_i32 ptr vm = as_i32 (from_le_bytes (load ptr 4 vm.memory))

  abbrev pub on_vm : (Vm H → ℤ × Vm H) → App H → ℤ × App H
  on_vm f app = let (code, vm) = f app.vm in (code, record app { vm = vm })

-- `code == 0` of an i32.
abbrev pub is_ok : ℤ → Bool
is_ok (pos n) = n == 0
is_ok (negsuc n) = false

module _ {H : Type 0} (O : HostOps H) (L : Layout) where
  unfoldable pub guest_init : App H → ℤ × App H
  guest_init app =
      let drawn = Call.draw_eye O eye_neutral app.vm in
      let lit = Call.set_brightness O (pos 128) drawn.1 in (pos 0, record app { vm = lit.1 })

  unfoldable pub toggle_led_handler : App H → ℤ × App H
  toggle_led_handler app =
      let (status, vm) = Call.toggle_led O app.vm in
      if is_ok status
      then (status, record app { vm = vm; toggle_count = (app.toggle_count + 1) % 2 ^ 32 })
      else (status, record app { vm = vm })

  unfoldable pub draw_eye_handler : ℤ → App H → ℤ × App H
  draw_eye_handler expression app = on_vm (Call.draw_eye O expression) app

  unfoldable pub write_text_handler : ℤ → ℤ → App H → ℤ × App H
  write_text_handler ptr len app = on_vm (Call.write_text O ptr len) app

  unfoldable pub handle_llm_response : ℤ → ℤ → ℤ → App H → ℤ × App H
  handle_llm_response ptr len mood app =
      let (status, vm) = Call.draw_eye O mood app.vm in
      if not (is_ok status)
      then (status, record app { vm = vm })
      else on_vm (Call.write_text O ptr len) (record app { vm = vm })

  unfoldable pub clear_display_handler : App H → ℤ × App H
  clear_display_handler app =
      let (status, vm) = Call.draw_eye O eye_neutral app.vm in
      if not (is_ok status)
      then (status, record app { vm = vm })
      else on_vm (Call.write_text O L.blank_at (pos 1)) (record app { vm = vm })

  -- `let mut pitch = 0; let mut roll = 0; host_get_pitch_roll(…)`
  unfoldable pub sense : Vm H → ℤ × Vm H
  sense vm =
      let zero_i32 = to_le_bytes 4 0 in
      Call.get_pitch_roll O L.pitch_at L.roll_at
        (store L.roll_at zero_i32 (store L.pitch_at zero_i32 vm))

  unfoldable pub balance_handler : App H → ℤ × App H
  balance_handler app =
      let (imu_status, vm) = sense app.vm in
      let duty = duty_of (load_i32 L.pitch_at vm) in
      if not (is_ok imu_status)
      then (imu_status, record app { vm = vm })
      else on_vm (Call.set_motor_speed O duty duty) (record app { vm = vm })

  unfoldable pub emergency_stop_handler : App H → ℤ × App H
  emergency_stop_handler app = on_vm (Call.set_motor_speed O (pos 0) (pos 0)) app

  -- `host_get_uptime_ms() as u64 * 1_000`, which wraps.
  abbrev pub uptime_us : Vm H → ℕ
  uptime_us vm = Call.get_uptime_ms O vm * 1000 % 2 ^ 64

  unfoldable pub emit_imu_telemetry_handler : App H → ℤ × App H
  emit_imu_telemetry_handler app =
      let (imu_status, vm) = sense app.vm in
      let qlen = Call.get_telemetry_queue_len O vm in
      let buf =
        imu_payload app.imu_seq (uptime_us vm) (load_i32 L.pitch_at vm) (load_i32 L.roll_at vm) in
      let counted : App H = record app {
        vm = store L.buf_at buf vm;
        imu_seq = (app.imu_seq + 1) % 2 ^ 32;
      } in
      if not (is_ok imu_status)
      then (imu_status, record app { vm = vm })
      else if not (ltb_ℤ qlen telemetry_queue_high_water_mark)
      then (pos 0, record app { vm = vm })
      else on_vm (Call.emit_imu_telemetry O L.buf_at (pos imu_cdr_size)) counted

  unfoldable pub emit_odom_telemetry_handler : App H → ℤ × App H
  emit_odom_telemetry_handler app =
      let qlen = Call.get_telemetry_queue_len O app.vm in
      let buf = odom_payload app.odom_seq (uptime_us app.vm) in
      let counted : App H = record app {
        vm = store L.buf_at buf app.vm;
        odom_seq = (app.odom_seq + 1) % 2 ^ 32;
      } in
      if not (ltb_ℤ qlen telemetry_queue_high_water_mark)
      then (pos 0, app)
      else on_vm (Call.emit_odom_telemetry O L.buf_at (pos odom_cdr_size)) counted

  unfoldable pub query_local_inference_handler : App H → ℤ × App H
  query_local_inference_handler app =
      let (status, vm) =
        Call.get_local_inference O L.buf_at (store L.buf_at (replicate 12 0) app.vm) in
      let buf = load L.buf_at 12 vm.memory in
      let active = as_i32 (from_le_bytes (slice buf 0 4)) in
      let top_class = as_i32 (from_le_bytes (slice buf 4 4)) in
      let confidence = as_i32 (from_le_bytes (slice buf 8 4)) in
      let (left, right) = class_speeds top_class in
      if not (is_ok status)
      then (status, record app { vm = vm })
      else if not (is_ok active) && not (ltb_ℤ confidence (pos 60))
      then (pos 0, record app { vm = (Call.set_motor_speed O left right vm).1 })
      else (pos 0, record app { vm = vm })

  unfoldable pub run_command : ℤ → App H → ℤ × App H
  run_command cmd_id app =
      let id = as_u32 cmd_id % 256 in
      if id == 0x01
      then toggle_led_handler app
      else if id == 0x10
      then draw_eye_handler eye_happy app
      else if id == 0x11
      then write_text_handler L.hello_at (pos (length hello)) app
      else if id == 0x12
      then clear_display_handler app
      else if id == 0x20
      then balance_handler app
      else if id == 0x21
      then emergency_stop_handler app
      else if id == 0x30
      then emit_imu_telemetry_handler app
      else if id == 0x31
      then emit_odom_telemetry_handler app
      else if id == 0x40
      then query_local_inference_handler app
      else (pos 1, app)
