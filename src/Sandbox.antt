-- ===== src/Sandbox.antt =====
-- firmware/src/core0/wasm_vm.rs, `build_linker`: the closures through which a guest reaches the host,
-- with the three that only host-tests/src/vm_harness.rs registers. A guest that exports no memory
-- has none.
pub mod Frame
pub mod Simulates
pub mod Simulation
pub mod Hosts
pub mod View
pub mod Mirrors
pub mod Sends
pub mod Mocked
pub mod Buffers
use sand_os.Base.{
  ℕ, zero, suc, ◌+◌, ◌-◌, ◌%◌, ◌^◌, List, [], ◌∷◌, Option, none, some, Bool, true, false, not, ◌||◌,
  ltb, ◌==◌, if◌then◌else◌, length, take, replicate, slice, splice,
}
use sand_os.Base.Int.{ℤ, pos, negsuc, ltb_ℤ, as_u32}
use sand_os.Base.Bytes.{to_le_bytes}
use sand_os.Abi.Status.{
  ok, err_invalid_arg, err_bounds, max_text_bytes, max_audio_read, max_motor_speed,
}
use sand_os.Abi.Memory.{validate_ptr_len}
use sand_os.Abi.Memory as Check
use sand_os.Abi.ImuReading.{ImuReading}
use sand_os.Abi.Telemetry.{imu_size, odometry_size}
use sand_os.Abi.Inference.{inference_result_size}
use sand_os.Abi.OtaStatus.{ota_status_size}
use sand_os.Host.{abs_i32}

-- The methods of a host that the closures call: those of `AbiHost` and of `MockHost`.
pub record HostOps (H : Type 0) : Type 0 where
  pub toggle_led : H → ℤ × H
  pub get_uptime_ms : H → ℕ
  pub debug_log : List ℕ → H → ℤ × H
  pub draw_eye : ℤ → H → ℤ × H
  pub write_text : List ℕ → H → ℤ × H
  pub set_brightness : ℤ → H → ℤ × H
  pub start_audio_capture : H → ℤ × H
  pub stop_audio_capture : H → ℤ × H
  pub get_audio_avail : H → ℤ
  pub read_audio : List ℕ → H → ℤ × (List ℕ × H)
  pub get_pitch_roll : H → ImuReading
  pub set_motor_speed : ℤ → ℤ → H → ℤ × H
  pub emit_imu_telemetry : List ℕ → H → ℤ × H
  pub emit_odom_telemetry : List ℕ → H → ℤ × H
  pub get_telemetry_queue_len : H → ℤ
  pub get_local_inference : List ℕ → H → ℤ × List ℕ
  pub get_ota_status : List ℕ → H → ℤ × List ℕ

-- A guest's memory and the host behind it.
pub record Vm (H : Type 0) : Type 0 where
  pub memory : Option (List ℕ)
  pub host : H

-- `n as usize` of an answer, on the 32-bit target.
abbrev pub as_usize : ℤ → ℕ
as_usize n = as_u32 n

-- `mem.data()[ptr as usize..(ptr + len) as usize].to_vec()`
unfoldable pub read_memory : ℤ → ℤ → List ℕ → List ℕ
read_memory ptr len mem = slice mem (as_u32 ptr) ((as_u32 ptr + as_u32 len) % 2 ^ 32 - as_u32 ptr)

module _ {H : Type 0} (O : HostOps H) where
  -- `get_memory`, then `validate_ptr_len`: what stands before every access, and what follows it.
  unfoldable pub validated : ℤ → ℕ → Vm H → (List ℕ → ℤ × Vm H) → ℤ × Vm H
  validated ptr len vm next = elim vm.memory [
    | none ↦ (err_bounds, vm)
    | some mem ↦ elim (validate_ptr_len (as_u32 ptr) len (length mem % 2 ^ 32)) [
      | Check.ok _ ↦ next mem
      | Check.err _ ↦ (err_bounds, vm)
    ]
  ]

  -- The answer of a host call, with the host put back behind the guest.
  abbrev pub with_host : ℤ × H → Vm H → ℤ × Vm H
  with_host (code, h) vm = (code, record vm { host = h })

  -- `mem.data_mut()[ptr as usize..end].copy_from_slice(bytes)`
  abbrev pub write_memory : ℤ → List ℕ → List ℕ → Vm H → Vm H
  write_memory ptr bytes mem vm = record vm { memory = some (splice mem (as_u32 ptr) bytes) }

  unfoldable pub toggle_led : Vm H → ℤ × Vm H
  toggle_led vm = with_host (O.toggle_led vm.host) vm

  unfoldable pub get_uptime_ms : Vm H → ℕ
  get_uptime_ms vm = O.get_uptime_ms vm.host

  unfoldable pub debug_log : ℤ → ℤ → Vm H → ℤ × Vm H
  debug_log ptr len vm =
      validated ptr (as_u32 len) vm
        (λ mem. with_host (O.debug_log (read_memory ptr len mem) vm.host) vm)

  unfoldable pub draw_eye : ℤ → Vm H → ℤ × Vm H
  draw_eye expression vm = with_host (O.draw_eye expression vm.host) vm

  unfoldable pub write_text : ℤ → ℤ → Vm H → ℤ × Vm H
  write_text ptr len vm = validated ptr (as_u32 len) vm (λ mem.
      if ltb max_text_bytes (as_u32 len)
      then (err_bounds, vm)
      else with_host (O.write_text (read_memory ptr len mem) vm.host) vm)

  unfoldable pub set_brightness : ℤ → Vm H → ℤ × Vm H
  set_brightness value vm = with_host (O.set_brightness value vm.host) vm

  unfoldable pub start_audio_capture : Vm H → ℤ × Vm H
  start_audio_capture vm = with_host (O.start_audio_capture vm.host) vm

  unfoldable pub stop_audio_capture : Vm H → ℤ × Vm H
  stop_audio_capture vm = with_host (O.stop_audio_capture vm.host) vm

  unfoldable pub get_audio_avail : Vm H → ℤ
  get_audio_avail vm = O.get_audio_avail vm.host

  -- The scratch buffer comes back from the host, and its first `copied` bytes go to the guest.
  abbrev pub copy_audio : ℤ → List ℕ → Vm H → ℤ × (List ℕ × H) → ℤ × Vm H
  copy_audio ptr mem vm (copied, (tmp, h)) =
      (copied, write_memory ptr (take (as_usize copied) tmp) mem (record vm { host = h }))

  unfoldable pub read_audio : ℤ → ℤ → Vm H → ℤ × Vm H
  read_audio ptr max_len vm = validated ptr (as_u32 max_len) vm (λ mem.
      if ltb max_audio_read (as_u32 max_len)
      then (err_bounds, vm)
      else copy_audio ptr mem vm (O.read_audio (replicate (as_u32 max_len) 0) vm.host))

  -- Both 4-byte slots are validated before either is written.
  unfoldable pub get_pitch_roll : ℤ → ℤ → Vm H → ℤ × Vm H
  get_pitch_roll pitch_ptr roll_ptr vm =
      let reading = O.get_pitch_roll vm.host in
      validated pitch_ptr 4 vm (λ mem. validated roll_ptr 4 vm (λ same.
        let pitched =
          splice mem (as_u32 pitch_ptr) (to_le_bytes 4 (as_u32 reading.pitch_millideg)) in
        (ok, write_memory roll_ptr (to_le_bytes 4 (as_u32 reading.roll_millideg)) pitched vm)))

  unfoldable pub set_motor_speed : ℤ → ℤ → Vm H → ℤ × Vm H
  set_motor_speed left right vm =
      if ltb_ℤ (pos max_motor_speed) (abs_i32 left) || ltb_ℤ (pos max_motor_speed) (abs_i32 right)
      then (err_invalid_arg, vm)
      else with_host (O.set_motor_speed left right vm.host) vm

  unfoldable pub emit_imu_telemetry : ℤ → ℤ → Vm H → ℤ × Vm H
  emit_imu_telemetry ptr len vm = validated ptr (as_u32 len) vm (λ mem.
      if not (as_u32 len == imu_size)
      then (err_bounds, vm)
      else with_host (O.emit_imu_telemetry (read_memory ptr len mem) vm.host) vm)

  unfoldable pub emit_odom_telemetry : ℤ → ℤ → Vm H → ℤ × Vm H
  emit_odom_telemetry ptr len vm = validated ptr (as_u32 len) vm (λ mem.
      if not (as_u32 len == odometry_size)
      then (err_bounds, vm)
      else with_host (O.emit_odom_telemetry (read_memory ptr len mem) vm.host) vm)

  unfoldable pub get_telemetry_queue_len : Vm H → ℤ
  get_telemetry_queue_len vm = O.get_telemetry_queue_len vm.host

  -- `if status == OK { … }`, with the bytes that the host has filled.
  abbrev pub copy_out : ℤ → List ℕ → Vm H → ℤ × List ℕ → ℤ × Vm H
  copy_out ptr mem vm (pos zero, tmp) = (ok, write_memory ptr tmp mem vm)
  copy_out ptr mem vm (pos (suc n), tmp) = (pos (suc n), vm)
  copy_out ptr mem vm (negsuc n, tmp) = (negsuc n, vm)

  unfoldable pub get_local_inference : ℤ → Vm H → ℤ × Vm H
  get_local_inference out_ptr vm = validated out_ptr inference_result_size vm (λ mem.
      copy_out out_ptr mem vm (O.get_local_inference (replicate inference_result_size 0) vm.host))

  unfoldable pub get_ota_status : ℤ → Vm H → ℤ × Vm H
  get_ota_status out_ptr vm =
      validated out_ptr ota_status_size vm
        (λ mem. copy_out out_ptr mem vm (O.get_ota_status (replicate ota_status_size 0) vm.host))

-- A call of the guest, with its i32 arguments, and who registers it.
pub data HostCall : Type 0 where
  toggling uptime starting stopping avail queue_len : HostCall
  drawing brightening inferring ota_reading : ℤ → HostCall
  logging writing hearing sensing driving emitting_imu emitting_odom : ℤ → ℤ → HostCall

module _ {H : Type 0} (O : HostOps H) where
  -- A call answers a number and may change the memory and the host.
  unfoldable pub call : HostCall → Vm H → ℤ × Vm H
  call toggling vm = toggle_led O vm
  call uptime vm = (pos (get_uptime_ms O vm), vm)
  call starting vm = start_audio_capture O vm
  call stopping vm = stop_audio_capture O vm
  call avail vm = (get_audio_avail O vm, vm)
  call queue_len vm = (get_telemetry_queue_len O vm, vm)
  call (drawing expression) vm = draw_eye O expression vm
  call (brightening value) vm = set_brightness O value vm
  call (inferring out_ptr) vm = get_local_inference O out_ptr vm
  call (ota_reading out_ptr) vm = get_ota_status O out_ptr vm
  call (logging ptr len) vm = debug_log O ptr len vm
  call (writing ptr len) vm = write_text O ptr len vm
  call (hearing ptr max_len) vm = read_audio O ptr max_len vm
  call (sensing pitch_ptr roll_ptr) vm = get_pitch_roll O pitch_ptr roll_ptr vm
  call (driving left right) vm = set_motor_speed O left right vm
  call (emitting_imu ptr len) vm = emit_imu_telemetry O ptr len vm
  call (emitting_odom ptr len) vm = emit_odom_telemetry O ptr len vm

  -- A guest's calls, one after the other, and the answers to them.
  unfoldable pub calls : List HostCall → Vm H → List ℤ × Vm H
  calls [] vm = ([], vm)
  calls (c ∷ cs) vm =
      let (answer, vm') = call c vm in let (answers, end) = calls cs vm' in (answer ∷ answers, end)
