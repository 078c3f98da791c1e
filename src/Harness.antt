-- ===== src/Harness.antt =====
-- host-tests/src/vm_harness.rs, `build_linker`: the closures through which a guest reaches the host of
-- the tests. They run on a 64-bit machine: an i32 pointer is sign-extended to a usize, and whatever
-- panics there is none. `checked` says whether arithmetic overflow panics, as in the dev profile that
-- `cargo test` builds, or wraps, as in the release profile.
pub mod Agrees
pub mod Pieces
pub mod Closures
pub mod Runs
pub mod Load
pub mod Counted
pub mod Counts
use sand_os.Base.{
  ℕ, zero, suc, ◌+◌, ◌-◌, ◌%◌, ◌^◌, List, [], ◌∷◌, Option, none, some, Bool, true, false, not, ◌||◌,
  ltb, ◌==◌, if◌then◌else◌, length, take, replicate, slice, splice,
}
use sand_os.Base.Int.{ℤ, pos, negsuc, ◌+ℤ◌, ltb_ℤ, as_u32, as_i32}
use sand_os.Base.Bytes.{to_le_bytes}
use sand_os.Abi.Status.{
  ok, err_invalid_arg, err_bounds, max_text_bytes, max_audio_read, max_motor_speed,
}
use sand_os.Abi.Memory.{validate_ptr_len}
use sand_os.Abi.Memory as Check
use sand_os.Abi.Telemetry.{imu_size, odometry_size}
use sand_os.Abi.Inference.{inference_result_size}
use sand_os.Abi.OtaStatus.{ota_status_size}
use sand_os.Sandbox.{
  HostOps, Vm, HostCall, toggling, uptime, starting, stopping, avail, queue_len, drawing,
  brightening, inferring, ota_reading, logging, writing, hearing, sensing, driving, emitting_imu,
  emitting_odom,
}

infixl 5 ◌>>=◌
abbrev pub ◌>>=◌ : {A B : Type 0} → Option A → (A → Option B) → Option B
none >>= f = none
some a >>= f = f a

-- `n as usize` of an i32: sign-extended.
abbrev pub as_usize : ℤ → ℕ
as_usize (pos n) = n
as_usize (negsuc n) = 2 ^ 64 - 1 - n

-- `ptr + len` of two i32.
unfoldable pub add_i32 : Bool → ℤ → ℤ → Option ℤ
add_i32 checked a b =
    let sum = a +ℤ b in
    let wrapped = as_i32 (as_u32 sum) in
    if ltb_ℤ (pos (2 ^ 31 - 1)) sum || ltb_ℤ sum (negsuc (2 ^ 31 - 1))
    then (if checked then none else some wrapped)
    else some sum

-- `a + b` of two usize.
unfoldable pub add_usize : Bool → ℕ → ℕ → Option ℕ
add_usize checked a b =
    if ltb (a + b) (2 ^ 64) then some (a + b) else if checked then none else some ((a + b) % 2 ^ 64)

-- `left.abs()` of an i32.
unfoldable pub abs_i32 : Bool → ℤ → Option ℤ
abs_i32 checked (pos n) = some (pos n)
abs_i32 checked (negsuc n) =
    if n == 2 ^ 31 - 1 then (if checked then none else some (negsuc n)) else some (pos (suc n))

-- `bytes[start..end]`
unfoldable pub range : ℕ → ℕ → List ℕ → Option (List ℕ)
range start end bytes =
    if ltb end start || ltb (length bytes) end then none else some (slice bytes start (end - start))

-- `mem.data(&caller)[ptr as usize..(ptr + len) as usize].to_vec()`
unfoldable pub read_memory : Bool → ℤ → ℤ → List ℕ → Option (List ℕ)
unfolding add_i32 range
read_memory checked ptr len mem = do
  end ← add_i32 checked ptr len
  range (as_usize ptr) (as_usize end) mem

-- `data[ptr as usize..ptr as usize + n].copy_from_slice(bytes)`, where the sizes must agree.
unfoldable pub write_memory : Bool → ℤ → ℕ → List ℕ → List ℕ → Option (List ℕ)
unfolding add_usize range
write_memory checked ptr n bytes mem = do
  end ← add_usize checked (as_usize ptr) n
  target ← range (as_usize ptr) end mem
  if length target == length bytes then some (splice mem (as_usize ptr) bytes) else none

module _ {H : Type 0} (checked : Bool) (O : HostOps H) where
  -- `get_memory`, then `validate_ptr_len`.
  unfoldable pub validated : ℤ → ℕ → Vm H → (List ℕ → Option (ℤ × Vm H)) → Option (ℤ × Vm H)
  validated ptr len vm next = elim vm.memory [
    | none ↦ some (err_bounds, vm)
    | some mem ↦ elim (validate_ptr_len (as_u32 ptr) len (length mem % 2 ^ 32)) [
      | Check.ok _ ↦ next mem
      | Check.err _ ↦ some (err_bounds, vm)
    ]
  ]

  -- The answer of a method of the mock.
  abbrev pub answered : ℤ × H → Vm H → Option (ℤ × Vm H)
  answered (code, h) vm = some (code, record vm { host = h })

  unfoldable pub toggle_led : Vm H → Option (ℤ × Vm H)
  toggle_led vm = answered (O.toggle_led vm.host) vm

  unfoldable pub get_uptime_ms : Vm H → Option (ℤ × Vm H)
  get_uptime_ms vm = some (pos (O.get_uptime_ms vm.host), vm)

  unfoldable pub debug_log : ℤ → ℤ → Vm H → Option (ℤ × Vm H)
  debug_log ptr len vm =
      validated ptr (as_u32 len) vm
        (λ mem. do bytes ← read_memory checked ptr len mem; answered (O.debug_log bytes vm.host) vm)

  unfoldable pub draw_eye : ℤ → Vm H → Option (ℤ × Vm H)
  draw_eye expression vm = answered (O.draw_eye expression vm.host) vm

  unfoldable pub write_text : ℤ → ℤ → Vm H → Option (ℤ × Vm H)
  write_text ptr len vm = validated ptr (as_u32 len) vm (λ mem.
      if ltb max_text_bytes (as_u32 len)
      then some (err_bounds, vm)
      else do bytes ← read_memory checked ptr len mem; answered (O.write_text bytes vm.host) vm)

  unfoldable pub set_brightness : ℤ → Vm H → Option (ℤ × Vm H)
  set_brightness value vm = answered (O.set_brightness value vm.host) vm

  unfoldable pub start_audio_capture : Vm H → Option (ℤ × Vm H)
  start_audio_capture vm = answered (O.start_audio_capture vm.host) vm

  unfoldable pub stop_audio_capture : Vm H → Option (ℤ × Vm H)
  stop_audio_capture vm = answered (O.stop_audio_capture vm.host) vm

  unfoldable pub get_audio_avail : Vm H → Option (ℤ × Vm H)
  get_audio_avail vm = some (O.get_audio_avail vm.host, vm)

  -- What `read_audio` of the mock answers, as a usize, bounds both slices.
  unfoldable pub copy_audio : ℤ → List ℕ → Vm H → ℤ × (List ℕ × H) → Option (ℤ × Vm H)
  copy_audio ptr mem vm (code, (tmp, h)) = do
    let copied = as_usize code
    bytes ← range 0 copied tmp
    mem' ← write_memory checked ptr copied bytes mem
    some (as_i32 (copied % 2 ^ 32), record { memory = some mem'; host = h })

  unfoldable pub read_audio : ℤ → ℤ → Vm H → Option (ℤ × Vm H)
  unfolding copy_audio
  read_audio ptr max_len vm = validated ptr (as_u32 max_len) vm (λ mem.
      if ltb max_audio_read (as_u32 max_len)
      then some (err_bounds, vm)
      else copy_audio ptr mem vm (O.read_audio (replicate (as_usize max_len) 0) vm.host))

  unfoldable pub get_pitch_roll : ℤ → ℤ → Vm H → Option (ℤ × Vm H)
  get_pitch_roll pitch_ptr roll_ptr vm =
      let reading = O.get_pitch_roll vm.host in
      validated pitch_ptr 4 vm (λ mem. validated roll_ptr 4 vm (λ same. do
        pitched ←
            write_memory checked pitch_ptr 4 (to_le_bytes 4 (as_u32 reading.pitch_millideg)) mem
        rolled ←
            write_memory checked roll_ptr 4 (to_le_bytes 4 (as_u32 reading.roll_millideg)) pitched
        some (ok, record vm { memory = some rolled })))

  -- `||` takes the second absolute value only when the first is in range.
  unfoldable pub set_motor_speed : ℤ → ℤ → Vm H → Option (ℤ × Vm H)
  set_motor_speed left right vm = abs_i32 checked left >>= λ left_abs.
      if ltb_ℤ (pos max_motor_speed) left_abs
      then some (err_invalid_arg, vm)
      else (abs_i32 checked right >>= λ right_abs.
          if ltb_ℤ (pos max_motor_speed) right_abs
          then some (err_invalid_arg, vm)
          else answered (O.set_motor_speed left right vm.host) vm)

  unfoldable pub emit_imu_telemetry : ℤ → ℤ → Vm H → Option (ℤ × Vm H)
  emit_imu_telemetry ptr len vm = validated ptr (as_u32 len) vm (λ mem.
      if not (as_usize len == imu_size) then some (err_bounds, vm) else do
        bytes ← read_memory checked ptr len mem
        answered (O.emit_imu_telemetry bytes vm.host) vm)

  unfoldable pub emit_odom_telemetry : ℤ → ℤ → Vm H → Option (ℤ × Vm H)
  emit_odom_telemetry ptr len vm = validated ptr (as_u32 len) vm (λ mem.
      if not (as_usize len == odometry_size) then some (err_bounds, vm) else do
        bytes ← read_memory checked ptr len mem
        answered (O.emit_odom_telemetry bytes vm.host) vm)

  unfoldable pub get_telemetry_queue_len : Vm H → Option (ℤ × Vm H)
  get_telemetry_queue_len vm = some (O.get_telemetry_queue_len vm.host, vm)

  -- `if result == status::OK { … }`, then `result`.
  unfoldable pub copy_out : ℤ → ℕ → List ℕ → Vm H → ℤ × List ℕ → Option (ℤ × Vm H)
  copy_out ptr size mem vm (pos zero, tmp) = do
    mem' ← write_memory checked ptr size tmp mem
    some (ok, record vm { memory = some mem' })
  copy_out ptr size mem vm (pos (suc n), tmp) = some (pos (suc n), vm)
  copy_out ptr size mem vm (negsuc n, tmp) = some (negsuc n, vm)

  unfoldable pub get_local_inference : ℤ → Vm H → Option (ℤ × Vm H)
  unfolding copy_out
  get_local_inference out_ptr vm = validated out_ptr inference_result_size vm (λ mem.
      copy_out out_ptr inference_result_size mem vm
        (O.get_local_inference (replicate inference_result_size 0) vm.host))

  unfoldable pub get_ota_status : ℤ → Vm H → Option (ℤ × Vm H)
  unfolding copy_out
  get_ota_status out_ptr vm = validated out_ptr ota_status_size vm (λ mem.
      copy_out out_ptr ota_status_size mem vm
        (O.get_ota_status (replicate ota_status_size 0) vm.host))

  -- A call of the guest, by its name.
  unfoldable pub call : HostCall → Vm H → Option (ℤ × Vm H)
  call toggling vm = toggle_led vm
  call uptime vm = get_uptime_ms vm
  call starting vm = start_audio_capture vm
  call stopping vm = stop_audio_capture vm
  call avail vm = get_audio_avail vm
  call queue_len vm = get_telemetry_queue_len vm
  call (drawing expression) vm = draw_eye expression vm
  call (brightening value) vm = set_brightness value vm
  call (inferring out_ptr) vm = get_local_inference out_ptr vm
  call (ota_reading out_ptr) vm = get_ota_status out_ptr vm
  call (logging ptr len) vm = debug_log ptr len vm
  call (writing ptr len) vm = write_text ptr len vm
  call (hearing ptr max_len) vm = read_audio ptr max_len vm
  call (sensing pitch_ptr roll_ptr) vm = get_pitch_roll pitch_ptr roll_ptr vm
  call (driving left right) vm = set_motor_speed left right vm
  call (emitting_imu ptr len) vm = emit_imu_telemetry ptr len vm
  call (emitting_odom ptr len) vm = emit_odom_telemetry ptr len vm

  -- A guest's calls, one after the other: the test panics with the first that does.
  unfoldable pub calls : List HostCall → Vm H → Option (List ℤ × Vm H)
  calls [] vm = some ([], vm)
  calls (c ∷ cs) vm =
      call c vm >>= λ (answer, vm'). calls cs vm' >>= λ (answers, end). some (answer ∷ answers, end)
