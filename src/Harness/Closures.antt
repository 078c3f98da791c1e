-- ===== src/Harness/Closures.antt =====
-- host-tests/src/vm_harness.rs against firmware/src/core0/wasm_vm.rs: below 2 GiB of memory, each
-- closure of the tests answers what the closure of the firmware answers on the same host, and leaves
-- the same memory and host.
use sand_os.Base.{
  ℕ, ◌≤◌, ◌≡◌, refl, ◌∙◌, arith, List, Option, some, Bool, not, ltb, ◌==◌, length, replicate,
  length-replicate,
}
use sand_os.Base.Int.{InI32, as_u32}
use sand_os.Abi.Status.{err_bounds, max_text_bytes, max_audio_read}
use sand_os.Abi.Telemetry.{imu_size, odometry_size}
use sand_os.Harness as Harness
use sand_os.Harness.{range, read_memory, write_memory, as_usize, ◌>>=◌}
use sand_os.Sandbox as Sandbox
use sand_os.Sandbox.{
  HostOps, Vm, HostCall, toggling, uptime, starting, stopping, avail, queue_len, drawing,
  brightening, inferring, ota_reading, logging, writing, hearing, sensing, driving, emitting_imu,
  emitting_odom,
}
use sand_os.Sandbox.Frame.{FillsBuffers}
use sand_os.Harness.Pieces.{
  IsSmall, Passable, validated-eq, if_some, read_then, copy_out-eq, copy_audio-eq,
  get_pitch_roll-eq, set_motor_speed-eq, as_usize-as_u32, as_usize-eq,
}

module _ {H : Type 0} (checked : Bool) (O : HostOps H) (F : FillsBuffers O)
    (A : (out : List ℕ) (h : H) → length out ≤ 1024 → InI32 (O.read_audio out h).0) where
  -- A closure of the tests, behind a memory below 2 GiB, does what the closure of the firmware does.
  pub call-sandbox :
      (c : HostCall) (m : Option (List ℕ)) (h : H)
      → IsSmall m
      → Passable checked c
      → Harness.call checked O c (record { memory = m; host = h })
        ≡ some (Sandbox.call O c (record { memory = m; host = h }))
  unfolding Harness.call Sandbox.call Harness.toggle_led Sandbox.toggle_led Harness.get_uptime_ms
      Sandbox.get_uptime_ms Harness.start_audio_capture Sandbox.start_audio_capture
      Harness.stop_audio_capture Sandbox.stop_audio_capture Harness.get_audio_avail
      Sandbox.get_audio_avail Harness.get_telemetry_queue_len Sandbox.get_telemetry_queue_len
      Harness.draw_eye Sandbox.draw_eye Harness.set_brightness Sandbox.set_brightness
      Harness.get_local_inference Sandbox.get_local_inference Harness.get_ota_status
      Sandbox.get_ota_status Harness.debug_log Sandbox.debug_log Harness.write_text
      Sandbox.write_text Harness.read_audio Sandbox.read_audio Harness.emit_imu_telemetry
      Sandbox.emit_imu_telemetry Harness.emit_odom_telemetry Sandbox.emit_odom_telemetry
  call-sandbox toggling m h small p = refl
  call-sandbox uptime m h small p = refl
  call-sandbox starting m h small p = refl
  call-sandbox stopping m h small p = refl
  call-sandbox avail m h small p = refl
  call-sandbox queue_len m h small p = refl
  call-sandbox (drawing x) m h small p = refl
  call-sandbox (brightening x) m h small p = refl
  call-sandbox (inferring ptr) m h small p =
      validated-eq checked O ptr 12 m h _ _ small
        (λ mem e few room. copy_out-eq checked O ptr 12 mem _ _ p few room (F.infers_within _ h))
  call-sandbox (ota_reading ptr) m h small p =
      validated-eq checked O ptr 16 m h _ _ small
        (λ mem e few room. copy_out-eq checked O ptr 16 mem _ _ p few room (F.updates_within _ h))
  call-sandbox (logging ptr len) m h small (hp, hn) =
      validated-eq checked O ptr (as_u32 len) m h _ _ small
        (λ mem e few room. read_then checked O ptr len mem _ hp hn few room)
  call-sandbox (writing ptr len) m h small (hp, hn) =
      validated-eq checked O ptr (as_u32 len) m h _ _ small (λ mem e few room.
        if_some checked O (ltb max_text_bytes (as_u32 len)) _ _ _
          (λ fits. read_then checked O ptr len mem _ hp hn few room))
  call-sandbox (hearing ptr len) m h small (hp, hn) =
      validated-eq checked O ptr (as_u32 len) m h _ _ small (λ mem e few room.
        if_some checked O (ltb max_audio_read (as_u32 len))
          (err_bounds, record { memory = m; host = h }) _ _
          (λ fits.
            let width = as_usize-eq len hn (omega arith) in
            let scratch : List ℕ = replicate (as_u32 len) 0 in
            let size = length-replicate {A = ℕ} (as_u32 len) 0 in
            let short : as_u32 len ≤ 1024 = ground arith in
            let (within, kept) = F.reads_within scratch h (omega arith) in
            rw width (
              copy_audio-eq checked O ptr (as_u32 len) mem (record { memory = m; host = h })
                (O.read_audio scratch h).0 (O.read_audio scratch h).1.0 (O.read_audio scratch h).1.1
                hp (A scratch h (omega arith)) short few room (omega arith) (kept ∙ size))))
  call-sandbox (sensing p r) m h small (hp, hr) = get_pitch_roll-eq checked O p r m h hp hr small
  call-sandbox (driving l r) m h small p = set_motor_speed-eq checked O l r _ p
  call-sandbox (emitting_imu ptr len) m h small (hp, hn) =
      rw (as_usize-as_u32 len imu_size hn (omega arith)) (
        validated-eq checked O ptr (as_u32 len) m h _ _ small (λ mem e few room.
          if_some checked O (not (as_u32 len == imu_size)) _ _ _
            (λ fits. read_then checked O ptr len mem _ hp hn few room)))
  call-sandbox (emitting_odom ptr len) m h small (hp, hn) =
      rw (as_usize-as_u32 len odometry_size hn (omega arith)) (
        validated-eq checked O ptr (as_u32 len) m h _ _ small (λ mem e few room.
          if_some checked O (not (as_u32 len == odometry_size)) _ _ _
            (λ fits. read_then checked O ptr len mem _ hp hn few room)))
