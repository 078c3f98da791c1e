-- ===== src/Harness/Counts.antt =====
-- host-tests/src/mock_host.rs: a call of the guest counts at most one further.
use sand_os.Base.{
  ℕ, zero, suc, ◌%◌, ◌^◌, ◌<◌, ◌≡◌, refl, inl, inr, arith, List, Bool, true, false, not, ◌||◌, ltb,
  ◌==◌, if◌then◌else◌, length, Option-cases,
}
use sand_os.Base.Int.{ℤ, pos, negsuc, ltb_ℤ, as_u32}
use sand_os.Abi.Status.{max_text_bytes, max_audio_read, max_motor_speed}
use sand_os.Abi.Telemetry.{imu_size, odometry_size}
use sand_os.Abi.Memory.{validate_ptr_len_exact}
use sand_os.Host.{abs_i32}
use sand_os.Mock as Mock
use sand_os.Mock.{MockHost}
use sand_os.Sandbox.{
  HostOps, Vm, validated, copy_out, toggle_led, get_uptime_ms, start_audio_capture,
  stop_audio_capture, get_audio_avail, get_telemetry_queue_len, draw_eye, set_brightness,
  set_motor_speed, debug_log, write_text, read_audio, get_pitch_roll, get_local_inference,
  get_ota_status, emit_imu_telemetry, emit_odom_telemetry, HostCall, call, toggling, uptime,
  starting, stopping, avail, queue_len, drawing, brightening, inferring, ota_reading, logging,
  writing, hearing, sensing, driving, emitting_imu, emitting_odom,
}
use sand_os.Sandbox.Hosts.{mock_ops}
use sand_os.Harness.Counted.{overflows, toggle_overflows, feed_overflows}

-- The host that a call leaves is the one it found, or what one of the methods leaves.
module _ {H : Type 0} (O : HostOps H) (P : H → Type 0) where
  abbrev Holds : ℤ × Vm H → Type 0
  Holds (code, vm) = P vm.host

  validated-Holds :
      (ptr : ℤ) (len : ℕ) (vm : Vm H) (next : List ℕ → ℤ × Vm H)
      → P vm.host
      → ((mem : List ℕ) → Holds (next mem))
      → Holds (validated O ptr len vm next)
  unfolding validated
  validated-Holds ptr len vm next v step = elim (Option-cases vm.memory) [
    | inl e ↦ rw (e, validated) v
    | inr (mem, e) ↦
        elim (validate_ptr_len_exact (as_u32 ptr) len (length mem % 2 ^ 32) (omega arith)).1 [
          | inl fits ↦ rw (e, fits, validated) (step mem)
          | inr out ↦ rw (e, out, validated) v
        ]
  ]

  unless : (refused : Bool) (x y : ℤ × Vm H) → Holds x → Holds y → Holds (if refused then x else y)
  unless true x y hx hy = hx
  unless false x y hx hy = hy

  copied :
      (ptr : ℤ) (mem : List ℕ) (vm : Vm H) (x : ℤ × List ℕ)
      → P vm.host
      → Holds (copy_out O ptr mem vm x)
  copied ptr mem vm (pos zero, tmp) v = v
  copied ptr mem vm (pos (suc n), tmp) v = v
  copied ptr mem vm (negsuc n, tmp) v = v

  -- What every method leaves of a host `h`.
  pub record Methods (h : H) : Type 0 where
    pub here : P h
    pub toggles : P (O.toggle_led h).1
    pub starts : P (O.start_audio_capture h).1
    pub stops : P (O.stop_audio_capture h).1
    pub draws : (x : ℤ) → P (O.draw_eye x h).1
    pub brightens : (x : ℤ) → P (O.set_brightness x h).1
    pub logs : (b : List ℕ) → P (O.debug_log b h).1
    pub writes : (b : List ℕ) → P (O.write_text b h).1
    pub reads : (out : List ℕ) → P (O.read_audio out h).1.1
    pub drives : (l r : ℤ) → P (O.set_motor_speed l r h).1
    pub emits_imu : (b : List ℕ) → P (O.emit_imu_telemetry b h).1
    pub emits_odom : (b : List ℕ) → P (O.emit_odom_telemetry b h).1

  pub call-Holds : (c : HostCall) (vm : Vm H) → Methods vm.host → P (call O c vm).1.host
  unfolding call toggle_led get_uptime_ms start_audio_capture stop_audio_capture get_audio_avail
      get_telemetry_queue_len draw_eye set_brightness set_motor_speed debug_log write_text
      read_audio get_pitch_roll get_local_inference get_ota_status emit_imu_telemetry
      emit_odom_telemetry
  call-Holds toggling vm m = m.toggles
  call-Holds uptime vm m = m.here
  call-Holds starting vm m = m.starts
  call-Holds stopping vm m = m.stops
  call-Holds avail vm m = m.here
  call-Holds queue_len vm m = m.here
  call-Holds (drawing x) vm m = m.draws x
  call-Holds (brightening x) vm m = m.brightens x
  call-Holds (logging ptr len) vm m = validated-Holds ptr (as_u32 len) vm _ m.here (λ mem. m.logs _)
  call-Holds (writing ptr len) vm m =
      validated-Holds ptr (as_u32 len) vm _ m.here
        (λ mem. unless (ltb max_text_bytes (as_u32 len)) _ _ m.here (m.writes _))
  call-Holds (hearing ptr len) vm m =
      validated-Holds ptr (as_u32 len) vm _ m.here
        (λ mem. unless (ltb max_audio_read (as_u32 len)) _ _ m.here (m.reads _))
  call-Holds (sensing p r) vm m =
      validated-Holds p 4 vm _ m.here (λ mem. validated-Holds r 4 vm _ m.here (λ same. m.here))
  call-Holds (driving l r) vm m =
      unless (ltb_ℤ (pos max_motor_speed) (abs_i32 l) || ltb_ℤ (pos max_motor_speed) (abs_i32 r)) _
        _ m.here (m.drives l r)
  call-Holds (emitting_imu ptr len) vm m =
      validated-Holds ptr (as_u32 len) vm _ m.here
        (λ mem. unless (not (as_u32 len == imu_size)) _ _ m.here (m.emits_imu _))
  call-Holds (emitting_odom ptr len) vm m =
      validated-Holds ptr (as_u32 len) vm _ m.here
        (λ mem. unless (not (as_u32 len == odometry_size)) _ _ m.here (m.emits_odom _))
  call-Holds (inferring ptr) vm m =
      validated-Holds ptr 12 vm _ m.here (λ mem. copied ptr mem vm _ m.here)
  call-Holds (ota_reading ptr) vm m =
      validated-Holds ptr 16 vm _ m.here (λ mem. copied ptr mem vm _ m.here)

-- The counters of the mock are below a bound.
abbrev pub Below : ℕ → MockHost → Type 0
Below n h = (h.toggle_count < n) × (h.watchdog_feed_count < n)

set_motor_speed-Below :
    (n : ℕ) (l r : ℤ) (h : MockHost) → Below n h → Below (suc n) (Mock.set_motor_speed l r h).1
unfolding Mock.set_motor_speed
set_motor_speed-Below n l r h b = ground arith

set_brightness-Below :
    (n : ℕ) (x : ℤ) (h : MockHost) → Below n h → Below (suc n) (Mock.set_brightness x h).1
unfolding Mock.set_brightness Mock.display_set_brightness
set_brightness-Below n (negsuc x) h b = ground arith
set_brightness-Below n (pos x) h b = ground arith

methods : (n : ℕ) (h : MockHost) → Below n h → Methods mock_ops (Below (suc n)) h
methods n h b = record {
  here = omega arith;
  toggles = unfold Mock.toggle_led in omega arith;
  starts = unfold Mock.start_audio_capture in omega arith;
  stops = unfold Mock.stop_audio_capture in omega arith;
  draws = λ x. unfold Mock.draw_eye Mock.display_draw_eye in ground arith;
  brightens = λ x. set_brightness-Below n x h b;
  logs = λ bytes. unfold Mock.debug_log in ground arith;
  writes = λ bytes. unfold Mock.write_text Mock.display_write_text in ground arith;
  reads = λ out. unfold Mock.read_audio in ground arith;
  drives = λ l r. set_motor_speed-Below n l r h b;
  emits_imu = λ bytes. unfold Mock.emit_imu_telemetry in ground arith;
  emits_odom = λ bytes. unfold Mock.emit_odom_telemetry in ground arith;
}

-- A call of the guest counts at most one further.
pub call-Below :
    (n : ℕ) (c : HostCall) (vm : Vm MockHost)
    → Below n vm.host
    → Below (suc n) (call mock_ops c vm).1.host
call-Below n c vm b = call-Holds mock_ops (Below (suc n)) c vm (methods n vm.host b)

-- Below the range of the counters nothing overflows.
pub overflows-Below :
    (n : ℕ) (c : HostCall) (h : MockHost) → n < 2 ^ 32 → Below n h → overflows c h ≡ false
unfolding toggle_overflows feed_overflows
overflows-Below n toggling h small b = ground arith
overflows-Below n (driving l r) h small b = ground arith
overflows-Below n c h small b = refl
