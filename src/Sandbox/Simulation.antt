-- ===== src/Sandbox/Simulation.antt =====
-- Two hosts behind the closures of firmware/src/core0/wasm_vm.rs: when their methods agree under a
-- relation, a guest cannot tell them apart.
use sand_os.Base.{
  ℕ, zero, suc, ◌+◌, ◌%◌, ◌^◌, ◌≤◌, ◌≡◌, refl, ap, Bool, false, true, if◌then◌else◌, inl, inr,
  arith, List, [], ◌∷◌, Option, none, some, length, ltb, slice, length-take, drop, replicate,
  length-replicate, ◌-◌, ◌||◌, not, ◌==◌,
}
use sand_os.Base.Int.{ℤ, pos, negsuc, as_u32, ltb_ℤ}
use sand_os.Abi.Status.{err_bounds, max_text_bytes, max_audio_read, max_motor_speed}
use sand_os.Abi.Memory.{validate_ptr_len_exact}
use sand_os.Host.{abs_i32}
use sand_os.Abi.Telemetry.{imu_size, odometry_size}
use mathlib.Core.Path.{subst}
use sand_os.Sandbox.{
  HostOps, Vm, validated, read_memory, copy_out, copy_audio, with_host, toggle_led, get_uptime_ms,
  start_audio_capture, stop_audio_capture, get_audio_avail, get_telemetry_queue_len, draw_eye,
  set_brightness, set_motor_speed, debug_log, write_text, read_audio, get_pitch_roll,
  get_local_inference, get_ota_status, emit_imu_telemetry, emit_odom_telemetry, HostCall, call,
  calls, toggling, uptime, starting, stopping, avail, queue_len, drawing, brightening, inferring,
  ota_reading, logging, writing, hearing, sensing, driving, emitting_imu, emitting_odom,
}
use sand_os.Sandbox.Simulates.{Same, SameRead, Simulates, Related, SameRuns, Agreed, AllAgreed}

-- What the limits leave of a text and of a scratch buffer.
read_fits :
    (ptr len : ℤ) (mem : List ℕ)
    → ltb max_text_bytes (as_u32 len) ≡ false
    → length (read_memory ptr len mem) ≤ 256
unfolding read_memory slice
read_fits ptr len mem f =
    let size =
      length-take ((as_u32 ptr + as_u32 len) % 2 ^ 32 - as_u32 ptr) (drop (as_u32 ptr) mem) in
    let small : as_u32 len ≤ 256 = ground arith in omega arith

abbrev zeros : ℕ → List ℕ
zeros n = replicate n 0

scratch_fits :
    (len : ℤ) → ltb max_audio_read (as_u32 len) ≡ false → length (zeros (as_u32 len)) ≤ 1024
scratch_fits len f =
    let size : length (zeros (as_u32 len)) ≡ as_u32 len = length-replicate (as_u32 len) 0 in
    ground arith

module _ {H K : Type 0} (O : HostOps H) (P : HostOps K) (R : H → K → Type 0) (Log : List ℕ → Type 0)
    (Room : H → Type 0) (S : Simulates O P R Log Room) where
  validated-Same :
      (ptr : ℤ) (len : ℕ) (m : Option (List ℕ)) (h : H) (k : K) (next : List ℕ → ℤ × Vm H)
      (next' : List ℕ → ℤ × Vm K)
      → R h k
      → ((mem : List ℕ) → m ≡ some mem → Same (Related R) (next mem) (next' mem))
      → Same
          (Related R)
          (validated O ptr len (record { memory = m; host = h }) next)
          (validated P ptr len (record { memory = m; host = k }) next')
  unfolding validated
  validated-Same ptr len none h k next next' r step = (refl, (refl, r))
  validated-Same ptr len (some mem) h k next next' r step =
      elim (validate_ptr_len_exact (as_u32 ptr) len (length mem % 2 ^ 32) (omega arith)).1 [
        | inl fits ↦ rw (fits, validated) (step mem refl)
        | inr out ↦ rw (out, validated) (refl, (refl, r))
      ]

  -- Methods that agree, behind a guest with memory `m`.
  behind :
      (m : Option (List ℕ)) {x : ℤ × H} {y : ℤ × K}
      → Same R x y
      → Same
          (Related R)
          (x.0, record { memory = m; host = x.1 })
          (y.0, record { memory = m; host = y.1 })
  behind m t = (t.0, (refl, t.1))

  behind_if :
      (refused : Bool) (m : Option (List ℕ)) (h : H) (k : K) (x : ℤ × H) (y : ℤ × K) (code : ℤ)
      → R h k
      → (refused ≡ false → Same R x y)
      → Same
          (Related R)
          (if refused
            then (code, record { memory = m; host = h })
            else with_host O x (record { memory = m; host = h }))
          (if refused
            then (code, record { memory = m; host = k })
            else with_host P y (record { memory = m; host = k }))
  behind_if true m h k x y code r t = (refl, (refl, r))
  behind_if false m h k x y code r t = let (e, s) = t refl in (e, (refl, s))

  heard :
      (ptr : ℤ) (m : Option (List ℕ)) (mem : List ℕ) (h : H) (k : K) (x : ℤ × (List ℕ × H))
      (y : ℤ × (List ℕ × K)) (refused : Bool)
      → R h k
      → (refused ≡ false → SameRead R x y)
      → Same
          (Related R)
          (if refused
            then (err_bounds, record { memory = m; host = h })
            else copy_audio O ptr mem (record { memory = m; host = h }) x)
          (if refused
            then (err_bounds, record { memory = m; host = k })
            else copy_audio P ptr mem (record { memory = m; host = k }) y)
  heard ptr m mem h k x y true r t = (refl, (refl, r))
  heard ptr m mem h k x y false r t = let (e, (f, s)) = t refl in (e, (rw (e, f) refl, s))

  copied :
      (ptr : ℤ) (m : Option (List ℕ)) (mem : List ℕ) (x y : ℤ × List ℕ) (h : H) (k : K)
      → R h k
      → x ≡ y
      → Same
          (Related R)
          (copy_out O ptr mem (record { memory = m; host = h }) x)
          (copy_out P ptr mem (record { memory = m; host = k }) y)
  copied ptr m mem x y h k r e =
      subst
        (λ z.
          Same (Related R) (copy_out O ptr mem (record { memory = m; host = h }) x)
            (copy_out P ptr mem (record { memory = m; host = k }) z))
        e (go x)
    where
      go :
          (z : ℤ × List ℕ)
          → Same
              (Related R)
              (copy_out O ptr mem (record { memory = m; host = h }) z)
              (copy_out P ptr mem (record { memory = m; host = k }) z)
      go (pos zero, tmp) = (refl, (refl, r))
      go (pos (suc n), tmp) = (refl, (refl, r))
      go (negsuc n, tmp) = (refl, (refl, r))

  pub call-Same :
      (c : HostCall) (m : Option (List ℕ)) (h : H) (k : K)
      → R h k
      → Agreed O Log Room c (record { memory = m; host = h })
      → Same
          (Related R)
          (call O c (record { memory = m; host = h }))
          (call P c (record { memory = m; host = k }))
  unfolding call toggle_led get_uptime_ms start_audio_capture stop_audio_capture get_audio_avail
      get_telemetry_queue_len draw_eye set_brightness set_motor_speed debug_log write_text
      read_audio get_pitch_roll get_local_inference get_ota_status emit_imu_telemetry
      emit_odom_telemetry
  call-Same toggling m h k r a = behind m (S.toggles h k r)
  call-Same uptime m h k r a = (ap pos (S.uptimes h k r), (refl, r))
  call-Same starting m h k r a = behind m (S.starts h k r)
  call-Same stopping m h k r a = behind m (S.stops h k r)
  call-Same avail m h k r a = (S.avails h k r, (refl, r))
  call-Same queue_len m h k r a = (S.queues h k r, (refl, r))
  call-Same (drawing x) m h k r a = behind m (S.draws x h k r)
  call-Same (brightening x) m h k r a = behind m (S.brightens x h k r)
  call-Same (logging ptr len) m h k r a =
      validated-Same ptr (as_u32 len) m h k _ _ r (λ mem e. behind m (S.logs _ h k r (a mem e)))
  call-Same (writing ptr len) m h k r a = validated-Same ptr (as_u32 len) m h k _ _ r (λ mem e.
      behind_if (ltb max_text_bytes (as_u32 len)) m h k _ _ _ r
        (λ f. S.writes _ h k r (read_fits ptr len mem f)))
  call-Same (hearing ptr len) m h k r a = validated-Same ptr (as_u32 len) m h k _ _ r (λ mem e.
      heard ptr m mem h k _ _ (ltb max_audio_read (as_u32 len)) r
        (λ f. S.reads _ h k r (scratch_fits len f)))
  call-Same (sensing pitch_ptr roll_ptr) m h k r a =
      validated-Same pitch_ptr 4 m h k _ _ r (λ mem e.
        validated-Same roll_ptr 4 m h k _ _ r (λ same f. (refl, (rw (S.senses h k r) refl, r))))
  call-Same (driving left right) m h k r a =
      behind_if
        (ltb_ℤ (pos max_motor_speed) (abs_i32 left) || ltb_ℤ (pos max_motor_speed) (abs_i32 right))
        m h k _ _ _ r (λ f. S.drives left right h k r a)
  call-Same (emitting_imu ptr len) m h k r a =
      validated-Same ptr (as_u32 len) m h k _ _ r
        (λ mem e. behind_if (not (as_u32 len == imu_size)) m h k _ _ _ r (λ f. S.emits_imu _ h k r))
  call-Same (emitting_odom ptr len) m h k r a =
      validated-Same ptr (as_u32 len) m h k _ _ r (λ mem e.
        behind_if (not (as_u32 len == odometry_size)) m h k _ _ _ r (λ f. S.emits_odom _ h k r))
  call-Same (inferring ptr) m h k r a =
      validated-Same ptr 12 m h k _ _ r (λ mem e. copied ptr m mem _ _ h k r (S.infers _ h k r))
  call-Same (ota_reading ptr) m h k r a =
      validated-Same ptr 16 m h k _ _ r (λ mem e. copied ptr m mem _ _ h k r (S.updates _ h k r))

  -- Two guests with one memory that make the same calls, in any order, on hosts that agree get the
  -- same answers to all of them, and have the same memory and related hosts afterwards.
  pub calls-SameRuns :
      (cs : List HostCall) (m : Option (List ℕ)) (h : H) (k : K)
      → R h k
      → AllAgreed O Log Room cs (record { memory = m; host = h })
      → SameRuns R
          (calls O cs (record { memory = m; host = h }))
          (calls P cs (record { memory = m; host = k }))
  unfolding AllAgreed calls
  calls-SameRuns [] m h k r a = (refl, (refl, r))
  calls-SameRuns (c ∷ cs) m h k r a =
      let (code, (memory, hosts)) = call-Same c m h k r a.0 in
      let v : Vm H = (call O c (record { memory = m; host = h })).1 in
      let w : Vm K = (call P c (record { memory = m; host = k })).1 in
      let later : SameRuns R (calls O cs v)
          (calls P cs (record { memory = v.memory; host = w.host })) =
        calls-SameRuns cs v.memory v.host w.host hosts a.1 in
      let same : SameRuns R (calls O cs v) (calls P cs w) =
        subst (λ n. SameRuns R (calls O cs v) (calls P cs (record { memory = n; host = w.host })))
          memory later in
      (rw (code, same.0) refl, same.1)
