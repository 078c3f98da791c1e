-- ===== src/Sandbox/Frame.antt =====
-- firmware/src/core0/wasm_vm.rs: which bytes of a guest's memory a call can write.
use sand_os.Base.{
  ℕ, zero, suc, ◌+◌, ◌%◌, ◌^◌, ◌≤◌, ◌<◌, ◌≡◌, ◌⊎◌, refl, ◌∙◌, inl, inr, arith, List, Option, none,
  some, Bool, true, false, if◌then◌else◌, length, take, get_or, splice, length-take, length-splice,
  get_or-splice_beside, ltb, not, ◌==◌, ◌||◌, replicate, length-replicate,
}
use sand_os.Base.Int.{ℤ, pos, negsuc, as_u32, ltb_ℤ}
use sand_os.Base.Bytes.{length-to_le_bytes}
use sand_os.Abi.Status.{ok, err_bounds, max_audio_read, max_text_bytes, max_motor_speed}
use sand_os.Abi.Telemetry.{imu_size, odometry_size}
use sand_os.Host.{abs_i32}
use sand_os.Sandbox.{
  HostOps, Vm, as_usize, validated, copy_out, copy_audio, call, HostCall, toggling, uptime,
  starting, stopping, avail, queue_len, drawing, brightening, inferring, ota_reading, logging,
  writing, hearing, sensing, driving, emitting_imu, emitting_odom, toggle_led, get_uptime_ms,
  start_audio_capture, stop_audio_capture, get_audio_avail, get_telemetry_queue_len, draw_eye,
  set_brightness, set_motor_speed, debug_log, write_text, read_audio, get_pitch_roll,
  get_local_inference, get_ota_status, emit_imu_telemetry, emit_odom_telemetry,
}
use sand_os.Abi.Memory.{validate_ptr_len_exact}

-- What the closures rely on: a host fills a scratch buffer and does not change its size.
pub record FillsBuffers {H : Type 0} (O : HostOps H) : Type 0 where
  pub reads_within :
      (out : List ℕ) (h : H)
      → length out ≤ 1024
      → (as_usize (O.read_audio out h).0 ≤ length out)
        × (length (O.read_audio out h).1.0 ≡ length out)
  pub infers_within : (out : List ℕ) (h : H) → length (O.get_local_inference out h).1 ≡ length out
  pub updates_within : (out : List ℕ) (h : H) → length (O.get_ota_status out h).1 ≡ length out

-- The address `i` lies outside the `len` bytes at `ptr`.
abbrev pub Beside : ℤ → ℕ → ℕ → Type 0
Beside ptr len i = (i < as_u32 ptr) ⊎ (as_u32 ptr + len ≤ i)

-- The address `i` lies outside all that a call asks the host to fill.
abbrev pub Outside : HostCall → ℕ → Type 0
Outside (hearing ptr max_len) i = Beside ptr (as_u32 max_len) i
Outside (sensing pitch_ptr roll_ptr) i = Beside pitch_ptr 4 i × Beside roll_ptr 4 i
Outside (inferring out_ptr) i = Beside out_ptr 12 i
Outside (ota_reading out_ptr) i = Beside out_ptr 16 i
Outside _ i = Unit

-- The memory `m'` has the size of `m`, and its bytes where `Free` holds.
abbrev pub Framed : (ℕ → Type 0) → Option (List ℕ) → Option (List ℕ) → Type 0
Framed Free none none = Unit
Framed Free none (some _) = ⊥
Framed Free (some _) none = ⊥
Framed Free (some mem) (some mem') =
    (length mem' ≡ length mem) × ((i : ℕ) → Free i → get_or mem' i 0 ≡ get_or mem i 0)

Framed-same : (Free : ℕ → Type 0) (m : Option (List ℕ)) → Framed Free m m
Framed-same Free none = tt
Framed-same Free (some mem) = (refl, λ i f. refl)

get_or-Beside :
    (mem : List ℕ) (ptr : ℤ) (bytes : List ℕ) (len i : ℕ)
    → as_u32 ptr + len ≤ length mem
    → length bytes ≤ len
    → Beside ptr len i
    → get_or (splice mem (as_u32 ptr) bytes) i 0 ≡ get_or mem i 0
get_or-Beside mem ptr bytes len i room short (inl before) =
    get_or-splice_beside mem (as_u32 ptr) bytes i 0 (omega arith) (inl before)
get_or-Beside mem ptr bytes len i room short (inr after) =
    get_or-splice_beside mem (as_u32 ptr) bytes i 0 (omega arith) (inr (omega arith))

Framed-splice :
    (Free : ℕ → Type 0) (mem : List ℕ) (ptr : ℤ) (bytes : List ℕ) (len : ℕ)
    → as_u32 ptr + len ≤ length mem
    → length bytes ≤ len
    → ((i : ℕ) → Free i → Beside ptr len i)
    → Framed Free (some mem) (some (splice mem (as_u32 ptr) bytes))
Framed-splice Free mem ptr bytes len room short free = (
  length-splice mem (as_u32 ptr) bytes (omega arith),
  λ i f. get_or-Beside mem ptr bytes len i room short (free i f),
)

Framed-splice-splice :
    (Free : ℕ → Type 0) (mem : List ℕ) (p q : ℤ) (a b : List ℕ) (m n : ℕ)
    → as_u32 p + m ≤ length mem
    → as_u32 q + n ≤ length mem
    → length a ≤ m
    → length b ≤ n
    → ((i : ℕ) → Free i → Beside p m i × Beside q n i)
    → Framed Free (some mem) (some (splice (splice mem (as_u32 p) a) (as_u32 q) b))
Framed-splice-splice Free mem p q a b m n rp rq sa sb free =
    let first : Framed Free (some mem) (some (splice mem (as_u32 p) a)) =
      Framed-splice Free mem p a m rp sa (λ i f. (free i f).0) in
    let second : Framed Free (some (splice mem (as_u32 p) a))
        (some (splice (splice mem (as_u32 p) a) (as_u32 q) b)) =
      Framed-splice Free (splice mem (as_u32 p) a) q b n (omega (arith, first.0)) sb
        (λ i f. (free i f).1) in
    (second.0 ∙ first.0, λ i f. second.1 i f ∙ first.1 i f)

abbrev zeros : ℕ → List ℕ
zeros n = replicate n 0

length-zeros : (n : ℕ) → length (zeros n) ≡ n
length-zeros n = length-replicate n 0

module _ {H : Type 0} (O : HostOps H) (F : FillsBuffers O) where
  -- What an answer leaves of a memory.
  abbrev After : HostCall → List ℕ → ℤ × Vm H → Type 0
  After c mem (code, vm) = Framed (Outside c) (some mem) vm.memory

  guarded :
      (c : HostCall) (ptr : ℤ) (len : ℕ) (mem : List ℕ) (h : H) (next : List ℕ → ℤ × Vm H)
      → (as_u32 ptr + len ≤ length mem → After c mem (next mem))
      → After c mem (validated O ptr len (record { memory = some mem; host = h }) next)
  unfolding validated
  guarded c ptr len mem h next step =
      let exact = validate_ptr_len_exact (as_u32 ptr) len (length mem % 2 ^ 32) (omega arith) in
      elim exact.1 [
        | inl fits ↦ rw (fits, validated) (step (omega (arith, exact.0.0 fits)))
        | inr out ↦ rw (out, validated) (Framed-same (Outside c) (some mem))
      ]

  unless :
      (refused : Bool) (c : HostCall) (mem : List ℕ) (x y : ℤ × Vm H)
      → After c mem x
      → (refused ≡ false → After c mem y)
      → After c mem (if refused then x else y)
  unless true c mem x y fx fy = fx
  unless false c mem x y fx fy = fy refl

  kept :
      (c : HostCall) (mem : List ℕ) (code : ℤ) (h : H)
      → After c mem (code, record { memory = some mem; host = h })
  kept c mem code h = Framed-same (Outside c) (some mem)

  copied :
      (c : HostCall) (ptr : ℤ) (len : ℕ) (mem : List ℕ) (h : H) (x : ℤ × List ℕ)
      → as_u32 ptr + len ≤ length mem
      → length x.1 ≡ len
      → ((i : ℕ) → Outside c i → Beside ptr len i)
      → After c mem (copy_out O ptr mem (record { memory = some mem; host = h }) x)
  copied c ptr len mem h (pos zero, tmp) room e free =
      Framed-splice (Outside c) mem ptr tmp len room (omega (arith, e)) free
  copied c ptr len mem h (pos (suc n), tmp) room e free = kept c mem (pos (suc n)) h
  copied c ptr len mem h (negsuc n, tmp) room e free = kept c mem (negsuc n) h

  heard :
      (ptr len : ℤ) (mem : List ℕ) (h : H) (x : ℤ × (List ℕ × H))
      → as_u32 ptr + as_u32 len ≤ length mem
      → (as_usize x.0 ≤ length (zeros (as_u32 len))) × (length x.1.0 ≡ length (zeros (as_u32 len)))
      → After
          (hearing ptr len)
          mem
          (copy_audio O ptr mem (record { memory = some mem; host = h }) x)
  heard ptr len mem h (code, (tmp, h')) room (within, size) =
      Framed-splice (Outside (hearing ptr len)) mem ptr (take (as_usize code) tmp) (as_u32 len) room
        (omega (arith, length-take (as_usize code) tmp, within, length-zeros (as_u32 len)))
        (λ i f. f)

  -- No call of the guest changes the size of its memory, or a byte outside the regions that the call
  -- asks the host to fill, whatever pointers and lengths it passes.
  pub call-Framed :
      (c : HostCall) (mem : List ℕ) (h : H)
      → Framed (Outside c) (some mem) (call O c (record { memory = some mem; host = h })).1.memory
  unfolding call toggle_led get_uptime_ms start_audio_capture stop_audio_capture get_audio_avail
      get_telemetry_queue_len draw_eye set_brightness set_motor_speed debug_log write_text
      read_audio get_pitch_roll get_local_inference get_ota_status emit_imu_telemetry
      emit_odom_telemetry
  call-Framed toggling mem h = kept toggling mem ok h
  call-Framed uptime mem h = kept uptime mem ok h
  call-Framed starting mem h = kept starting mem ok h
  call-Framed stopping mem h = kept stopping mem ok h
  call-Framed avail mem h = kept avail mem ok h
  call-Framed queue_len mem h = kept queue_len mem ok h
  call-Framed (drawing x) mem h = kept (drawing x) mem ok h
  call-Framed (brightening x) mem h = kept (brightening x) mem ok h
  call-Framed (logging ptr len) mem h =
      guarded (logging ptr len) ptr (as_u32 len) mem h _ (λ room. kept (logging ptr len) mem ok h)
  call-Framed (writing ptr len) mem h = guarded (writing ptr len) ptr (as_u32 len) mem h _ (λ room.
      unless (ltb max_text_bytes (as_u32 len)) (writing ptr len) mem _ _
        (kept (writing ptr len) mem err_bounds h) (λ fits. kept (writing ptr len) mem ok h))
  call-Framed (emitting_imu ptr len) mem h =
      guarded (emitting_imu ptr len) ptr (as_u32 len) mem h _ (λ room.
        unless (not (as_u32 len == imu_size)) (emitting_imu ptr len) mem _ _
          (kept (emitting_imu ptr len) mem err_bounds h)
          (λ fits. kept (emitting_imu ptr len) mem ok h))
  call-Framed (emitting_odom ptr len) mem h =
      guarded (emitting_odom ptr len) ptr (as_u32 len) mem h _ (λ room.
        unless (not (as_u32 len == odometry_size)) (emitting_odom ptr len) mem _ _
          (kept (emitting_odom ptr len) mem err_bounds h)
          (λ fits. kept (emitting_odom ptr len) mem ok h))
  call-Framed (driving left right) mem h =
      unless
        (ltb_ℤ (pos max_motor_speed) (abs_i32 left) || ltb_ℤ (pos max_motor_speed) (abs_i32 right))
        (driving left right) mem _ _ (kept (driving left right) mem err_bounds h)
        (λ fits. kept (driving left right) mem ok h)
  call-Framed (inferring ptr) mem h =
      guarded (inferring ptr) ptr 12 mem h _
        (λ room. copied (inferring ptr) ptr 12 mem h _ room (F.infers_within _ h) (λ i f. f))
  call-Framed (ota_reading ptr) mem h =
      guarded (ota_reading ptr) ptr 16 mem h _
        (λ room. copied (ota_reading ptr) ptr 16 mem h _ room (F.updates_within _ h) (λ i f. f))
  call-Framed (hearing ptr len) mem h = guarded (hearing ptr len) ptr (as_u32 len) mem h _ (λ room.
      unless (ltb max_audio_read (as_u32 len)) (hearing ptr len) mem _ _
        (kept (hearing ptr len) mem err_bounds h)
        (λ fits.
          heard ptr len mem h (O.read_audio (zeros (as_u32 len)) h) room
            (F.reads_within _ h (short fits))))
    where
      short : ltb max_audio_read (as_u32 len) ≡ false → length (zeros (as_u32 len)) ≤ 1024
      short fits = let size = length-zeros (as_u32 len) in ground arith
  call-Framed (sensing pitch_ptr roll_ptr) mem h =
      guarded (sensing pitch_ptr roll_ptr) pitch_ptr 4 mem h _ (λ room.
        guarded (sensing pitch_ptr roll_ptr) roll_ptr 4 mem h _ (λ room'.
          Framed-splice-splice (Outside (sensing pitch_ptr roll_ptr)) mem pitch_ptr roll_ptr _ _ 4 4
            room room' (omega (arith, length-to_le_bytes 4 _))
            (omega (arith, length-to_le_bytes 4 _)) (λ i f. f)))
