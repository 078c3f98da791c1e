-- ===== src/Sandbox/Simulates.antt =====
-- Two hosts behind the closures of firmware/src/core0/wasm_vm.rs: the relation between them, and the
-- method calls and guest calls on which they agree.
use sand_os.Base.{ℕ, ◌≤◌, ◌≡◌, List, [], ◌∷◌, some, length}
use sand_os.Base.Int.{ℤ}
use sand_os.Sandbox.{HostOps, Vm, read_memory, HostCall, call, logging, driving}

-- What two answers have in common: the code, and related hosts.
abbrev pub Same : {H K : Type 0} → (H → K → Type 0) → ℤ × H → ℤ × K → Type 0
Same R (c, h) (d, k) = (c ≡ d) × R h k

-- A scratch buffer that came back the same, with the same code.
abbrev pub SameRead :
    {H K : Type 0} → (H → K → Type 0) → ℤ × (List ℕ × H) → ℤ × (List ℕ × K) → Type 0
SameRead R (c, (tmp, h)) (d, (tmp', k)) = (c ≡ d) × ((tmp ≡ tmp') × R h k)

-- The method calls on which two hosts agree: texts that are logged satisfy `Log`, and motor commands
-- come while `Room` holds of the first host.
pub record Simulates {H K : Type 0} (O : HostOps H) (P : HostOps K) (R : H → K → Type 0)
    (Log : List ℕ → Type 0) (Room : H → Type 0) : Type 0 where
  pub toggles : (h : H) (k : K) → R h k → Same R (O.toggle_led h) (P.toggle_led k)
  pub uptimes : (h : H) (k : K) → R h k → O.get_uptime_ms h ≡ P.get_uptime_ms k
  pub logs :
      (b : List ℕ) (h : H) (k : K) → R h k → Log b → Same R (O.debug_log b h) (P.debug_log b k)
  pub draws : (e : ℤ) (h : H) (k : K) → R h k → Same R (O.draw_eye e h) (P.draw_eye e k)
  pub writes :
      (b : List ℕ) (h : H) (k : K)
      → R h k
      → length b ≤ 256
      → Same R (O.write_text b h) (P.write_text b k)
  pub brightens :
      (v : ℤ) (h : H) (k : K) → R h k → Same R (O.set_brightness v h) (P.set_brightness v k)
  pub starts : (h : H) (k : K) → R h k → Same R (O.start_audio_capture h) (P.start_audio_capture k)
  pub stops : (h : H) (k : K) → R h k → Same R (O.stop_audio_capture h) (P.stop_audio_capture k)
  pub avails : (h : H) (k : K) → R h k → O.get_audio_avail h ≡ P.get_audio_avail k
  pub reads :
      (out : List ℕ) (h : H) (k : K)
      → R h k
      → length out ≤ 1024
      → SameRead R (O.read_audio out h) (P.read_audio out k)
  pub senses : (h : H) (k : K) → R h k → O.get_pitch_roll h ≡ P.get_pitch_roll k
  pub drives :
      (l r : ℤ) (h : H) (k : K)
      → R h k
      → Room h
      → Same R (O.set_motor_speed l r h) (P.set_motor_speed l r k)
  pub emits_imu :
      (b : List ℕ) (h : H) (k : K)
      → R h k
      → Same R (O.emit_imu_telemetry b h) (P.emit_imu_telemetry b k)
  pub emits_odom :
      (b : List ℕ) (h : H) (k : K)
      → R h k
      → Same R (O.emit_odom_telemetry b h) (P.emit_odom_telemetry b k)
  pub queues : (h : H) (k : K) → R h k → O.get_telemetry_queue_len h ≡ P.get_telemetry_queue_len k
  pub infers :
      (out : List ℕ) (h : H) (k : K)
      → R h k
      → O.get_local_inference out h ≡ P.get_local_inference out k
  pub updates :
      (out : List ℕ) (h : H) (k : K) → R h k → O.get_ota_status out h ≡ P.get_ota_status out k

module _ {H K : Type 0} (R : H → K → Type 0) where
  -- The guests have the same memory, and their hosts are related.
  abbrev pub Related : Vm H → Vm K → Type 0
  Related v w = (v.memory ≡ w.memory) × R v.host w.host

  -- The answers to a sequence of calls, and what it leaves.
  abbrev pub SameRuns : List ℤ × Vm H → List ℤ × Vm K → Type 0
  SameRuns (a, v) (b, w) = (a ≡ b) × Related v w

module _ {H : Type 0} (O : HostOps H) (Log : List ℕ → Type 0) (Room : H → Type 0) where
  -- The calls on which the hosts agree.
  abbrev pub Agreed : HostCall → Vm H → Type 0
  Agreed (logging ptr len) v = (mem : List ℕ) → v.memory ≡ some mem → Log (read_memory ptr len mem)
  Agreed (driving left right) v = Room v.host
  Agreed _ v = Unit

  -- Each call of a sequence is one on which the hosts agree.
  unfoldable pub AllAgreed : List HostCall → Vm H → Type 0
  AllAgreed [] v = Unit
  AllAgreed (c ∷ cs) v = Agreed c v × AllAgreed cs (call O c v).1
