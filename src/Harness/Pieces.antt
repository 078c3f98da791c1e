-- ===== src/Harness/Pieces.antt =====
-- host-tests/src/vm_harness.rs against firmware/src/core0/wasm_vm.rs: what the closures are made of, the
-- check of a region, the slices and the copies, does the same below 2 GiB of memory.
use sand_os.Base.{
  ℕ, zero, suc, ◌+◌, ◌-◌, ◌%◌, ◌^◌, ◌≤◌, ◌<◌, ◌≡◌, ◌≢◌, refl, ap, sym, ◌∙◌, inl, inr, arith, List,
  Option, none, some, Bool, true, false, ◌||◌, ◌==◌, if◌then◌else◌, length, take, slice, splice,
  length-splice, length-take,
}
use sand_os.Base.Int.{ℤ, pos, negsuc, InI32, ltb_ℤ, as_u32, as_i32}
use sand_os.Base.Bytes.{to_le_bytes, length-to_le_bytes}
use sand_os.Abi.Status.{err_invalid_arg, max_motor_speed}
use sand_os.Abi.Memory.{validate_ptr_len_exact}
use sand_os.Harness as Harness
use sand_os.Harness.{range, read_memory, write_memory, as_usize, ◌>>=◌}
use sand_os.Harness.Agrees.{read_memory-eq, write_memory-eq, as_u32-pos, as_u32-negsuc, range-fits}
use sand_os.Sandbox as Sandbox
use sand_os.Sandbox.{
  HostOps, Vm, HostCall, toggling, uptime, starting, stopping, avail, queue_len, drawing,
  brightening, inferring, ota_reading, logging, writing, hearing, sensing, driving, emitting_imu,
  emitting_odom,
}
use sand_os.Host as Host

-- The least i32, whose absolute value overflows.
abbrev pub least_i32 : ℤ
least_i32 = negsuc (2 ^ 31 - 1)

-- The memory of a guest that has one is below 2 GiB.
abbrev pub IsSmall : Option (List ℕ) → Type 0
IsSmall none = Unit
IsSmall (some mem) = length mem < 2 ^ 31

-- The arguments are i32, and where overflow panics no speed is the least one.
abbrev pub Passable : Bool → HostCall → Type 0
Passable checked (logging ptr len) = InI32 ptr × InI32 len
Passable checked (writing ptr len) = InI32 ptr × InI32 len
Passable checked (hearing ptr len) = InI32 ptr × InI32 len
Passable checked (sensing p r) = InI32 p × InI32 r
Passable checked (driving l r) = checked ≡ true → (l ≢ least_i32) × (r ≢ least_i32)
Passable checked (emitting_imu ptr len) = InI32 ptr × InI32 len
Passable checked (emitting_odom ptr len) = InI32 ptr × InI32 len
Passable checked (inferring ptr) = InI32 ptr
Passable checked (ota_reading ptr) = InI32 ptr
Passable checked _ = Unit

abs_i32-eq :
    (checked : Bool) (z : ℤ)
    → (checked ≡ true → z ≢ least_i32)
    → Harness.abs_i32 checked z ≡ some (Host.abs_i32 z)
unfolding Harness.abs_i32 Host.abs_i32
abs_i32-eq checked (pos n) h = refl
abs_i32-eq true (negsuc n) h = let other = h refl in ground arith
abs_i32-eq false (negsuc n) h = ground arith

pub as_usize-as_u32 : (z : ℤ) (k : ℕ) → InI32 z → k < 2 ^ 31 → (as_usize z == k) ≡ (as_u32 z == k)
unfolding as_u32
as_usize-as_u32 (pos n) k h small = ap (λ w. w == k) (omega arith)
as_usize-as_u32 (negsuc n) k h small = ground arith

range-front : (n : ℕ) (bytes : List ℕ) → n ≤ length bytes → range 0 n bytes ≡ some (take n bytes)
unfolding slice
range-front n bytes h =
    range-fits 0 n bytes (omega arith) h ∙ ap (λ k. some (take k bytes)) (omega arith)

as_i32-pos : (n : ℕ) → n < 2 ^ 31 → as_i32 (n % 2 ^ 32) ≡ pos n
unfolding as_i32
as_i32-pos n h = ground arith

pub as_usize-eq : (z : ℤ) → InI32 z → as_u32 z < 2 ^ 31 → as_usize z ≡ as_u32 z
as_usize-eq (pos n) h lt = sym (as_u32-pos n (omega arith))
as_usize-eq (negsuc n) h lt = absurd (omega (arith, as_u32-negsuc n h))

module _ {H : Type 0} (checked : Bool) (O : HostOps H) where
  pub validated-eq :
      (ptr : ℤ) (len : ℕ) (m : Option (List ℕ)) (h : H) (next : List ℕ → Option (ℤ × Vm H))
      (next' : List ℕ → ℤ × Vm H)
      → IsSmall m
      → ((mem : List ℕ)
          → m ≡ some mem
          → length mem < 2 ^ 31
          → as_u32 ptr + len ≤ length mem
          → next mem ≡ some (next' mem))
      → Harness.validated checked O ptr len (record { memory = m; host = h }) next
        ≡ some (Sandbox.validated O ptr len (record { memory = m; host = h }) next')
  unfolding Harness.validated Sandbox.validated
  validated-eq ptr len none h next next' small same = refl
  validated-eq ptr len (some mem) h next next' small same =
      let exact = validate_ptr_len_exact (as_u32 ptr) len (length mem % 2 ^ 32) (omega arith) in
      elim exact.1 [
        | inl fits ↦
            rw (fits, Harness.validated, Sandbox.validated)
              (same mem refl small (omega (arith, exact.0.0 fits)))
        | inr out ↦ rw (out, Harness.validated, Sandbox.validated) refl
      ]

  pub if_some :
      (refused : Bool) (x y' : ℤ × Vm H) (y : Option (ℤ × Vm H))
      → (refused ≡ false → y ≡ some y')
      → (if refused then some x else y) ≡ some (if refused then x else y')
  if_some true x y' y e = refl
  if_some false x y' y e = e refl

  pub read_then :
      (ptr len : ℤ) (mem : List ℕ) (next : List ℕ → ℤ × Vm H)
      → InI32 ptr
      → InI32 len
      → length mem < 2 ^ 31
      → as_u32 ptr + as_u32 len ≤ length mem
      → (read_memory checked ptr len mem >>= λ bytes. some (next bytes))
        ≡ some (next (Sandbox.read_memory ptr len mem))
  read_then ptr len mem next hp hn small fits =
      rw (read_memory-eq checked ptr len mem hp hn small fits, ◌>>=◌) refl

  pub copy_out-eq :
      (ptr : ℤ) (size : ℕ) (mem : List ℕ) (vm : Vm H) (x : ℤ × List ℕ)
      → InI32 ptr
      → length mem < 2 ^ 31
      → as_u32 ptr + size ≤ length mem
      → length x.1 ≡ size
      → Harness.copy_out checked O ptr size mem vm x ≡ some (Sandbox.copy_out O ptr mem vm x)
  unfolding Harness.copy_out
  copy_out-eq ptr size mem vm (pos zero, tmp) hp small fits e =
      rw (write_memory-eq checked ptr size tmp mem hp small fits e, ◌>>=◌) refl
  copy_out-eq ptr size mem vm (pos (suc n), tmp) hp small fits e = refl
  copy_out-eq ptr size mem vm (negsuc n, tmp) hp small fits e = refl

  pub copy_audio-eq :
      (ptr : ℤ) (size : ℕ) (mem : List ℕ) (vm : Vm H) (code : ℤ) (tmp : List ℕ) (h' : H)
      → InI32 ptr
      → InI32 code
      → size ≤ 1024
      → length mem < 2 ^ 31
      → as_u32 ptr + size ≤ length mem
      → as_u32 code ≤ size
      → length tmp ≡ size
      → Harness.copy_audio checked O ptr mem vm (code, (tmp, h'))
        ≡ some (Sandbox.copy_audio O ptr mem vm (code, (tmp, h')))
  unfolding Harness.copy_audio
  copy_audio-eq ptr size mem vm (negsuc n) tmp h' hp hc most small fits within e =
      absurd (omega (arith, as_u32-negsuc n hc))
  copy_audio-eq ptr size mem vm (pos n) tmp h' hp hc most small fits within e =
      let en = as_u32-pos n (omega arith) in
      let written =
        write_memory-eq checked ptr n (take n tmp) mem hp small (omega arith)
          (omega (arith, length-take n tmp)) in
      rw (range-front n tmp (omega arith), ◌>>=◌, written, as_i32-pos n (omega arith), en) refl

  pub get_pitch_roll-eq :
      (p r : ℤ) (m : Option (List ℕ)) (h : H)
      → InI32 p
      → InI32 r
      → IsSmall m
      → Harness.get_pitch_roll checked O p r (record { memory = m; host = h })
        ≡ some (Sandbox.get_pitch_roll O p r (record { memory = m; host = h }))
  unfolding Harness.get_pitch_roll Sandbox.get_pitch_roll
  get_pitch_roll-eq p r m h hp hr small =
      let reading = O.get_pitch_roll h in
      let pitch = to_le_bytes 4 (as_u32 reading.pitch_millideg) in
      let roll = to_le_bytes 4 (as_u32 reading.roll_millideg) in
      let four = length-to_le_bytes 4 (as_u32 reading.pitch_millideg) in
      let four' = length-to_le_bytes 4 (as_u32 reading.roll_millideg) in
      validated-eq p 4 m h _ _ small (λ mem e few room.
        validated-eq r 4 m h _ _ small (λ same e' few' room'.
          let one : same ≡ mem = cc in
          let longs : length same ≡ length mem = ap length one in
          let size = length-splice mem (as_u32 p) pitch (omega arith) in
          rw
            (
              write_memory-eq checked p 4 pitch mem hp few room four,
              ◌>>=◌,
              write_memory-eq checked r 4 roll (splice mem (as_u32 p) pitch) hr (omega arith)
                  (omega arith) four',
            )
            refl))

  pub set_motor_speed-eq :
      (l r : ℤ) (vm : Vm H)
      → (checked ≡ true → (l ≢ least_i32) × (r ≢ least_i32))
      → Harness.set_motor_speed checked O l r vm ≡ some (Sandbox.set_motor_speed O l r vm)
  unfolding Harness.set_motor_speed Sandbox.set_motor_speed
  set_motor_speed-eq l r vm safe =
      rw (abs_i32-eq checked l (λ c. (safe c).0), ◌>>=◌, abs_i32-eq checked r (λ c. (safe c).1))
        (either (ltb_ℤ (pos max_motor_speed) (Host.abs_i32 l))
          (ltb_ℤ (pos max_motor_speed) (Host.abs_i32 r)))
    where
      either :
          (a b : Bool)
          → (if a
              then some (err_invalid_arg, vm)
              else (if b
                  then some (err_invalid_arg, vm)
                  else Harness.answered checked O (O.set_motor_speed l r vm.host) vm))
            ≡ some (
                if a || b
                then (err_invalid_arg, vm)
                else Sandbox.with_host O (O.set_motor_speed l r vm.host) vm)
      either true b = refl
      either false true = refl
      either false false = refl
