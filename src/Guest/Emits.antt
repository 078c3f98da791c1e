-- ===== src/Guest/Emits.antt =====
-- wasm-apps/src/lib.rs, `emit_imu_telemetry_handler`: the packet that reaches the telemetry queue of the
-- host behind the guest.
use sand_os.Base.{
  ℕ, ◌+◌, ◌-◌, ◌*◌, ◌%◌, ◌^◌, ◌≤◌, ◌<◌, ◌≡◌, refl, ap, ◌∙◌, arith, List, some, true, false, length,
  slice, splice, slice-splice_self, length-splice,
}
use mathlib.Core.Path.{subst}
use sand_os.Base.Int.{ℤ, pos, as_u32, ltb_ℤ}
use sand_os.Abi.Status.{ok}
use sand_os.Abi.ImuReading.{IsReading}
use sand_os.Sandbox.{HostOps, Vm, validated, read_memory}
use sand_os.Sandbox as Call
use sand_os.Guest.{Layout, App, load_i32, imu_payload, emit_imu_telemetry_handler}
use sand_os.Guest.Payload.{length-imu_payload}
use sand_os.Guest.Sense.{IsPlaced, sensed, sense_lem, length-sensed, load-sensed, validated-passes}

-- Bytes that the guest has stored at a pointer are the bytes that the host gets.
read_memory-stored :
    (ptr : ℤ) (len : ℕ) (mem bytes : List ℕ)
    → len < 2 ^ 32
    → length mem < 2 ^ 32
    → length bytes ≡ len
    → as_u32 ptr + len ≤ length mem
    → read_memory ptr (pos len) (splice mem (as_u32 ptr) bytes) ≡ bytes
unfolding read_memory as_u32
read_memory-stored ptr len mem bytes hl small size room =
    subst (λ n. slice (splice mem (as_u32 ptr) bytes) (as_u32 ptr) n ≡ bytes) same
      (slice-splice_self mem (as_u32 ptr) bytes (omega (arith, size, room)))
  where
    same : length bytes ≡ (as_u32 ptr + len % 2 ^ 32) % 2 ^ 32 - as_u32 ptr
    same = omega (arith, size, room, small, hl)

module _ {H : Type 0} (O : HostOps H) where
  -- The host gets the bytes that the guest has assembled.
  pub emit_imu-stored :
      (ptr : ℤ) (mem bytes : List ℕ) (h : H)
      → length mem < 2 ^ 32
      → length bytes ≡ 36
      → as_u32 ptr + 36 ≤ length mem
      → let stored = splice mem (as_u32 ptr) bytes in
        Call.emit_imu_telemetry O ptr (pos 36) (record { memory = some stored; host = h }) ≡ (
          (O.emit_imu_telemetry bytes h).0,
          record { memory = some stored; host = (O.emit_imu_telemetry bytes h).1 },
        )
  unfolding Call.emit_imu_telemetry as_u32
  emit_imu-stored ptr mem bytes h small size room =
      let kept = length-splice mem (as_u32 ptr) bytes (omega (arith, size, room)) in
      validated-passes O ptr 36 _ h _ (omega (arith, kept, small)) (omega (arith, kept, room))
      ∙ rw (read_memory-stored ptr 36 mem bytes (omega arith) small size room) refl

  module _ (L : Layout) where
    -- The packet that a guest with counter `seq` makes on host `h`.
    abbrev pub payload : ℕ → H → List ℕ
    payload seq h =
        let r = O.get_pitch_roll h in
        imu_payload seq (O.get_uptime_ms h * 1000 % 2 ^ 64) r.pitch_millideg r.roll_millideg

    abbrev pub guest : ℕ → ℕ → ℕ → List ℕ → H → App H
    guest toggles imu_seq odom_seq mem h = record {
      toggle_count = toggles;
      imu_seq = imu_seq;
      odom_seq = odom_seq;
      vm = record { memory = some mem; host = h };
    }

    -- Below the high-water mark the host gets the packet, and its answer is the guest's.
    pub handler_room :
        (t i o : ℕ) (mem : List ℕ) (h : H)
        → IsPlaced L mem
        → IsReading (O.get_pitch_roll h)
        → ltb_ℤ (O.get_telemetry_queue_len h) (pos 28) ≡ true
        → ((emit_imu_telemetry_handler O L (guest t i o mem h)).0
            ≡ (O.emit_imu_telemetry (payload i h) h).0)
          × ((emit_imu_telemetry_handler O L (guest t i o mem h)).1.vm.host
              ≡ (O.emit_imu_telemetry (payload i h) h).1)
    unfolding emit_imu_telemetry_handler Call.get_telemetry_queue_len Call.get_uptime_ms
    handler_room t i o mem h placed v room =
        rw (sense_lem O L mem h placed, loaded.0, loaded.1, room)
          (ap (λ x. x.0) sent, ap (λ x. x.1.host) sent)
      where
        loaded :
            (load_i32 L.pitch_at
                (record { memory = some (sensed O L mem (O.get_pitch_roll h)); host = h })
              ≡ (O.get_pitch_roll h).pitch_millideg)
            × (load_i32 L.roll_at
                  (record { memory = some (sensed O L mem (O.get_pitch_roll h)); host = h })
                ≡ (O.get_pitch_roll h).roll_millideg)
        loaded = load-sensed O L mem (O.get_pitch_roll h) h placed v

        size : length (sensed O L mem (O.get_pitch_roll h)) ≡ length mem
        size = length-sensed O L mem (O.get_pitch_roll h) placed

        sent :
            Call.emit_imu_telemetry O L.buf_at (pos 36) (record {
              memory =
                  some
                    (splice (sensed O L mem (O.get_pitch_roll h)) (as_u32 L.buf_at) (payload i h));
              host = h;
            })
            ≡ (
              (O.emit_imu_telemetry (payload i h) h).0,
              record {
                memory =
                    some (
                      splice (sensed O L mem (O.get_pitch_roll h)) (as_u32 L.buf_at) (payload i h));
                host = (O.emit_imu_telemetry (payload i h) h).1;
              },
            )
        sent =
            emit_imu-stored L.buf_at (sensed O L mem (O.get_pitch_roll h)) (payload i h) h
              (omega (arith, size, placed.small)) (length-imu_payload i _ _ _)
              (omega (arith, size, placed.buf_in))

    -- From the mark on nothing is sent.
    pub handler_full :
        (t i o : ℕ) (mem : List ℕ) (h : H)
        → IsPlaced L mem
        → ltb_ℤ (O.get_telemetry_queue_len h) (pos 28) ≡ false
        → ((emit_imu_telemetry_handler O L (guest t i o mem h)).0 ≡ ok)
          × ((emit_imu_telemetry_handler O L (guest t i o mem h)).1.vm.host ≡ h)
    unfolding emit_imu_telemetry_handler Call.get_telemetry_queue_len
    handler_full t i o mem h placed full = rw (sense_lem O L mem h placed, full) (refl, refl)
