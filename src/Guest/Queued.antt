-- ===== src/Guest/Queued.antt =====
-- wasm-apps/src/lib.rs, `emit_imu_telemetry_handler`, on the host of host-tests/src/mock_host.rs.
use sand_os.Base.{
  ℕ, ◌*◌, ◌%◌, ◌^◌, ◌≤◌, ◌<◌, ◌≡◌, ◌⊎◌, refl, ap, ◌∙◌, inl, inr, arith, List, [], ◌∷◌, ◌++◌, length,
  ltb, leb, false, Bool-cases,
}
use sand_os.Base.Int.{pos, as_i32, ltb_ℤ}
use sand_os.Abi.Status.{ok}
use sand_os.Abi.ImuReading.{IsReading}
use sand_os.Abi.Telemetry.{imu}
use sand_os.Mock.{MockHost}
use sand_os.Mock as Mock
use sand_os.Sandbox.Hosts.{mock_ops}
use sand_os.Guest.{Layout, emit_imu_telemetry_handler}
use sand_os.Guest.Payload.{imu_packet, imu_from_cdr-imu_payload, length-imu_payload}
use sand_os.Guest.Sense.{IsPlaced}
use sand_os.Guest.Emits.{guest, payload, handler_room, handler_full}

-- A count below 2 ^ 31 is its i32.
count_i32 : (n : ℕ) → n < 2 ^ 31 → as_i32 (n % 2 ^ 32) ≡ pos n
unfolding as_i32
count_i32 n h = ground arith

module _ (L : Layout) where
  -- With room the mock takes the packet.
  emitted :
      (i : ℕ) (k : MockHost)
      → IsReading k.imu_reading
      → i < 2 ^ 32
      → length k.telemetry_queue < 28
      → Mock.emit_imu_telemetry (payload mock_ops L i k) k ≡ (
        ok,
        record k {
          telemetry_queue =
              k.telemetry_queue
              ++ (imu (
                    imu_packet i
                      (k.simulated_uptime_ms * 1000 % 2 ^ 64)
                      k.imu_reading.pitch_millideg
                      k.imu_reading.roll_millideg)
                  ∷ []);
        },
      )
  unfolding Mock.emit_imu_telemetry Mock.get_pitch_roll Mock.get_uptime_ms
  emitted i k v hi room =
      rw
        (
          length-imu_payload i (k.simulated_uptime_ms * 1000 % 2 ^ 64) k.imu_reading.pitch_millideg
              k.imu_reading.roll_millideg,
          imu_from_cdr-imu_payload i (k.simulated_uptime_ms * 1000 % 2 ^ 64)
              k.imu_reading.pitch_millideg k.imu_reading.roll_millideg hi (omega arith) v.pitch_in
              v.roll_in,
          fits,
        )
        refl
    where
      fits : leb 32 (length k.telemetry_queue) ≡ false
      fits = ground arith

  -- On the mock of the tests, whose queue no other task fills, and whose linker registers the call:
  -- with its locals in its memory, a counter that is a u32, a reading of i32 values and fewer than
  -- 2 ^ 31 packets waiting, the guest's IMU command succeeds. Below 28 waiting packets the mock's
  -- queue gains exactly one, with the guest's counter, the mock's uptime in microseconds and the
  -- mock's pitch and roll; from 28 packets on nothing is sent and the mock is as it was.
  pub emit_imu-queued :
      (t i o : ℕ) (mem : List ℕ) (k : MockHost)
      → IsPlaced L mem
      → IsReading k.imu_reading
      → i < 2 ^ 32
      → length k.telemetry_queue < 2 ^ 31
      → let answer = emit_imu_telemetry_handler mock_ops L (guest mock_ops L t i o mem k) in
        (answer.0 ≡ ok)
        × (((length k.telemetry_queue < 28)
              × (answer.1.vm.host.telemetry_queue
                  ≡ k.telemetry_queue
                    ++ (imu (
                          imu_packet i
                            (k.simulated_uptime_ms * 1000 % 2 ^ 64)
                            k.imu_reading.pitch_millideg
                            k.imu_reading.roll_millideg)
                        ∷ [])))
            ⊎ ((28 ≤ length k.telemetry_queue) × (answer.1.vm.host ≡ k)))
  unfolding Mock.get_pitch_roll
  emit_imu-queued t i o mem k placed v hi short =
      elim (Bool-cases (ltb (length k.telemetry_queue) 28)) [
        | inl room ↦
            let sent = handler_room mock_ops L t i o mem k placed v (mark ∙ room) in
            let taken = emitted i k v hi (ground arith) in
            (
              sent.0 ∙ ap (λ x. x.0) taken,
              inl (
                ground arith,
                ap (λ h. h.telemetry_queue) sent.1 ∙ ap (λ x. x.1.telemetry_queue) taken,
              ),
            )
        | inr full ↦
            let kept = handler_full mock_ops L t i o mem k placed (mark ∙ full) in
            (kept.0, inr (ground arith, kept.1))
      ]
    where
      mark : ltb_ℤ (Mock.get_telemetry_queue_len k) (pos 28) ≡ ltb (length k.telemetry_queue) 28
      mark =
          unfold Mock.get_telemetry_queue_len in
          rw (count_i32 (length k.telemetry_queue) short) (ground arith)
