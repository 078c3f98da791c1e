-- ===== src/Host/Requests.antt =====
-- firmware/src/core0/abi.rs, `emit_imu_telemetry` and `emit_odom_telemetry`: the guest's packets on
-- their way to the queue that the radio task sends.
use sand_os.Base.{
  ℕ, ◌≤◌, ◌<◌, ◌≡◌, ◌⊎◌, refl, ap, ◌∙◌, inl, inr, arith, List, [], ◌∷◌, ◌++◌, some, true, ◌==◌,
  length, Bool-cases, ltb,
}
use sand_os.Abi.Status.{ok, err_busy}
use sand_os.Base.Int.{ℤ}
use sand_os.Abi.Telemetry.{
  TelemetryPacket, imu, odometry, imu_size, odometry_size, imu_to_cdr, odometry_to_cdr,
}
use sand_os.Abi.Telemetry.RoundTrip.{
  IsPacket, imu_from_cdr-imu_to_cdr, odometry_from_cdr-odometry_to_cdr, length-imu_to_cdr,
  length-odometry_to_cdr,
}
use sand_os.Channel.{BoundedQueue}
use sand_os.Telemetry.{push_telemetry}
use sand_os.Host.{emit, emit_imu_telemetry, emit_odom_telemetry}

same_size : {m n : ℕ} → m ≡ n → (m == n) ≡ true
same_size h = ground arith

module _ (Q : BoundedQueue TelemetryPacket 32) where
  -- The guest's call for a packet: it serializes the packet over a buffer and passes the buffer on.
  abbrev pub emit_packet : TelemetryPacket → List ℕ → Q.Queue → ℤ × Q.Queue
  emit_packet (imu t) buf q = emit_imu_telemetry Q (imu_to_cdr t buf).1 q
  emit_packet (odometry t) buf q = emit_odom_telemetry Q (odometry_to_cdr t buf).1 q

  abbrev pub payload_size : TelemetryPacket → ℕ
  payload_size (imu t) = imu_size
  payload_size (odometry t) = odometry_size

  -- The packet is queued behind the others; with a full queue it is dropped and nothing changes.
  abbrev pub Emitted : TelemetryPacket → Q.Queue → ℤ × Q.Queue → Type 0
  Emitted packet q (code, q') =
      ((length (Q.contents q) < 32) × (code ≡ ok) × (Q.contents q' ≡ Q.contents q ++ (packet ∷ [])))
      ⊎ ((32 ≤ length (Q.contents q)) × (code ≡ err_busy) × (q' ≡ q))

  emit-Emitted :
      (packet : TelemetryPacket) (q : Q.Queue) → Emitted packet q (emit Q (some packet) q)
  unfolding push_telemetry
  emit-Emitted packet q = elim (Bool-cases (ltb (length (Q.contents q)) 32)) [
    | inl room ↦
        let (sent, queued) = Q.try_send_room packet q (ground arith) in
        inl (ground arith, rw sent refl, rw sent queued)
    | inr full ↦
        let refused = Q.try_send_full packet q (ground arith) in
        inr (
          ground arith,
          rw (ap (λ p. p.0) refused) refl,
          rw (ap (λ p. p.0) refused) (ap (λ p. p.1) refused),
        )
  ]

  -- A packet that the guest serializes into a buffer of the payload's size reaches the queue of the
  -- radio task as the same packet, behind the packets before it; with a full queue the call answers
  -- that the resource is busy and nothing changes.
  pub emit-serialized :
      (packet : TelemetryPacket) (buf : List ℕ) (q : Q.Queue)
      → IsPacket packet
      → length buf ≡ payload_size packet
      → Emitted packet q (emit_packet packet buf q)
  unfolding emit_imu_telemetry emit_odom_telemetry
  emit-serialized (imu t) buf q v h =
      rw
        (
          imu_from_cdr-imu_to_cdr t buf v (omega (arith, h)),
          same_size (length-imu_to_cdr t buf (omega (arith, h)) ∙ h),
          emit_imu_telemetry,
        )
        (emit-Emitted (imu t) q)
  emit-serialized (odometry t) buf q v h =
      rw
        (
          odometry_from_cdr-odometry_to_cdr t buf v (omega (arith, h)),
          same_size (length-odometry_to_cdr t buf (omega (arith, h)) ∙ h),
          emit_odom_telemetry,
        )
        (emit-Emitted (odometry t) q)
