-- ===== src/Core1/Outputs.antt =====
-- firmware/src/core1/mod.rs: the outputs of a tick and the packets that report them.
use sand_os.Base.{
  ℕ, ◌+◌, ◌%◌, ◌^◌, ◌≤◌, ◌<◌, ◌≡◌, ◌≢◌, ◌⊎◌, refl, ap, ◌∙◌, inl, inr, arith, [], ◌∷◌, ◌++◌, ◌==◌,
  length, length-append, Bool-cases,
}
use sand_os.Base.Int.{ℤ, pos, negsuc, pos_part, neg_part, ◌+ℤ◌, clamp_ℤ, InI16}
use mathlib.Core.List.{append_assoc}
use sand_os.Abi.ImuReading.{ImuReading, IsReading}
use sand_os.Abi.Telemetry.{TelemetryPacket, imu, odometry}
use sand_os.Abi.Telemetry.RoundTrip.{IsPacket}
use sand_os.Channel.{BoundedQueue}
use sand_os.Telemetry.{push_telemetry}
use sand_os.Core1.{blend, Counters, imu_pkt, odom_pkt, report}

-- A number within 255 of zero.
abbrev pub IsDuty : ℤ → Type 0
IsDuty v = (pos_part v ≤ 255) × (neg_part v ≤ 255)

-- A balance output and a command within the PWM range are added exactly, and so the sum is within
-- 510 of zero.
pub blend_exact :
    (balance cmd : ℤ)
    → IsDuty balance
    → IsDuty cmd
    → (blend balance cmd ≡ balance +ℤ cmd)
      × (pos_part (blend balance cmd) ≤ 510)
      × (neg_part (blend balance cmd) ≤ 510)
unfolding blend clamp_ℤ ◌+ℤ◌
blend_exact (pos a) (pos b) ha hb = (ground arith, ground arith, ground arith)
blend_exact (pos a) (negsuc b) ha hb = (ground arith, ground arith, ground arith)
blend_exact (negsuc a) (pos b) ha hb = (ground arith, ground arith, ground arith)
blend_exact (negsuc a) (negsuc b) ha hb = (ground arith, ground arith, ground arith)

module _ (Q : BoundedQueue TelemetryPacket 32) where
  push_two :
      (a b : TelemetryPacket) (q : Q.Queue)
      → length (Q.contents q) + 2 ≤ 32
      → Q.contents (push_telemetry Q b (push_telemetry Q a q).1).1 ≡ Q.contents q ++ (a ∷ b ∷ [])
  unfolding push_telemetry
  push_two a b q h =
      let (sent, first) = Q.try_send_room a q (omega (arith, h)) in
      let size : length (Q.contents (Q.try_send a q).1) < 32 =
        omega (arith, h, ap length first, length-append (Q.contents q) (a ∷ [])) in
      let (sent', second) = Q.try_send_room b (Q.try_send a q).1 size in
      second ∙ (ap (λ z. z ++ (b ∷ [])) first ∙ append_assoc (Q.contents q) (a ∷ []) (b ∷ []))

  -- With the counters, the reading and the outputs in the range of their types and room for two
  -- packets, every fifth tick queues one packet of each kind behind the packets before, both valid on
  -- the wire, and advances both sequence numbers; every other tick queues nothing and keeps them.
  pub report_lem :
      (now_us loop_us : ℕ) (reading : ImuReading) (left right : ℤ) (c : Counters) (q : Q.Queue)
      → now_us < 2 ^ 64
      → c.imu_seq < 2 ^ 32
      → c.odom_seq < 2 ^ 32
      → IsReading reading
      → InI16 left
      → InI16 right
      → length (Q.contents q) + 2 ≤ 32
      → ((c.tick_count % 5 ≡ 0)
          × IsPacket (imu (imu_pkt now_us loop_us reading c))
          × IsPacket (odometry (odom_pkt now_us loop_us (left, right) c))
          × (Q.contents (report Q now_us loop_us reading (left, right) c q).1
              ≡ Q.contents q
                ++ (imu (imu_pkt now_us loop_us reading c)
                    ∷ odometry (odom_pkt now_us loop_us (left, right) c)
                    ∷ []))
          × ((report Q now_us loop_us reading (left, right) c q).0.imu_seq
              ≡ (c.imu_seq + 1) % 2 ^ 32)
          × ((report Q now_us loop_us reading (left, right) c q).0.odom_seq
              ≡ (c.odom_seq + 1) % 2 ^ 32))
        ⊎ ((c.tick_count % 5 ≢ 0)
            × ((report Q now_us loop_us reading (left, right) c q).1 ≡ q)
            × ((report Q now_us loop_us reading (left, right) c q).0
                ≡ record c { tick_count = (c.tick_count + 1) % 2 ^ 64 }))
  unfolding report
  report_lem now_us loop_us reading left right c q hn hi ho hr hl hr' room =
      elim (Bool-cases (c.tick_count % 5 == 0)) [
        | inl due ↦ inl (
          ground arith,
          record {
            sequence_in = hi;
            timestamp_in = hn;
            loop_time_in = omega arith;
            pitch_in = hr.pitch_in;
            roll_in = hr.roll_in;
            yaw_rate_in = omega arith;
            accel_x_in = omega arith;
            accel_y_in = omega arith;
          },
          record {
            sequence_in = ho;
            timestamp_in = hn;
            loop_time_in = omega arith;
            left_in = hl;
            right_in = hr';
          },
          rw due (
              push_two (imu (imu_pkt now_us loop_us reading c))
                (odometry (odom_pkt now_us loop_us (left, right) c)) q room),
          rw due refl,
          rw due refl,
        )
        | inr not_due ↦ inr (ground arith, rw not_due refl, rw not_due refl)
      ]
