-- ===== src/Guest/Payload.antt =====
-- wasm-apps/src/lib.rs, the telemetry that the guest builds by hand, against the serializer of
-- abi/src/lib.rs.
use sand_os.Base.{
  ℕ, ◌≡◌, refl, arith, length, ap, sym, ◌∙◌, ◌++◌, [], ◌∷◌, drop, length-drop, some, ◌^◌, ◌<◌, List,
  replicate, slice, splice,
}
use sand_os.Base.Int.{ℤ, pos, InI32, as_u16, as_u32}
use sand_os.Base.Bytes.{to_le_bytes}
use sand_os.Abi.Telemetry.{
  ImuTelemetry, OdometryTelemetry, imu_to_cdr, odometry_to_cdr, imu_from_cdr,
}
use sand_os.Abi.Telemetry.RoundTrip.{
  imu_to_cdr-layout, odometry_to_cdr-layout, imu_from_cdr-imu_to_cdr,
}
use mathlib.Core.List.{append-nil}
use sand_os.Abi.Telemetry.Layout.{imu_layout, odometry_layout}
use sand_os.Guest.{imu_payload, odom_payload}

-- The packet that the guest means.
abbrev pub imu_packet : ℕ → ℕ → ℤ → ℤ → ImuTelemetry
imu_packet seq uptime_us pitch roll = record {
  sequence = seq;
  timestamp_us = uptime_us;
  loop_time_us = 2000;
  pitch_millideg = pitch;
  roll_millideg = roll;
  yaw_rate_millideg_s = pos 0;
  linear_accel_x_mm_s2 = pos 0;
  linear_accel_y_mm_s2 = pos 0;
}

abbrev pub odom_packet : ℕ → ℕ → OdometryTelemetry
odom_packet seq uptime_us = record {
  sequence = seq;
  timestamp_us = uptime_us;
  loop_time_us = 2000;
  left_speed = pos 0;
  right_speed = pos 0;
}

abbrev zeros : ℕ → List ℕ
zeros n = replicate n 0

whole : (front rest : List ℕ) → length rest ≡ 0 → front ++ rest ≡ front
whole front [] h = append-nil front
whole front (b ∷ rest) h = absurd (omega arith)

imu_payload-layout :
    (seq uptime_us : ℕ) (pitch roll : ℤ)
    → imu_payload seq uptime_us pitch roll ≡ imu_layout (imu_packet seq uptime_us pitch roll)
unfolding imu_payload to_le_bytes sand_os.Base.splice as_u32
imu_payload-layout seq uptime_us pitch roll = refl

odom_payload-layout :
    (seq uptime_us : ℕ) → odom_payload seq uptime_us ≡ odometry_layout (odom_packet seq uptime_us)
unfolding odom_payload to_le_bytes sand_os.Base.splice as_u16
odom_payload-layout seq uptime_us = refl

-- The bytes that the guest assembles with its own writes are those that the shared serializer writes
-- into any buffer of the payload's size, for the packet with the guest's counter, time, pitch and
-- roll, the nominal loop time and zeros; and the same holds for its odometry packet.
pub payloads_lem :
    (seq uptime_us : ℕ) (pitch roll : ℤ) (imu_buf odom_buf : List ℕ)
    → length imu_buf ≡ 36
    → length odom_buf ≡ 20
    → (imu_payload seq uptime_us pitch roll
        ≡ (imu_to_cdr (imu_packet seq uptime_us pitch roll) imu_buf).1)
      × (odom_payload seq uptime_us ≡ (odometry_to_cdr (odom_packet seq uptime_us) odom_buf).1)
payloads_lem seq uptime_us pitch roll imu_buf odom_buf hi ho = (
  imu_payload-layout seq uptime_us pitch roll
      ∙ sym (
          ap (λ x. x.1)
            (imu_to_cdr-layout (imu_packet seq uptime_us pitch roll) imu_buf (omega arith))
          ∙ whole _ (drop 36 imu_buf) (omega (arith, length-drop 36 imu_buf))),
  odom_payload-layout seq uptime_us
      ∙ sym (
          ap (λ x. x.1) (odometry_to_cdr-layout (odom_packet seq uptime_us) odom_buf (omega arith))
          ∙ whole _ (drop 20 odom_buf) (omega (arith, length-drop 20 odom_buf))),
)

-- The host reads the guest's packet back.
pub imu_from_cdr-imu_payload :
    (seq uptime_us : ℕ) (pitch roll : ℤ)
    → seq < 2 ^ 32
    → uptime_us < 2 ^ 64
    → InI32 pitch
    → InI32 roll
    → imu_from_cdr (imu_payload seq uptime_us pitch roll)
      ≡ some (imu_packet seq uptime_us pitch roll)
imu_from_cdr-imu_payload seq uptime_us pitch roll hs hu hp hr =
    rw (payloads_lem seq uptime_us pitch roll (zeros 36) (zeros 20) refl refl).0 (
      imu_from_cdr-imu_to_cdr (imu_packet seq uptime_us pitch roll) (zeros 36)
        (record {
          sequence_in = hs;
          timestamp_in = hu;
          loop_time_in = omega arith;
          pitch_in = hp;
          roll_in = hr;
          yaw_rate_in = (omega arith, omega arith);
          accel_x_in = (omega arith, omega arith);
          accel_y_in = (omega arith, omega arith);
        })
        (omega arith))

pub length-imu_payload :
    (seq uptime_us : ℕ) (pitch roll : ℤ) → length (imu_payload seq uptime_us pitch roll) ≡ 36
unfolding to_le_bytes
length-imu_payload seq uptime_us pitch roll =
    ap length (imu_payload-layout seq uptime_us pitch roll)
