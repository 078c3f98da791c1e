-- ===== src/Abi/Telemetry/Fields.antt =====
-- abi/src/lib.rs, telemetry payloads: reading back the fields of a layout, one by one.
use sand_os.Base.{
  ℕ, suc, ◌+◌, ◌^◌, ◌≤◌, ◌<◌, ◌≡◌, refl, ap, ◌∙◌, ◌⊎◌, inl, inr, List, [], ◌∷◌, ◌++◌, true, false,
  Option, none, some, ltb, le→ltb, lt→ltb, arith, length, take, drop, length-drop,
  take-length_append,
}
use sand_os.Base.Int.{
  ℤ, InI16, InI32, as_u16, as_u32, as_i16, as_i32, as_u16-lt, as_u32-lt, as_i16-as_u16,
  as_i32-as_u32,
}
use sand_os.Base.Bytes.{to_le_bytes, from_le_bytes, from_le_bytes-to_le_bytes}
use sand_os.Abi.Telemetry.{
  ImuTelemetry, OdometryTelemetry, imu_size, odometry_size, imu_from_cdr, odometry_from_cdr,
}
use sand_os.Abi.Telemetry.Layout.{imu_layout, odometry_layout}

-- Every field is a value of its Rust type.
pub record IsImu (t : ImuTelemetry) : Type 0 where
  pub sequence_in : t.sequence < 2 ^ 32
  pub timestamp_in : t.timestamp_us < 2 ^ 64
  pub loop_time_in : t.loop_time_us < 2 ^ 32
  pub pitch_in : InI32 t.pitch_millideg
  pub roll_in : InI32 t.roll_millideg
  pub yaw_rate_in : InI32 t.yaw_rate_millideg_s
  pub accel_x_in : InI32 t.linear_accel_x_mm_s2
  pub accel_y_in : InI32 t.linear_accel_y_mm_s2

pub record IsOdometry (t : OdometryTelemetry) : Type 0 where
  pub sequence_in : t.sequence < 2 ^ 32
  pub timestamp_in : t.timestamp_us < 2 ^ 64
  pub loop_time_in : t.loop_time_us < 2 ^ 32
  pub left_in : InI16 t.left_speed
  pub right_in : InI16 t.right_speed

word32 : (v : ℕ) → v < 2 ^ 32 → from_le_bytes (to_le_bytes 4 v) ≡ v
word32 v h = from_le_bytes-to_le_bytes 4 v (omega arith)

word64 : (v : ℕ) → v < 2 ^ 64 → from_le_bytes (to_le_bytes 8 v) ≡ v
word64 v h = from_le_bytes-to_le_bytes 8 v (omega arith)

int32 : (z : ℤ) → InI32 z → as_i32 (from_le_bytes (to_le_bytes 4 (as_u32 z))) ≡ z
int32 z h = ap as_i32 (word32 (as_u32 z) (as_u32-lt z)) ∙ as_i32-as_u32 z h

int16 : (z : ℤ) → InI16 z → as_i16 (from_le_bytes (to_le_bytes 2 (as_u16 z))) ≡ z
int16 z h =
    ap as_i16 (from_le_bytes-to_le_bytes 2 (as_u16 z) (omega (arith, as_u16-lt z)))
    ∙ as_i16-as_u16 z h

pub imu_fields : ImuTelemetry → ImuTelemetry
imu_fields t = record {
  sequence = from_le_bytes (to_le_bytes 4 t.sequence);
  timestamp_us = from_le_bytes (to_le_bytes 8 t.timestamp_us);
  loop_time_us = from_le_bytes (to_le_bytes 4 t.loop_time_us);
  pitch_millideg = as_i32 (from_le_bytes (to_le_bytes 4 (as_u32 t.pitch_millideg)));
  roll_millideg = as_i32 (from_le_bytes (to_le_bytes 4 (as_u32 t.roll_millideg)));
  yaw_rate_millideg_s = as_i32 (from_le_bytes (to_le_bytes 4 (as_u32 t.yaw_rate_millideg_s)));
  linear_accel_x_mm_s2 = as_i32 (from_le_bytes (to_le_bytes 4 (as_u32 t.linear_accel_x_mm_s2)));
  linear_accel_y_mm_s2 = as_i32 (from_le_bytes (to_le_bytes 4 (as_u32 t.linear_accel_y_mm_s2)));
}

pub imu_from_cdr-layout :
    (t : ImuTelemetry) (rest : List ℕ) → imu_from_cdr (imu_layout t ++ rest) ≡ some (imu_fields t)
unfolding imu_from_cdr imu_fields to_le_bytes sand_os.Base.slice
imu_from_cdr-layout t rest = rw (le→ltb (length (imu_layout t ++ rest)) imu_size (omega arith)) refl

pub imu_fields_lem : (t : ImuTelemetry) → IsImu t → imu_fields t ≡ t
unfolding imu_fields
imu_fields_lem t v = λ i. record {
  sequence = word32 t.sequence v.sequence_in i;
  timestamp_us = word64 t.timestamp_us v.timestamp_in i;
  loop_time_us = word32 t.loop_time_us v.loop_time_in i;
  pitch_millideg = int32 t.pitch_millideg v.pitch_in i;
  roll_millideg = int32 t.roll_millideg v.roll_in i;
  yaw_rate_millideg_s = int32 t.yaw_rate_millideg_s v.yaw_rate_in i;
  linear_accel_x_mm_s2 = int32 t.linear_accel_x_mm_s2 v.accel_x_in i;
  linear_accel_y_mm_s2 = int32 t.linear_accel_y_mm_s2 v.accel_y_in i;
}

pub odometry_fields : OdometryTelemetry → OdometryTelemetry
odometry_fields t = record {
  sequence = from_le_bytes (to_le_bytes 4 t.sequence);
  timestamp_us = from_le_bytes (to_le_bytes 8 t.timestamp_us);
  loop_time_us = from_le_bytes (to_le_bytes 4 t.loop_time_us);
  left_speed = as_i16 (from_le_bytes (to_le_bytes 2 (as_u16 t.left_speed)));
  right_speed = as_i16 (from_le_bytes (to_le_bytes 2 (as_u16 t.right_speed)));
}

pub odometry_from_cdr-layout :
    (t : OdometryTelemetry) (rest : List ℕ)
    → odometry_from_cdr (odometry_layout t ++ rest) ≡ some (odometry_fields t)
unfolding odometry_from_cdr odometry_fields to_le_bytes sand_os.Base.slice
odometry_from_cdr-layout t rest =
    rw (le→ltb (length (odometry_layout t ++ rest)) odometry_size (omega arith)) refl

pub odometry_fields_lem : (t : OdometryTelemetry) → IsOdometry t → odometry_fields t ≡ t
unfolding odometry_fields
odometry_fields_lem t v = λ i. record {
  sequence = word32 t.sequence v.sequence_in i;
  timestamp_us = word64 t.timestamp_us v.timestamp_in i;
  loop_time_us = word32 t.loop_time_us v.loop_time_in i;
  left_speed = int16 t.left_speed v.left_in i;
  right_speed = int16 t.right_speed v.right_in i;
}
