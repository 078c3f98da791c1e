-- ===== src/Abi/Telemetry/Layout.antt =====
-- abi/src/lib.rs, telemetry payloads: the bytes that the serializers produce.
use sand_os.Base.{ℕ, ◌≡◌, refl, List, [], ◌++◌, length, arith}
use sand_os.Base.Int.{as_u16, as_u32}
use sand_os.Base.Bytes.{to_le_bytes}
use sand_os.Abi.Cdr.{new, write_u32, write_u64, write_i32, write_i16, as_bytes}
use sand_os.Abi.Telemetry.{
  ImuTelemetry, OdometryTelemetry, imu_size, odometry_size, write_imu, write_odometry,
}

-- The documented layout: the fields in order, little-endian, with no padding.
abbrev pub imu_layout : ImuTelemetry → List ℕ
imu_layout t =
    to_le_bytes 4 t.sequence
    ++ (to_le_bytes 8 t.timestamp_us
        ++ (to_le_bytes 4 t.loop_time_us
            ++ (to_le_bytes 4 (as_u32 t.pitch_millideg)
                ++ (to_le_bytes 4 (as_u32 t.roll_millideg)
                    ++ (to_le_bytes 4 (as_u32 t.yaw_rate_millideg_s)
                        ++ (to_le_bytes 4 (as_u32 t.linear_accel_x_mm_s2)
                            ++ to_le_bytes 4 (as_u32 t.linear_accel_y_mm_s2)))))))

abbrev pub odometry_layout : OdometryTelemetry → List ℕ
odometry_layout t =
    to_le_bytes 4 t.sequence
    ++ (to_le_bytes 8 t.timestamp_us
        ++ (to_le_bytes 4 t.loop_time_us
            ++ (to_le_bytes 2 (as_u16 t.left_speed) ++ to_le_bytes 2 (as_u16 t.right_speed))))

pub as_bytes-write_imu : (t : ImuTelemetry) → as_bytes (write_imu t (new imu_size)) ≡ imu_layout t
unfolding write_imu write_u32 write_u64 write_i32 as_bytes new to_le_bytes sand_os.Base.splice
as_bytes-write_imu t = refl

pub as_bytes-write_odometry :
    (t : OdometryTelemetry) → as_bytes (write_odometry t (new odometry_size)) ≡ odometry_layout t
unfolding write_odometry write_u32 write_u64 write_i16 as_bytes new to_le_bytes sand_os.Base.splice
as_bytes-write_odometry t = refl
