-- ===== src/Abi/Telemetry.antt =====
-- abi/src/lib.rs, `ImuTelemetry`, `OdometryTelemetry` and `TelemetryPacket`: the CDR payloads.
pub mod Layout
pub mod Fields
pub mod RoundTrip
use sand_os.Base.{
  ℕ, suc, ◌+◌, List, [], ◌∷◌, Option, none, some, ltb, ◌==◌, if◌then◌else◌, length, slice, splice,
  drop,
}
use sand_os.Base.Int.{ℤ, as_i16, as_i32}
use sand_os.Base.Bytes.{from_le_bytes}
use sand_os.Abi.Cdr.{CdrSerializer, new, write_u32, write_u64, write_i32, write_i16, as_bytes}
use mathlib.Core.Option

pub record ImuTelemetry : Type 0 where
  pub sequence : ℕ
  pub timestamp_us : ℕ
  pub loop_time_us : ℕ
  pub pitch_millideg : ℤ
  pub roll_millideg : ℤ
  pub yaw_rate_millideg_s : ℤ
  pub linear_accel_x_mm_s2 : ℤ
  pub linear_accel_y_mm_s2 : ℤ

pub record OdometryTelemetry : Type 0 where
  pub sequence : ℕ
  pub timestamp_us : ℕ
  pub loop_time_us : ℕ
  pub left_speed : ℤ
  pub right_speed : ℤ

pub data TelemetryPacket : Type 0 where
  imu : ImuTelemetry → TelemetryPacket
  odometry : OdometryTelemetry → TelemetryPacket

-- `ImuTelemetry::SERIALIZED_SIZE`, `OdometryTelemetry::SERIALIZED_SIZE`
abbrev pub imu_size : ℕ
imu_size = 36

abbrev pub odometry_size : ℕ
odometry_size = 20

-- `TelemetryPacket::TYPE_IMU`, `TelemetryPacket::TYPE_ODOMETRY`
abbrev pub type_imu : ℕ
type_imu = 0x30

abbrev pub type_odometry : ℕ
type_odometry = 0x31

-- `u32::from_le_bytes([buf[at], …])` and its kin.
unfoldable pub read_u32 : List ℕ → ℕ → ℕ
read_u32 buf at = from_le_bytes (slice buf at 4)

unfoldable pub read_u64 : List ℕ → ℕ → ℕ
read_u64 buf at = from_le_bytes (slice buf at 8)

unfoldable pub read_i32 : List ℕ → ℕ → ℤ
unfolding read_u32
read_i32 buf at = as_i32 (read_u32 buf at)

unfoldable pub read_i16 : List ℕ → ℕ → ℤ
read_i16 buf at = as_i16 (from_le_bytes (slice buf at 2))

-- The chain of writes of `ImuTelemetry::to_cdr`; `.ok()` drops each result.
unfoldable pub write_imu : ImuTelemetry → CdrSerializer → CdrSerializer
write_imu t s0 =
    let s1 = (write_u32 s0 t.sequence).1 in
    let s2 = (write_u64 s1 t.timestamp_us).1 in
    let s3 = (write_u32 s2 t.loop_time_us).1 in
    let s4 = (write_i32 s3 t.pitch_millideg).1 in
    let s5 = (write_i32 s4 t.roll_millideg).1 in
    let s6 = (write_i32 s5 t.yaw_rate_millideg_s).1 in
    let s7 = (write_i32 s6 t.linear_accel_x_mm_s2).1 in (write_i32 s7 t.linear_accel_y_mm_s2).1

unfoldable pub write_odometry : OdometryTelemetry → CdrSerializer → CdrSerializer
write_odometry t s0 =
    let s1 = (write_u32 s0 t.sequence).1 in
    let s2 = (write_u64 s1 t.timestamp_us).1 in
    let s3 = (write_u32 s2 t.loop_time_us).1 in
    let s4 = (write_i16 s3 t.left_speed).1 in (write_i16 s4 t.right_speed).1

-- The result is the number of bytes written and the buffer afterwards.
unfoldable pub imu_to_cdr : ImuTelemetry → List ℕ → ℕ × List ℕ
unfolding write_imu
imu_to_cdr t buf =
    let bytes = as_bytes (write_imu t (new imu_size)) in
    if ltb (length buf) imu_size then (0, buf) else (length bytes, splice buf 0 bytes)

unfoldable pub odometry_to_cdr : OdometryTelemetry → List ℕ → ℕ × List ℕ
unfolding write_odometry
odometry_to_cdr t buf =
    let bytes = as_bytes (write_odometry t (new odometry_size)) in
    if ltb (length buf) odometry_size then (0, buf) else (length bytes, splice buf 0 bytes)

unfoldable pub imu_from_cdr : List ℕ → Option ImuTelemetry
unfolding read_u32 read_u64 read_i32
imu_from_cdr buf =
    if ltb (length buf) imu_size
    then none
    else some (record {
      sequence = read_u32 buf 0;
      timestamp_us = read_u64 buf 4;
      loop_time_us = read_u32 buf 12;
      pitch_millideg = read_i32 buf 16;
      roll_millideg = read_i32 buf 20;
      yaw_rate_millideg_s = read_i32 buf 24;
      linear_accel_x_mm_s2 = read_i32 buf 28;
      linear_accel_y_mm_s2 = read_i32 buf 32;
    })

unfoldable pub odometry_from_cdr : List ℕ → Option OdometryTelemetry
unfolding read_u32 read_u64 read_i16
odometry_from_cdr buf =
    if ltb (length buf) odometry_size
    then none
    else some (record {
      sequence = read_u32 buf 0;
      timestamp_us = read_u64 buf 4;
      loop_time_us = read_u32 buf 12;
      left_speed = read_i16 buf 16;
      right_speed = read_i16 buf 18;
    })

-- `buf[0] = kind; 1 + to_cdr(&mut buf[1..])`, behind the test of the room needed.
abbrev tagged : ℕ → ℕ → (List ℕ → ℕ × List ℕ) → List ℕ → ℕ × List ℕ
tagged needed kind to_cdr buf =
    let (n, rest) = to_cdr (drop 1 buf) in
    if ltb (length buf) needed then (0, buf) else (1 + n, kind ∷ rest)

unfoldable pub serialize : TelemetryPacket → List ℕ → ℕ × List ℕ
unfolding imu_to_cdr odometry_to_cdr
serialize (imu t) buf = tagged (1 + imu_size) type_imu (imu_to_cdr t) buf
serialize (odometry t) buf = tagged (1 + odometry_size) type_odometry (odometry_to_cdr t) buf

unfoldable pub deserialize : List ℕ → Option TelemetryPacket
unfolding imu_from_cdr odometry_from_cdr
deserialize [] = none
deserialize (kind ∷ rest) =
    if kind == type_imu
    then Option.map imu (imu_from_cdr rest)
    else if kind == type_odometry
    then Option.map odometry (odometry_from_cdr rest)
    else none
