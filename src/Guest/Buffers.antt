-- ===== src/Guest/Buffers.antt =====
-- wasm-apps/src/lib.rs: the little-endian writers, and the CDR buffers that the guest builds with them.
use sand_os.Base.{ℕ, List, replicate, splice}
use sand_os.Base.Int.{ℤ, pos, as_u16, as_u32}
use sand_os.Base.Bytes.{to_le_bytes}

abbrev pub imu_cdr_size : ℕ
imu_cdr_size = 36

abbrev pub odom_cdr_size : ℕ
odom_cdr_size = 20

abbrev pub nominal_loop_time_us : ℕ
nominal_loop_time_us = 2000

unfoldable pub write_u32_le : List ℕ → ℕ → ℕ → List ℕ
write_u32_le buf offset val = splice buf offset (to_le_bytes 4 val)

unfoldable pub write_u64_le : List ℕ → ℕ → ℕ → List ℕ
write_u64_le buf offset val = splice buf offset (to_le_bytes 8 val)

unfoldable pub write_i32_le : List ℕ → ℕ → ℤ → List ℕ
unfolding write_u32_le
write_i32_le buf offset val = write_u32_le buf offset (as_u32 val)

unfoldable pub write_i16_le : List ℕ → ℕ → ℤ → List ℕ
write_i16_le buf offset val = splice buf offset (to_le_bytes 2 (as_u16 val))

-- The 36 bytes that `emit_imu_telemetry_handler` builds.
unfoldable pub imu_payload : ℕ → ℕ → ℤ → ℤ → List ℕ
unfolding write_u32_le write_u64_le write_i32_le
imu_payload seq uptime_us pitch roll =
    let b1 = write_u32_le (replicate imu_cdr_size 0) 0 seq in
    let b2 = write_u64_le b1 4 uptime_us in
    let b3 = write_u32_le b2 12 nominal_loop_time_us in
    let b4 = write_i32_le b3 16 pitch in write_i32_le b4 20 roll

-- The 20 bytes that `emit_odom_telemetry_handler` builds.
unfoldable pub odom_payload : ℕ → ℕ → List ℕ
unfolding write_u32_le write_u64_le write_i16_le
odom_payload seq uptime_us =
    let b1 = write_u32_le (replicate odom_cdr_size 0) 0 seq in
    let b2 = write_u64_le b1 4 uptime_us in
    let b3 = write_u32_le b2 12 nominal_loop_time_us in
    let b4 = write_i16_le b3 16 (pos 0) in write_i16_le b4 18 (pos 0)
