-- ===== src/Tests/Abi.antt =====
-- Runs of the model of abi/src/lib.rs, and its theorems at concrete inputs.
use sand_os.Base.{
  ℕ, ◌+◌, ◌^◌, ◌≤◌, ◌<◌, ◌≡◌, ◌≢◌, ◌↔◌, ◌⊎◌, inl, inr, refl, arith, List, [], ◌∷◌, ◌++◌, Option,
  none, some, Bool, true, false, replicate, length,
}
use sand_os.Base.Int.{pos, negsuc}
use sand_os.Base.Bytes
use sand_os.Abi.Cdr.{new, write_u32, as_bytes}
use sand_os.Abi.Cdr.Laws.{Appends, u32, encoding, write, write-Appends, new-IsValid}
use sand_os.Abi.Telemetry.{TelemetryPacket, imu, serialize, deserialize}
use sand_os.Abi.Telemetry.RoundTrip.{deserialize-serialize}
use sand_os.Abi.Crc.{crc32}
use sand_os.Abi.Crc.Detect.{crc32-detects}

-- "123456789", the standard check value.
crc32_check_value :
    crc32 (0x31 ∷ 0x32 ∷ 0x33 ∷ 0x34 ∷ 0x35 ∷ 0x36 ∷ 0x37 ∷ 0x38 ∷ 0x39 ∷ []) ≡ 0xcbf4_3926
unfolding crc32
crc32_check_value = refl

crc32_empty : crc32 [] ≡ 0
unfolding crc32
crc32_empty = refl

crc32-detects_example : crc32 (1 ∷ 2 ∷ 3 ∷ 4 ∷ []) ≢ crc32 (1 ∷ 2 ∷ 2 ∷ 4 ∷ [])
crc32-detects_example =
    crc32-detects (1 ∷ 2 ∷ []) 3 2 (4 ∷ []) (omega arith) (omega arith) (omega arith) (omega arith)
      (omega arith)

write_u32_bytes : as_bytes (write_u32 (new 8) 0x12345678).1 ≡ 0x78 ∷ 0x56 ∷ 0x34 ∷ 0x12 ∷ []
unfolding as_bytes write_u32 new Bytes.to_le_bytes sand_os.Base.splice
write_u32_bytes = refl

write-Appends_example : Appends (new 8) (encoding (u32 7)) (write (new 8) (u32 7))
write-Appends_example = write-Appends (new 8) (u32 7) (new-IsValid 8)

abbrev imu_packet : TelemetryPacket
imu_packet = imu (record {
  sequence = 42;
  timestamp_us = 1_000_000;
  loop_time_us = 1_987;
  pitch_millideg = pos 15000;
  roll_millideg = negsuc 3499;
  yaw_rate_millideg_s = pos 200;
  linear_accel_x_mm_s2 = pos 9810;
  linear_accel_y_mm_s2 = pos 0;
})

deserialize-serialize_example :
    deserialize (serialize imu_packet (replicate 40 0)).1 ≡ some imu_packet
deserialize-serialize_example =
    deserialize-serialize imu_packet (replicate 40 0) (omega arith) (omega arith)
