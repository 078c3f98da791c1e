-- ===== src/Sensors.antt =====
-- firmware/src/sensors.rs: the word that carries the latest IMU reading from Core 1 to Core 0.
use sand_os.Base.{ℕ}
use sand_os.Abi.ImuReading.{ImuReading, encode, decode}

-- `IMU_DATA`, a u64, is what these pass on.
unfoldable pub store_imu : ImuReading → ℕ → ℕ
store_imu reading word = encode reading

unfoldable pub load_imu : ℕ → ImuReading
load_imu word = decode word
