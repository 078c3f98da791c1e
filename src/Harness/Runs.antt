-- ===== src/Harness/Runs.antt =====
-- host-tests/src/vm_harness.rs: whole runs of a guest in the tests, against the firmware.
use sand_os.Base.{ℕ, arith, List, ◌≤◌, ◌<◌, ◌+◌, ◌^◌, length}
use sand_os.Base.Int.{InI32}
use sand_os.Mock.{MockHost}
use sand_os.Mock.Audio.{read_audio_exact}
use sand_os.Harness as Harness
use sand_os.Sandbox as Sandbox
use sand_os.Sandbox.{
  uptime, starting, stopping, avail, queue_len, drawing, brightening, inferring, ota_reading,
  logging, writing, hearing, sensing, emitting_imu, emitting_odom,
}
use sand_os.Sandbox.Hosts.{mock_ops}

-- The mock answers the number of bytes that it has read.
pub read_audio-InI32 :
    (out : List ℕ) (k : MockHost) → length out ≤ 1024 → InI32 (mock_ops.read_audio out k).0
read_audio-InI32 out k small = rw (read_audio_exact out k small) (omega arith)

-- The counters of the mock do not overflow in `n` calls.
abbrev pub HasCounts : ℕ → MockHost → Type 0
HasCounts n k = (k.toggle_count + n < 2 ^ 32) × (k.watchdog_feed_count + n < 2 ^ 32)
